-- ===== src/Cli.antt =====
-- The command line tool of packages/cli.
pub mod Scanner
pub mod Parser
pub mod Integrator
pub mod Generator
pub mod Logic
pub mod Client
pub mod Configs
pub mod Profiles
pub mod Login
pub mod Deploy
pub mod Schemas
pub mod Secrets
pub mod Disk
pub mod Sync
pub mod Init
pub mod Tests
