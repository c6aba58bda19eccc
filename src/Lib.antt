-- ===== src/Lib.antt =====
-- Santokit: the hub of packages/hub, the control plane, keeps a project's secrets, schemas,
-- configuration, logic bundles and teams behind an HTTP API, and copies the bundles to the edge KV; the
-- command line tool of packages/cli parses a project's files and sends them to the hub.
--
-- The parts, and the files that model them:
--   * Vault.antt, packages/hub/internal/vault/vault.go: `NewService`, `Set`, `Get`, `Delete`, `List`,
--     `ReEncryptForEdge`, `encrypt`, `decrypt`, over the interface `Repository`, a record of a store
--     and its operations. Vault/Memory.antt is packages/hub/internal/store/memory/vault.go.
--   * Registry.antt, packages/hub/internal/registry/registry.go: `Push` with the propagation to Redis
--     or to the files of the KV directory, and `GetLatest`. Registry/Memory.antt is
--     packages/hub/internal/store/memory/registry.go.
--   * Provisioner.antt, packages/hub/internal/provisioner/provisioner.go: uploads to the edge KV and
--     deletions. No other part of the hub calls it.
--   * ProjectConfig.antt, packages/hub/internal/projectconfig/service.go.
--   * Schema.antt and Schema/Atlas.antt, packages/hub/internal/schema/schema.go: the local mode
--     (`planMock`, `applyMock`) and the mode with a database (`Plan`, `Apply`, `evalHCL`), whose URL
--     the vault holds under `database_url`.
--   * Projects.antt and Projects/Queries.antt, packages/hub/internal/projects/service.go: projects,
--     teams, members, master keys and statistics of the service over its own maps. Projects/Sql.antt
--     and its children are the same file's functions over a database; `load` of Projects/Sql/Load.antt
--     reads the tables as the maps.
--   * Sqlstore.antt and its children, packages/hub/internal/store/sqlstore: the repositories over
--     tables (vault.go, registry.go, projectconfig.go), the placeholders (rebind.go), and the
--     choice, the opening and the migration of the database (store.go).
--   * Api/Token.antt, Api/Auth.antt and Api/Hub.antt with Api/Hub/Handlers.antt,
--     packages/hub/api/router.go: tokens, the handlers of authentication, the middleware, the handlers
--     of the protected routes and the routes. A `Hub` holds the services and their stores; `serve`
--     runs the middleware and then the handler, which calls the modules above.
--   * Console.antt, packages/hub/internal/console/console.go: the handlers of the dashboard, over the
--     service of projects. No route of the hub leads to them.
--   * Server.antt, packages/hub/internal/config/config.go and packages/hub/cmd/hub/main.go: the
--     configuration from the environment, and the start up to the server.
--   * Schema/Atlas/Sessions.antt: sequences of the plans and applications of several clients and of
--     changes of the database by others.
--   * Cli/Scanner.antt, Cli/Parser.antt and Cli/Integrator.antt, packages/cli/internal/engine: the files
--     of a project, their headers, and their bundles. Cli/Logic.antt is buildLogicConfigs of
--     packages/cli/internal/commands/logic.go.
--   * Cli/Client.antt, packages/cli/internal/engine/communicator/communicator.go, sends the calls of
--     Api/Hub.antt over a connection, which Cli/Client/Laws.antt makes one to `serve`. What uses it is
--     Cli/Configs.antt, Cli/Schemas.antt, Cli/Secrets.antt and Cli/Deploy.antt: config.go, schema.go,
--     secret.go and the commands of logic.go in packages/cli/internal/commands. Cli/Profiles.antt is
--     packages/cli/internal/userconfig/config.go with what profile.go, project.go and login.go of the
--     commands change, and `NewFromEnv` of the communicator.
--     Cli/Profiles/Views.antt is what profile.go and project.go show.
--   * Cli/Login.antt, packages/cli/internal/commands/login.go: the callback, the channels that the
--     command waits on, as a relation that selects any of them that is ready, and the check of the
--     token at the hub.
--   * Cli/Generator.antt, packages/cli/internal/engine/generator/types.go: the tree of namespaces, two
--     data types in a mutual block, and the TypeScript that is written of it. Cli/Sync.antt (with
--     Cli/Sync/Declared.antt, which relates the tree to the configurations of the files) and
--     Cli/Init.antt are sync.go and init.go of the commands, which write files (Cli/Disk.antt).
--   * Base.antt and its children: texts, maps, errors, integers, base64, sorting and the string
--     functions of Go that the code uses.
--
-- How the code is modelled:
--   * A Go string or byte slice is the list of its bytes (`Text`); a map is an association list with
--     one iteration order, and the theorems on results that do not depend on the order say so by
--     speaking of lookups. A nil map or an absent pointer is `none`.
--   * An operation that changes state takes the state and returns the new one with its result, a
--     value or an error that is named for its message (`Result`). Values are copied: no caller of
--     these packages keeps a pointer into a store and writes through it.
--   * The clock, random bytes, environment variables and the outcomes of writes to the edge are
--     arguments. A write to the edge goes to the place of its key, in Redis the key itself and on
--     the disk a cleaned path. What a URL makes of the key in `DeleteSecret` is an argument. A decoded request body is an argument, `none` where the decoder fails.
--   * `crypto/aes` with GCM (`Gcm`), HMAC and JSON at the payload of a token (`Codec`, `Carries`),
--     SHA-256 and the Atlas drivers (`Atlas`, `Settles`) are parameters with what the code relies on
--     as named hypotheses; so are repositories (`IsKeyed`, `IsLog`, `IsMap`). The repositories in memory
--     instantiate all three; those over tables instantiate `IsKeyed`, where the driver answers, and
--     `IsMap`. Nothing instantiates `IsLog` over tables, where a manifest comes back with the row's
--     identifier.
--   * A table is the list of its rows. A statement selects, inserts, deletes or upserts rows by its
--     WHERE clause and the table's primary key, and what the driver answers to it is an argument.
--     Sqlstore/Transaction.antt has transactions: what is stored, what the open one has made of it, and
--     `BeginTx`, the statements, `Commit` and the deferred `Rollback` as steps. What the column
--     created_at of the manifests keeps of a time, and its order, are a parameter (`Column`); the columns
--     of the other tables are taken to keep times as they are.
--   * `os.ReadFile`, `filepath.Walk` and YAML are arguments. A panic is an error or `none`.
--   * Numbers are natural numbers or the integers of Base/Int.antt, and where the code multiplies in
--     int64 the product wraps (`wrap_int64`). Every loop is a recursion on a list, or
--     on the room of a buffer; no other fuel is used.
--   * `strings.TrimSpace` removes the encodings of every rune of Unicode white space;
--     `strings.ToLower` is exact where its result is compared with ASCII text, as the code does.
--
-- `intToString` writes at most 16 digits, the size of its buffer, which a query below 10^15 bytes keeps.
--
-- Not modelled: locks, since each operation is one step; serving and shutting down, which are
-- net/http's; of the commands of packages/cli what they print, except where a command shows the user's
-- configuration, the flags, and the styles of root.go; the browser that the login opens; the
-- TypeScript of packages/bridge and packages/client; the standard middleware of the router (logging, recovery) and its health check.
pub mod Base
pub mod Vault
pub mod Registry
pub mod Provisioner
pub mod ProjectConfig
pub mod Schema
pub mod Projects
pub mod Sqlstore
pub mod Api
pub mod Console
pub mod Server
pub mod Cli
