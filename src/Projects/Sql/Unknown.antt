-- ===== src/Projects/Sql/Unknown.antt =====
-- What the two forms of `CreateProject` do with a team that does not exist.
use santokit.Projects
use santokit.Projects.{random_id}
use santokit.Projects.Sql
