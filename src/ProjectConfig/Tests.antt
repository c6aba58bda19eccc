-- ===== src/ProjectConfig/Tests.antt =====
-- The configuration over the service's own map.
use santokit.Base.{◌≡◌, refl, [], lit, err, project_id_required}
use santokit.ProjectConfig
use santokit.ProjectConfig.{Config, by_project}

abbrev cfg : Config
cfg = record { databases = lit "main: pg"; auth = []; storage = lit "s3" }

set_unnamed : ProjectConfig.set by_project [] [] cfg ≡ err project_id_required
unfolding ProjectConfig.set
set_unnamed = refl
