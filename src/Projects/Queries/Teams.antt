-- ===== src/Projects/Queries/Teams.antt =====
-- The teams that `ListTeams` gives a user.
use santokit.Base.{◌≡◌, true, some, List, [], ◌∷◌, arith, Text, eq_refl, contains, Map, lookup}
use santokit.Projects.{Team, Service}
use santokit.Projects.Queries.{sees, list_teams, teams_from}

abbrev pub team_ids : List Team → List Text
team_ids [] = []
team_ids (t ∷ ts) = t.id ∷ team_ids ts

contains-teams_from :
    (s : Service) (user_id k : Text) (t : Team) (ts : Map Team)
    → lookup k ts ≡ some t
    → sees s user_id t.id ≡ true
    → contains t.id (team_ids (teams_from s user_id ts)) ≡ true
unfolding teams_from lookup contains
contains-teams_from s user_id k t [] h seen = cc
contains-teams_from s user_id k t ((k', t') ∷ ts) h seen =
    ground (arith, contains-teams_from s user_id k t ts, eq_refl t.id)

-- A team that is stored and that the user may see is listed.
pub contains-list_teams :
    (s : Service) (user_id k : Text) (t : Team)
    → lookup k s.teams ≡ some t
    → sees s user_id t.id ≡ true
    → contains t.id (team_ids (list_teams s user_id)) ≡ true
unfolding list_teams
contains-list_teams s user_id k t = contains-teams_from s user_id k t s.teams
