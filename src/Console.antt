-- ===== src/Console.antt =====
-- The API of the web console, packages/hub/internal/console/console.go, over the projects in memory.
-- A nil projects service is `none`; a query parameter that is missing is empty, and a decoded request
-- body is `none` where the JSON decoder fails. `ListProjects` and `ListTeams` in memory return no
-- error.
pub mod Laws
mod Tests
use santokit.Base.{
  ℕ, Option, none, some, List, if◌then◌else◌, is_empty, Text, lit, Result, ok, err, Error,
}
use santokit.Base.Strings.{trim_space}
use santokit.Projects.{Project, Team, Member, Service, get_project, invite_member}
use santokit.Projects.Queries.{list_projects, list_teams, stats}

-- `DashboardStats`; the time of the last deployment is always the zero time.
pub record DashboardStats : Type 0 where
  pub total_projects : ℕ
  pub total_deployments : ℕ
  pub active_users : ℕ

pub data Body : Type 0 where
  message : Text → Body
  -- the message of an error that the service returned
  failure : Error → Body
  -- the message of a JSON decoder
  decode_failure : Body
  dashboard : DashboardStats → Body
  project_list : List Project → Body
  project : Project → Body
  team_list : List Team → Body
  member : Member → Body

pub record Response : Type 0 where
  pub status : ℕ
  pub body : Body

abbrev pub respond : ℕ → Body → Response
respond status body = record { status = status; body = body }

-- What every handler answers without a projects service.
abbrev pub not_configured : Response
not_configured = respond 500 (message (lit "projects service not configured"))

-- `HandleGetStats`
unfoldable pub handle_get_stats : Option Service → Text → Response
handle_get_stats none user_id = not_configured
handle_get_stats (some s) user_id =
    let counts = stats s (trim_space user_id) in
    respond 200 (
      dashboard
        (record { total_projects = counts.0; total_deployments = 0; active_users = counts.1 }))

-- `HandleListProjects`
unfoldable pub handle_list_projects : Option Service → Text → Text → Response
handle_list_projects none user_id team_id = not_configured
handle_list_projects (some s) user_id team_id =
    respond 200 (project_list (list_projects s (trim_space user_id) (trim_space team_id)))

project_response : Result Project → Response
project_response (err e) = respond 404 (failure e)
project_response (ok p) = respond 200 (project p)

-- `HandleGetProject`
unfoldable pub handle_get_project : Option Service → Text → Response
unfolding project_response
handle_get_project none id = not_configured
handle_get_project (some s) id =
    if is_empty (trim_space id)
    then respond 400 (message (lit "id required"))
    else project_response (get_project s (trim_space id))

-- `HandleListTeams`
unfoldable pub handle_list_teams : Option Service → Text → Response
handle_list_teams none user_id = not_configured
handle_list_teams (some s) user_id = respond 200 (team_list (list_teams s (trim_space user_id)))

-- The body of a request of `HandleInviteMember`.
pub record InviteRequest : Type 0 where
  pub team_id : Text
  pub user_id : Text
  pub email : Text
  pub role : Text

invited : Service × Result Member → Option Service × Response
invited (s, err e) = (some s, respond 400 (failure e))
invited (s, ok m) = (some s, respond 200 (member m))

-- `HandleInviteMember`
unfoldable pub handle_invite_member :
    Option Service → Option InviteRequest → Option Service × Response
unfolding invited
handle_invite_member none request = (none, not_configured)
handle_invite_member (some s) none = (some s, respond 400 decode_failure)
handle_invite_member (some s) (some r) =
    invited (invite_member s r.team_id r.user_id r.email r.role)
