-- ===== src/Console/Laws.antt =====
-- What the console shows after an invitation, and how its pages agree.
use santokit.Base.{
  ◌≡◌, ◌≢◌, refl, ap, ◌⊎◌, inl, inr, true, Option, none, some, List, [], arith, length, Text,
  contains, Result, ok, err, Error,
}
use santokit.Base.Strings.{trim_space}
use santokit.Projects.{Team, Member, Service, normalize_role, invite_member}
use santokit.Projects.Invariant.{IsValid}
use santokit.Projects.Members.{
  invite_member_found, invite_member_lem, invite_member_failed, lookup-invite_member,
}
use santokit.Projects.Queries.{list_teams, sees, stats-list_projects}
use santokit.Projects.Queries.Teams.{team_ids, contains-list_teams}
use santokit.Console.{
  DashboardStats, respond, dashboard, project_list, team_list, member, not_configured,
  handle_get_stats, handle_list_projects, handle_list_teams, InviteRequest, invited,
  handle_invite_member,
}

-- The dashboard and the list of projects agree: for every user both pages answer that there is no
-- projects service, or the total on the dashboard is the length of the list.
pub get_stats-list_projects :
    (s : Option Service) (user_id : Text)
    → ((handle_get_stats s user_id ≡ not_configured)
        × (handle_list_projects s user_id [] ≡ not_configured))
      ⊎ ((d : DashboardStats) × (ps : List _) × (handle_get_stats s user_id
            ≡ respond 200 (dashboard d))
          × (handle_list_projects s user_id [] ≡ respond 200 (project_list ps))
          × (d.total_projects ≡ length ps))
unfolding handle_get_stats handle_list_projects trim_space
get_stats-list_projects none user_id = inl (refl, refl)
get_stats-list_projects (some s) user_id =
    inr (_, _, refl, refl, stats-list_projects s (trim_space user_id))

-- What `HandleListTeams` of this service answers.
abbrev pub shown_teams : Option Service → Text → List Team
shown_teams none user_id = []
shown_teams (some s) user_id = list_teams s (trim_space user_id)

module _ (s : Service) (r : InviteRequest) where
  abbrev outcome : Service × Result Member
  outcome = invite_member s r.team_id r.user_id r.email r.role

  answered :
      (result : Result Member)
      → outcome.1 ≡ result
      → (invited (outcome.0, result)).1.status ≡ 200
      → (m : Member) × (outcome.1 ≡ ok m)
        × (invited (outcome.0, result) ≡ (some outcome.0, respond 200 (member m)))
  unfolding invited
  answered (err e) known h = absurd (omega (arith, h))
  answered (ok m) known h = (m, known, refl)

  -- In a state that keeps the invariant of the service, an invitation through the console that answers
  -- 200, for a user whose identifier has no white space at its ends, answers the member with the
  -- normalised role, and its team then stands in the list of teams which the console gives the user.
  pub list_teams-invite_member :
      IsValid s
      → trim_space r.user_id ≡ r.user_id
      → (handle_invite_member (some s) (some r)).1.status ≡ 200
      → ((handle_invite_member (some s) (some r)).1
          ≡ respond 200 (
              member
                (record { user_id = r.user_id; email = r.email; role = normalize_role r.role })))
        × (handle_list_teams (handle_invite_member (some s) (some r)).0 r.user_id
            ≡ respond 200
                (team_list (shown_teams (handle_invite_member (some s) (some r)).0 r.user_id)))
        × (contains r.team_id
              (team_ids (shown_teams (handle_invite_member (some s) (some r)).0 r.user_id))
            ≡ true)
  unfolding handle_invite_member handle_list_teams
  list_teams-invite_member valid trimmed h =
      let (m, good, shape) = answered outcome.1 refl h in
      let (team, stored) = invite_member_found s r.team_id r.user_id r.email r.role m good in
      let named = valid.teams r.team_id team stored in
      let (user, email, role, joined) =
        invite_member_lem s r.team_id r.user_id r.email r.role m good in
      let seen : sees outcome.0 r.user_id team.id ≡ true = rw (named, joined) (ground arith) in
      let held =
        contains-list_teams outcome.0 r.user_id r.team_id _
          (lookup-invite_member s r.team_id r.user_id r.email r.role m team stored good) seen in
      rw shape (cc, refl, rw trimmed (rw named at held))

refused_outcome :
    (s : Service) (x : Service × Result Member)
    → ((e : Error) → x.1 ≡ err e → x.0 ≡ s)
    → (invited x).1.status ≢ 200
    → (invited x).0 ≡ some s
unfolding invited
refused_outcome s (s', err e) kept h = ap some (kept e refl)
refused_outcome s (s', ok m) kept h = absurd (h refl)

-- An invitation through the console that does not answer 200, for whichever reason, leaves the
-- service as it was.
pub invite_member_refused :
    (s : Option Service) (r : Option InviteRequest)
    → (handle_invite_member s r).1.status ≢ 200
    → (handle_invite_member s r).0 ≡ s
unfolding handle_invite_member
invite_member_refused none r h = refl
invite_member_refused (some s) none h = refl
invite_member_refused (some s) (some r) h =
    refused_outcome s (invite_member s r.team_id r.user_id r.email r.role)
      (invite_member_failed s r.team_id r.user_id r.email r.role) h
