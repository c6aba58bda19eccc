-- ===== src/Console/Tests.antt =====
-- The console over the projects of one user.
use santokit.Base.{
  ◌≡◌, refl, true, Option, some, [], ◌∷◌, arith, lit, contains, lookup, insert, ◌==◌,
}
use santokit.Base.Strings.{trim_space, to_lower}
use santokit.Projects.{Team, Service, normalize_role, invite_member}
use santokit.Base.Encoding.{hex}
use santokit.Projects.Invariant.{IsValid, start, next, team_created, Reachable-IsValid}
use santokit.Projects.{IdSource, create_team, random_id, new_service}
use santokit.Projects.Queries.Teams.{team_ids}
use santokit.Console.{
  respond, team_list, member, InviteRequest, handle_list_teams, handle_invite_member,
}
use santokit.Console.Laws.{shown_teams, list_teams-invite_member, invite_member_refused}

abbrev crew : Team
crew = record {
  id = lit "team_4142434445464748";
  name = lit "crew";
  members = record { user_id = lit "ann"; email = []; role = lit "owner" } ∷ [];
  created_at = 7;
}

abbrev source : IdSource
source = record { random = some (lit "ABCDEFGH"); nanos = 0 }

abbrev service : Service
service = record {
  projects = [];
  teams = (lit "team_4142434445464748", crew) ∷ [];
  personal_team_by_user = [];
}

-- The service that a first team leads to.
service-IsValid : IsValid service
unfolding create_team random_id trim_space insert hex
service-IsValid =
    Reachable-IsValid (next start (team_created new_service source 7 (lit "ann") (lit "crew")))

abbrev request : InviteRequest
request = record {
  team_id = lit "team_4142434445464748";
  user_id = lit "bob";
  email = [];
  role = [];
}

abbrev after : Option Service
after = (handle_invite_member (some service) (some request)).0

list_teams-invite_member_example :
    ((handle_invite_member (some service) (some request)).1
      ≡ respond 200 (member (record { user_id = lit "bob"; email = []; role = normalize_role [] })))
    × (handle_list_teams after (lit "bob")
        ≡ respond 200 (team_list (shown_teams after (lit "bob"))))
    × (contains (lit "team_4142434445464748") (team_ids (shown_teams after (lit "bob"))) ≡ true)
unfolding handle_invite_member invite_member trim_space to_lower normalize_role lookup insert ◌==◌
list_teams-invite_member_example =
    list_teams-invite_member service request service-IsValid refl refl

invite_member_refused_example :
    (handle_invite_member (some service) (some (record request { team_id = lit "t2" }))).0
    ≡ some service
unfolding handle_invite_member invite_member trim_space to_lower normalize_role lookup ◌==◌
invite_member_refused_example =
    invite_member_refused (some service) (some (record request { team_id = lit "t2" }))
      (λ e. absurd (omega (arith, e)))
