-- ===== src/Projects/Invariant.antt =====
-- The invariant of the service, and that every operation keeps it.
use santokit.Base.{
  ℕ, ◌≡◌, refl, inl, inr, Bool-cases, Bool, true, false, ◌&&◌, Option, none, some, [], ◌∷◌, arith,
  if◌then◌else◌, length, is_empty, is_some, Text, lit, eq_iff, lookup, lookup-nil, insert,
  lookup-insert,
}
use santokit.Base.Strings.{trim_space}
use santokit.Base.Encoding.{hex}
use santokit.Projects.{
  Project, Team, Member, Service, new_service, IdSource, CreateEnv, generate_master_key, new_team,
  new_project, personal_team, add_personal_team, ensure_personal_team, choose_team, add_project,
  create_in, create_project, create_team, invite, invite_member, put_member, blank, normalize_role,
}

-- A stored project stands under its identifier, in a team that exists, with a master key; a stored
-- team stands under its identifier; a user's personal team exists.
pub record IsValid (s : Service) : Type 0 where
  pub identified : (id : Text) (p : Project) → lookup id s.projects ≡ some p → p.id ≡ id
  pub in_team :
      (id : Text) (p : Project)
      → lookup id s.projects ≡ some p
      → is_some (lookup p.team_id s.teams) ≡ true
  pub keyed :
      (id : Text) (p : Project) → lookup id s.projects ≡ some p → is_empty p.master_key ≡ false
  pub teams : (k : Text) (t : Team) → lookup k s.teams ≡ some t → t.id ≡ k
  pub personal :
      (user t : Text)
      → lookup user s.personal_team_by_user ≡ some t
      → is_some (lookup t s.teams) ≡ true

-- Both branches of a test keep the invariant.
if-IsValid :
    {R : Type 0} (b : Bool) (x y : Service × R)
    → IsValid x.0
    → IsValid y.0
    → IsValid (if b then x else y).0
if-IsValid true x y v w = v
if-IsValid false x y v w = w

-- A team that is added or changed takes no other team away.
with_team : Service → Text → Team → Service
with_team s k team = record s { teams = insert k team s.teams }

with_team-IsValid :
    (s : Service) (k : Text) (team : Team) → team.id ≡ k → IsValid s → IsValid (with_team s k team)
unfolding with_team
with_team-IsValid s k team same v = record {
  teams =
      λ id t e. ground (arith, e, same, lookup-insert k id team s.teams, v.teams id t, eq_iff k id);
  identified = v.identified;
  in_team = λ id p e. ground (arith, lookup-insert k p.team_id team s.teams, v.in_team id p e);
  keyed = v.keyed;
  personal = λ user t e. ground (arith, lookup-insert k t team s.teams, v.personal user t e);
}

add_personal_team-IsValid :
    (s : Service) (user : Text) (team : Team)
    → IsValid s
    → IsValid (add_personal_team s user team).0
unfolding add_personal_team
add_personal_team-IsValid s user team v = record {
  teams = λ id t e.
      ground (arith, e, lookup-insert team.id id team s.teams, v.teams id t, eq_iff team.id id);
  identified = v.identified;
  in_team =
      λ id p e. ground (arith, lookup-insert team.id p.team_id team s.teams, v.in_team id p e);
  keyed = v.keyed;
  personal = λ u t e. ground (
    arith,
    e,
    lookup-insert user u team.id s.personal_team_by_user,
    lookup-insert team.id t team s.teams,
    v.personal u t,
    eq_iff team.id t,
  );
}

personal_team-IsValid :
    (s : Service) (src : IdSource) (now : ℕ) (owner : Text) (found : Option Text)
    → IsValid s
    → IsValid (personal_team s src now owner found).0
unfolding personal_team
personal_team-IsValid s src now owner (some t) v = v
personal_team-IsValid s src now owner none v =
    add_personal_team-IsValid s owner (new_team src now (lit "Personal") owner) v

choose_team-IsValid :
    (env : CreateEnv) (s : Service) (owner team : Text)
    → IsValid s
    → IsValid (choose_team env s owner team).0
unfolding choose_team ensure_personal_team
choose_team-IsValid env s owner team v = elim (Bool-cases (is_empty team)) [
  | inr named ↦ rw named v
  | inl unnamed ↦ rw (unnamed) (
      personal_team-IsValid s env.team_source env.now owner (lookup owner s.personal_team_by_user)
        v)
]

with_project : Service → Text → Project → Service
with_project s k p = record s { projects = insert k p s.projects }

with_project-IsValid :
    (s : Service) (p : Project)
    → IsValid s
    → is_some (lookup p.team_id s.teams) ≡ true
    → is_empty p.master_key ≡ false
    → IsValid (with_project s p.id p)
unfolding with_project
with_project-IsValid s p v known key = record {
  teams = v.teams;
  identified = λ id q e.
      ground (arith, e, lookup-insert p.id id p s.projects, v.identified id q, eq_iff p.id id);
  in_team = λ id q e. ground (arith, e, known, lookup-insert p.id id p s.projects, v.in_team id q);
  keyed = λ id q e. ground (arith, e, key, lookup-insert p.id id p s.projects, v.keyed id q);
  personal = v.personal;
}

-- The random bytes of a master key, when `rand.Read` gives any, are not none at all.
abbrev pub HasBytes : Option Text → Type 0
HasBytes none = Unit
HasBytes (some key) = length key ≡ 32

key_not_empty : (key : Text) → length key ≡ 32 → is_empty (hex key) ≡ false
unfolding hex
key_not_empty [] h = absurd (omega arith)
key_not_empty (b ∷ key) h = refl

module _ (env : CreateEnv) (owner name description : Text) where
  add_project-IsValid :
      (s : Service) (t : Text) (bytes : Option Text)
      → HasBytes bytes
      → is_some (lookup t s.teams) ≡ true
      → IsValid s
      → IsValid (add_project env s owner name description t (generate_master_key bytes)).0
  unfolding add_project generate_master_key new_project with_project
  add_project-IsValid s t none bytes known v = v
  add_project-IsValid s t (some key) bytes known v =
      with_project-IsValid s (new_project env owner name description t (hex key)) v known
        (key_not_empty key bytes)

  create_in-IsValid :
      (s : Service) (t : Text)
      → HasBytes env.key_bytes
      → IsValid s
      → IsValid (create_in env owner name description (s, t)).0
  unfolding create_in
  create_in-IsValid s t bytes v = elim (Bool-cases (is_some (lookup t s.teams))) [
    | inl known ↦ rw known (add_project-IsValid s t env.key_bytes bytes known v)
    | inr unknown ↦ rw unknown v
  ]

  -- `CreateProject` keeps the invariant, whether it succeeds or fails.
  pub create_project-IsValid :
      (s : Service) (team : Text)
      → HasBytes env.key_bytes
      → IsValid s
      → IsValid (create_project env s owner name description team).0
  unfolding create_project
  create_project-IsValid s team bytes v = if-IsValid (is_empty (trim_space name)) _ _ v (
      if-IsValid (is_empty (trim_space owner)) _ _ v (
        create_in-IsValid (choose_team env s owner team).0 (choose_team env s owner team).1 bytes
          (choose_team-IsValid env s owner team v)))

invite-IsValid :
    (s : Service) (t : Text) (m : Member) (team : Option Team)
    → lookup t s.teams ≡ team
    → IsValid s
    → IsValid (invite s t m team).0
unfolding invite with_team put_member
invite-IsValid s t m none found v = v
invite-IsValid s t m (some team) found v = with_team-IsValid s t _ (v.teams t team found) v

-- The operations of the service, in the order of a run.
pub data Step : Service → Service → Type 0 where
  created :
      (s : Service) (env : CreateEnv) (owner name description team : Text)
      → HasBytes env.key_bytes
      → Step s (create_project env s owner name description team).0
  team_created :
      (s : Service) (src : IdSource) (now : ℕ) (owner name : Text)
      → Step s (create_team src now s owner name).0
  invited :
      (s : Service) (team user email role : Text) → Step s (invite_member s team user email role).0

-- The states that a service comes to, from the empty one.
pub data Reachable : Service → Type 0 where
  start : Reachable new_service
  next : {s t : Service} → Reachable s → Step s t → Reachable t

create_team-IsValid :
    (src : IdSource) (now : ℕ) (s : Service) (owner name : Text)
    → IsValid s
    → IsValid (create_team src now s owner name).0
unfolding create_team with_team
create_team-IsValid src now s owner name v = if-IsValid (is_empty (trim_space owner)) _ _ v (
    if-IsValid (is_empty (trim_space name)) _ _ v
      (with_team-IsValid s (new_team src now name owner).id (new_team src now name owner) refl v))

invite_member-IsValid :
    (s : Service) (t user email role : Text)
    → IsValid s
    → IsValid (invite_member s t user email role).0
unfolding invite_member
invite_member-IsValid s t user email role v = if-IsValid (blank t) _ _ v (
    if-IsValid (blank user && blank email) _ _ v (
      if-IsValid (is_empty (normalize_role role)) _ _ v
        (invite-IsValid s t _ (lookup t s.teams) refl v)))

Step-IsValid : {s t : Service} → Step s t → IsValid s → IsValid t
Step-IsValid (created s env owner name description team bytes) v =
    create_project-IsValid env owner name description s team bytes v
Step-IsValid (team_created s src now owner name) v = create_team-IsValid src now s owner name v
Step-IsValid (invited s team user email role) v = invite_member-IsValid s team user email role v

nothing : {V : Type 0} {v : V} (k : Text) → lookup k [] ≡ some v → ⊥
nothing {V} k e = cc (lookup-nil {V = V} k [] refl)

-- In every state that the operations lead to from the empty service, whatever their arguments and
-- results, the stored projects have an existing team, a master key and their own identifier, the
-- stored teams have their own identifier, and the personal teams exist.
pub Reachable-IsValid : {s : Service} → Reachable s → IsValid s
Reachable-IsValid start = record {
  identified = λ id p e. absurd (nothing id e);
  in_team = λ id p e. absurd (nothing id e);
  keyed = λ id p e. absurd (nothing id e);
  teams = λ k t e. absurd (nothing k e);
  personal = λ user t e. absurd (nothing user e);
}
Reachable-IsValid (next r step) = Step-IsValid step (Reachable-IsValid r)
