-- ===== src/Projects/Members.antt =====
-- Roles, and what an invitation does to the members of a team.
use santokit.Base.{
  suc, ◌≡◌, ◌≢◌, refl, ◌⊎◌, inl, inr, Bool, true, false, ◌||◌, Option, none, some, List, [], ◌∷◌,
  arith, if◌then◌else◌, length, Text, lit, ◌==◌, eq_iff, eq_refl, lookup, lookup-insert,
  lookup-insert_self, ok, err, Error, team_not_found,
}
use santokit.Base.Strings.{trim_space, to_lower}
use santokit.Projects.{
  Member, Team, Service, normalize_role, has_user, is_member, same_member, put_member, invite,
  invite_member,
}

-- A normalised role is one of the three, or empty.
pub normalize_role_lem :
    (role : Text)
    → ((normalize_role role ≡ lit "owner")
        ⊎ ((normalize_role role ≡ lit "admin")
            ⊎ ((normalize_role role ≡ lit "member") ⊎ (normalize_role role ≡ []))))
unfolding normalize_role
normalize_role_lem role =
    let r = to_lower (trim_space role) in
    ground (arith, eq_iff r (lit "owner"), eq_iff r (lit "admin"), eq_iff r (lit "member"))

-- A role that is accepted, so that its normal form is not empty, has a normal form that is normalised
-- to itself.
pub normalize_role_idempotent :
    (role : Text)
    → normalize_role role ≢ []
    → normalize_role (normalize_role role) ≡ normalize_role role
normalize_role_idempotent role h = elim (normalize_role_lem role) [
  | inl e ↦ rw e (unfold normalize_role trim_space to_lower ◌==◌ in refl)
  | inr (inl e) ↦ rw e (unfold normalize_role trim_space to_lower ◌==◌ in refl)
  | inr (inr (inl e)) ↦ rw e (unfold normalize_role trim_space to_lower ◌==◌ in refl)
  | inr (inr (inr e)) ↦ absurd (h e)
]

has_user-put_member : (m : Member) (ms : List Member) → has_user m.user_id (put_member m ms) ≡ true
unfolding has_user put_member
has_user-put_member m [] = ground (arith, eq_refl m.user_id)
has_user-put_member m (x ∷ ms) = ground (arith, has_user-put_member m ms, eq_refl m.user_id)

-- Inviting by user alone, with no e-mail address, adds that user and removes nobody.
pub has_user-put_member_by_user :
    (m : Member) (ms : List Member) (v : Text)
    → m.email ≡ []
    → has_user v (put_member m ms) ≡ (m.user_id == v || has_user v ms)
unfolding has_user put_member
has_user-put_member_by_user m [] v h = refl
has_user-put_member_by_user m (x ∷ ms) v h =
    ground (
      arith,
      has_user-put_member_by_user m ms v,
      eq_iff x.user_id m.user_id,
      eq_iff x.email m.email,
    )

abbrev pub any_same : Member → List Member → Bool
any_same m [] = false
any_same m (x ∷ ms) = same_member x m || any_same m ms

-- An invitation replaces one entry where the user or the address is known, and otherwise adds one.
pub length-put_member :
    (m : Member) (ms : List Member)
    → length (put_member m ms) ≡ (if any_same m ms then length ms else suc (length ms))
unfolding put_member
length-put_member m [] = refl
length-put_member m (x ∷ ms) = ground (arith, length-put_member m ms)

-- An invitation that names another user with the e-mail address of the only member of a team, an
-- address that is not empty, takes that member's place: the user who stood there is a member no
-- more.
pub put_member_evicts :
    (u x email role : Text)
    → email ≢ []
    → u ≢ x
    → has_user u (
        put_member
          (record { user_id = x; email = email; role = role })
          (record { user_id = u; email = email; role = lit "owner" } ∷ []))
      ≡ false
unfolding has_user put_member
put_member_evicts u x [] role h n = absurd (h refl)
put_member_evicts u x (c ∷ email) role h n =
    ground (arith, eq_iff u x, eq_iff x u, eq_refl (c ∷ email))

invite_lem :
    (s : Service) (t : Text) (m m' : Member) (team : Option Team)
    → lookup t s.teams ≡ team
    → (invite s t m team).1 ≡ ok m'
    → (m' ≡ m) × (is_member (invite s t m team).0 t m.user_id ≡ true)
unfolding invite is_member
invite_lem s t m m' none e h = cc
invite_lem s t m m' (some team) e h =
    (cc, rw lookup-insert_self (has_user-put_member m team.members))

invite_elsewhere :
    (s : Service) (t : Text) (m : Member) (team : Option Team) (q v : Text)
    → t ≢ q
    → is_member (invite s t m team).0 q v ≡ is_member s q v
unfolding invite is_member
invite_elsewhere s t m none q v n = refl
invite_elsewhere s t m (some team) q v n =
    let x = record team { members = put_member m team.members } in
    ground (arith, lookup-insert t q x s.teams, eq_iff t q)

invite_stored :
    (s : Service) (t : Text) (m : Member) (team : Team)
    → lookup t (invite s t m (some team)).0.teams
      ≡ some (record team { members = put_member m team.members })
unfolding invite
invite_stored s t m team = lookup-insert_self t _ s.teams

found :
    (s : Service) (t : Text) (m m' : Member) (team : Option Team)
    → lookup t s.teams ≡ team
    → (invite s t m team).1 ≡ ok m'
    → (team' : Team) × (lookup t s.teams ≡ some team')
unfolding invite
found s t m m' none e h = absurd (let clash : err team_not_found ≡ ok m' = h in cc)
found s t m m' (some team) e h = (team, e)

invite_failed :
    (s : Service) (t : Text) (m : Member) (team : Option Team) (e : Error)
    → (invite s t m team).1 ≡ err e
    → (invite s t m team).0 ≡ s
unfolding invite
invite_failed s t m none e h = refl
invite_failed s t m (some team) e h = absurd (let clash : ok m ≡ err e = h in cc)

module _ (s : Service) (t user email role : Text) where
  abbrev member : Member
  member = record { user_id = user; email = email; role = normalize_role role }

  -- A successful invitation puts the member into the team that is stored.
  pub lookup-invite_member :
      (m : Member) (team : Team)
      → lookup t s.teams ≡ some team
      → (invite_member s t user email role).1 ≡ ok m
      → lookup t (invite_member s t user email role).0.teams
        ≡ some (record team { members = put_member member team.members })
  unfolding invite_member
  lookup-invite_member m team stored h = ground (arith, invite_stored s t member team)

  -- A successful invitation names a team that is stored.
  pub invite_member_found :
      (m : Member)
      → (invite_member s t user email role).1 ≡ ok m
      → (team : Team) × (lookup t s.teams ≡ some team)
  unfolding invite_member
  invite_member_found m h = found s t member m (lookup t s.teams) refl (ground (arith, h))

  -- An invitation that fails changes nothing.
  pub invite_member_failed :
      (e : Error)
      → (invite_member s t user email role).1 ≡ err e
      → (invite_member s t user email role).0 ≡ s
  unfolding invite_member
  invite_member_failed e h = ground (arith, invite_failed s t member (lookup t s.teams) e)

  -- A successful invitation returns the user and the address of the call with the normalised role,
  -- and makes the user a member of the team.
  pub invite_member_lem :
      (m : Member)
      → (invite_member s t user email role).1 ≡ ok m
      → (m.user_id ≡ user)
        × (m.email ≡ email)
        × (m.role ≡ normalize_role role)
        × (is_member (invite_member s t user email role).0 t user ≡ true)
  unfolding invite_member
  invite_member_lem m h = ground (
    arith,
    invite_lem s t (record { user_id = user; email = email; role = normalize_role role }) m
        (lookup t s.teams) refl,
  )

  -- An invitation changes the members of no other team.
  pub invite_member_elsewhere :
      (q v : Text) → t ≢ q → is_member (invite_member s t user email role).0 q v ≡ is_member s q v
  unfolding invite_member
  invite_member_elsewhere q v n = ground (
    arith,
    invite_elsewhere s t (record { user_id = user; email = email; role = normalize_role role })
        (lookup t s.teams) q v n,
  )
