-- ===== src/Projects/Creation.antt =====
-- Creating projects: what is stored, the keys, and the invariant of the service.
use mathlib.Core.Path.{subst}
use santokit.Base.{
  ◌*◌, ◌≡◌, refl, Bool, true, false, some, [], ◌∷◌, arith, length, is_some, Text, lit, lookup,
  insert, lookup-insert_self, Result, ok, err, Error,
}
use santokit.Base.Strings.Visible.{trim_space_visible}
use santokit.Base.Encoding.{hex}
use santokit.Projects.{
  Project, Service, IdSource, CreateEnv, blank, random_id, generate_master_key, new_project,
  choose_team, add_project, create_in, create_project, get_project,
}

length-hex : (s : Text) → length (hex s) ≡ 2 * length s
unfolding hex
length-hex [] = refl
length-hex (b ∷ s) = omega (arith, length-hex s)

-- A master key is 64 characters, the hexadecimal print of 32 random bytes.
pub length-generate_master_key :
    (key : Text) (k : Text)
    → length key ≡ 32
    → generate_master_key (some key) ≡ ok k
    → length k ≡ 64
unfolding generate_master_key
length-generate_master_key key k size e = ground (arith, length-hex key)

-- An identifier is never blank, so a created project can be asked for.
random_id_prj : (src : IdSource) → blank (random_id (lit "prj") src) ≡ false
unfolding random_id
random_id_prj src = trim_space_visible b'p' _ refl

ok_same : (p q : Project) → ok p ≡ ok q → p ≡ q
ok_same p q e = cc

module _ (env : CreateEnv) (s : Service) (owner name description : Text) where
  made : Text → Text → Project
  unfolding new_project
  made t key = new_project env owner name description t key

  get_made :
      (t key : Text)
      → get_project
          (record s { projects = insert (made t key).id (made t key) s.projects })
          (made t key).id
        ≡ ok (made t key)
  unfolding made get_project
  get_made t key = rw (random_id_prj env.project_source, lookup-insert_self)

  add_project_lem :
      (t : Text) (key : Result Text) (p : Project)
      → (add_project env s owner name description t key).1 ≡ ok p
      → (get_project (add_project env s owner name description t key).0 p.id ≡ ok p)
        × (p.owner_id ≡ owner)
        × (p.name ≡ name)
        × (p.description ≡ description)
        × (p.team_id ≡ t)
        × (key ≡ ok p.master_key)
  unfolding add_project made
  add_project_lem t (err e) p h = cc
  add_project_lem t (ok k) p h =
      subst
        (λ q.
          (get_project (record s { projects = insert (made t k).id (made t k) s.projects }) q.id
            ≡ ok q)
          × (q.owner_id ≡ owner)
          × (q.name ≡ name)
          × (q.description ≡ description)
          × (q.team_id ≡ t)
          × (◌≡◌ {A = Result Text} (ok k) (ok q.master_key)))
        (ok_same (made t k) p h) (get_made t k, refl, refl, refl, refl, refl)

module _ (env : CreateEnv) (owner name description : Text) where
  create_in_lem :
      (s' : Service) (t : Text) (known : Bool) (p : Project)
      → is_some (lookup t s'.teams) ≡ known
      → (create_in env owner name description (s', t)).1 ≡ ok p
      → (get_project (create_in env owner name description (s', t)).0 p.id ≡ ok p)
        × (p.owner_id ≡ owner)
        × (p.name ≡ name)
        × (p.description ≡ description)
        × (p.team_id ≡ t)
        × (generate_master_key env.key_bytes ≡ ok p.master_key)
  unfolding create_in
  create_in_lem s' t true p e =
      rw e (add_project_lem env s' owner name description t (generate_master_key env.key_bytes) p)
  create_in_lem s' t false p e = rw e (λ h. absurd (err_ok h))
    where
      err_ok : {x : Error} → err x ≡ ok p → ⊥
      err_ok h = cc

  create_project_step :
      (s : Service) (team : Text) (p : Project)
      → (create_project env s owner name description team).1 ≡ ok p
      → create_project env s owner name description team
        ≡ create_in env owner name description (choose_team env s owner team)
  unfolding create_project
  create_project_step s team p h = ground (arith, h)

  -- A created project can be read back under its identifier, as it was returned: it has the owner,
  -- the name and the description of the call, the team that was named or else the owner's personal
  -- team, and a master key made from the random bytes.
  pub get_project-create_project :
      (s : Service) (team : Text) (p : Project)
      → (create_project env s owner name description team).1 ≡ ok p
      → (get_project (create_project env s owner name description team).0 p.id ≡ ok p)
        × (p.owner_id ≡ owner)
        × (p.name ≡ name)
        × (p.description ≡ description)
        × (p.team_id ≡ (choose_team env s owner team).1)
        × (generate_master_key env.key_bytes ≡ ok p.master_key)
  get_project-create_project s team p h =
      let step = create_project_step s team p h in
      rw step (
        create_in_lem (choose_team env s owner team).0 (choose_team env s owner team).1 _ p refl
          (rw step at h))
