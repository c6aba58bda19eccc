-- ===== src/Vault/Memory.antt =====
-- The vault repository of packages/hub/internal/store/memory/vault.go: a map of maps.
use santokit.Base.{
  ◌≡◌, refl, inl, inr, Bool, true, false, ◌&&◌, Option, none, some, List, [], arith, if◌then◌else◌,
  Text, ◌==◌, eq_iff, eq_refl, Option-cases, contains, is_ok, is_some, get_or, Map, lookup, insert,
  IsUnique, lookup-insert, lookup-insert_self, lookup-nil, lookup-delete, Values, insert-Values,
  lookup-Values, contains-keys, insert-IsUnique, delete-IsUnique, Result, ok, err, secret_not_found,
}
use santokit.Base
use santokit.Vault.{Secret, Repository, IsKeyed}

-- `secrets`: the project, then the key.
abbrev pub Secrets : Type 0
Secrets = Map (Map Secret)

unfoldable pub set : Secrets → Secret → Secrets
set s secret =
    let made = if is_some (lookup secret.project_id s) then s else insert secret.project_id [] s in
    insert secret.project_id (insert secret.key secret (get_or (lookup secret.project_id made) []))
      made

unfoldable pub get : Secrets → Text → Text → Result Secret
get s project_id key = elim (lookup project_id s) [
  | none ↦ err secret_not_found
  | some m ↦ elim (lookup key m) [ none ↦ err secret_not_found | some secret ↦ ok secret ]
]

unfoldable pub delete : Secrets → Text → Text → Secrets
delete s project_id key = elim (lookup project_id s) [
  | none ↦ s
  | some m ↦ insert project_id (Base.delete key m) s
]

unfoldable pub list : Secrets → Text → List Text
list s project_id = elim (lookup project_id s) [ none ↦ [] | some m ↦ Base.keys m ]

abbrev pub repository : Repository
repository = record {
  Store = Secrets;
  get = get;
  set = λ s x. ok (set s x);
  delete = λ s p k. ok (delete s p k);
  list = λ s p. ok (list s p);
}

module _ (s : Secrets) (x : Secret) where
  set_missing :
      lookup x.project_id s ≡ none
      → set s x
        ≡ insert x.project_id (insert x.key x []) (insert {V = Map Secret} x.project_id [] s)
  unfolding set
  set_missing e = rw e (rw lookup-insert_self)

  set_found :
      (m : Map Secret)
      → lookup x.project_id s ≡ some m
      → set s x ≡ insert x.project_id (insert x.key x m) s
  unfolding set
  set_found m e = rw e (rw e)

get-set :
    (s : Secrets) (x : Secret) (p k : Text)
    → get (set s x) p k ≡ (if x.project_id == p && x.key == k then ok x else get s p k)
get-set s x p k = elim (Option-cases (lookup x.project_id s)) [
  | inl missing ↦ rw (set_missing s x missing) (
      unfold get in
      ground (
        arith,
        missing,
        eq_iff x.project_id p,
        lookup-insert x.project_id p (insert x.key x [])
            (insert {V = Map Secret} x.project_id [] s),
        lookup-insert {V = Map Secret} x.project_id p [] s,
        lookup-insert x.key k x [],
        lookup-nil {V = Secret} k [] refl,
      ))
  | inr (m, found) ↦ rw (set_found s x m found) (
      unfold get in
      ground (
        arith,
        found,
        eq_iff x.project_id p,
        lookup-insert x.project_id p (insert x.key x m) s,
        lookup-insert x.key k x m,
      ))
]

module _ (s : Secrets) (q j : Text) where
  delete_missing : lookup q s ≡ none → delete s q j ≡ s
  unfolding delete
  delete_missing e = ground (arith, e)

  delete_found :
      (m : Map Secret) → lookup q s ≡ some m → delete s q j ≡ insert q (Base.delete j m) s
  unfolding delete
  delete_found m e = ground (arith, e)

get-delete :
    (s : Secrets) (q j p k : Text)
    → get (delete s q j) p k ≡ (if q == p && j == k then err secret_not_found else get s p k)
get-delete s q j p k = elim (Option-cases (lookup q s)) [
  | inl missing ↦
      rw (delete_missing s q j missing) (unfold get in ground (arith, missing, eq_iff q p))
  | inr (m, found) ↦ rw (delete_found s q j m found) (
      unfold get in
      ground (arith, found, eq_iff q p, lookup-insert q p (Base.delete j m) s, lookup-delete j k m))
]

listed : (s : Secrets) (p : Text) (k : Text) → contains k (list s p) ≡ is_ok (get s p k)
unfolding get list contains
listed s p k = elim (Option-cases (lookup p s)) [
  | inl missing ↦ ground (arith, missing)
  | inr (m, found) ↦ ground (arith, found, contains-keys k m)
]

-- The map of maps is a repository as the vault needs it.
pub repository-IsKeyed : IsKeyed repository
repository-IsKeyed = record {
  get-set = λ s x s' p k e. ground (arith, e, get-set s x p k);
  get-delete = λ s q j s' p k e. ground (arith, get-delete s q j p k);
  listed = λ s p ks k e. ground (arith, listed s p k);
}

-- Go's maps hold a key once, on both levels.
abbrev pub IsWellFormed : Secrets → Type 0
IsWellFormed s = IsUnique s × Values IsUnique s

-- The two levels after a write of a project's map.
project-IsWellFormed :
    (s : Secrets) (p : Text) (m : Map Secret)
    → IsWellFormed s
    → IsUnique m
    → IsWellFormed (insert p m s)
project-IsWellFormed s p m (h, hs) hm =
    (insert-IsUnique p m s h, insert-Values IsUnique p m s hm hs)

module _ (s : Secrets) (h : IsWellFormed s) where
  pub set-IsWellFormed : (x : Secret) → IsWellFormed (set s x)
  set-IsWellFormed x = elim (Option-cases (lookup x.project_id s)) [
    | inl missing ↦ rw (set_missing s x missing) (
        project-IsWellFormed _ x.project_id _ (project-IsWellFormed s x.project_id [] h tt)
          (insert-IsUnique x.key x [] tt))
    | inr (m, found) ↦ rw (set_found s x m found) (
        project-IsWellFormed s x.project_id _ h
          (insert-IsUnique x.key x m (lookup-Values IsUnique x.project_id m s h.1 found)))
  ]

  pub delete-IsWellFormed : (p k : Text) → IsWellFormed (delete s p k)
  delete-IsWellFormed p k = elim (Option-cases (lookup p s)) [
    | inl missing ↦ rw (delete_missing s p k missing) h
    | inr (m, found) ↦ rw (delete_found s p k m found) (
        project-IsWellFormed s p _ h (delete-IsUnique k m (lookup-Values IsUnique p m s h.1 found)))
  ]
