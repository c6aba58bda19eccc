-- ===== src/Api/Hub/Handlers/Secrets.antt =====
-- The handlers of secrets over a vault repository that is a map.
use santokit.Base.{
  ◌≡◌, refl, ◌∙◌, inl, inr, Bool-cases, true, false, ◌||◌, some, List, arith, is_ok, contains, Text,
  eq_refl, Result, ok, err, >>=-eq-ok,
}
use santokit.Base.Strings.{trim_space}
use santokit.Base.Encoding.{encode, std}
use santokit.Vault.{Secret, IsKeyed, encrypt}
use santokit.Vault
use santokit.Api.Token.{blank}
use santokit.Api.Http.{text, failure, secret_keys}
use santokit.Api.Hub.{Deps, Hub, Request}
use santokit.Api.Hub.Handlers.{
  answer, stored, handle_list_secrets, handle_set_secret, handle_delete_secret,
}

module _ (d : Deps) (keyed : IsKeyed d.vaults) (h : Hub d) (r : Request) where
  abbrev p : Text
  p = trim_space r.project_header

  listed_keys :
      (header : Text) (keys : List Text) (h' : Hub d)
      → (handle_list_secrets d h' header).body ≡ secret_keys keys
      → d.vaults.list h'.secrets (trim_space header) ≡ ok keys
  unfolding handle_list_secrets Vault.list
  listed_keys header keys h' body = elim (Bool-cases (blank header)) [
    | inl missing ↦ absurd (no_keys _ (rw missing at body))
    | inr given ↦ in_answer (d.vaults.list h'.secrets (trim_space header)) (rw given at body)
  ]
    where
      no_keys : (message : Text) → text message ≡ secret_keys keys → ⊥
      no_keys message e = cc

      in_answer :
          (x : Result (List Text))
          → (answer 500 secret_keys x).body ≡ secret_keys keys
          → x ≡ ok keys
      in_answer (ok ks) body =
          unfold answer in (let same : secret_keys ks ≡ secret_keys keys = body in cc)
      in_answer (err e) body =
          absurd (unfold answer in (let clash : failure e ≡ secret_keys keys = body in cc))

  -- What was set is in the list, and what was deleted is not.
  set_found :
      (k v : Text) (store : d.vaults.Store)
      → Vault.set d.gcm d.vaults h.vault r.nonce h.secrets p k v ≡ ok store
      → is_ok (d.vaults.get store p k) ≡ true
  unfolding Vault.set
  set_found k v store e =
      let (encrypted, _, e') = >>=-eq-ok (encrypt d.gcm h.vault r.nonce v) _ e in
      rw
        (
          keyed.get-set h.secrets
              (record { key = k; encrypted_val = encode std encrypted; project_id = p }) store p k
              e',
          eq_refl p,
          eq_refl k,
        )
        refl

  found_after_set :
      (k v : Text)
      → (handle_set_secret d h r (some (k, v))).1.status ≡ 200
      → is_ok (d.vaults.get (handle_set_secret d h r (some (k, v))).0.secrets p k) ≡ true
  unfolding handle_set_secret
  found_after_set k v good = elim (Bool-cases (blank r.project_header)) [
    | inl missing ↦ absurd (omega (arith, rw missing at good))
    | inr given ↦ elim (Bool-cases (blank k || blank v)) [
      | inl nothing ↦ absurd (omega (arith, rw (given, nothing) at good))
      | inr something ↦ rw (given, something) (by_result _ refl (rw (given, something) at good))
    ]
  ]
    where
      by_result :
          (x : Result d.vaults.Store)
          → Vault.set d.gcm d.vaults h.vault r.nonce h.secrets p k v ≡ x
          → (stored d h (λ secrets. record h { secrets = secrets }) x).1.status ≡ 200
          → is_ok (
              d.vaults.get (stored d h (λ secrets. record h { secrets = secrets }) x).0.secrets p k)
            ≡ true
      by_result (ok store) e good = unfold stored in set_found k v store e
      by_result (err failed) e good = absurd (unfold stored in omega (arith, good))

  gone_after_delete :
      (k : Text)
      → (handle_delete_secret d h r k).1.status ≡ 200
      → is_ok (d.vaults.get (handle_delete_secret d h r k).0.secrets p k) ≡ false
  unfolding handle_delete_secret Vault.delete
  gone_after_delete k good = elim (Bool-cases (blank r.project_header)) [
    | inl missing ↦ absurd (omega (arith, rw missing at good))
    | inr given ↦ rw given (by_result _ refl (rw given at good))
  ]
    where
      by_result :
          (x : Result d.vaults.Store)
          → d.vaults.delete h.secrets p k ≡ x
          → (stored d h (λ secrets. record h { secrets = secrets }) x).1.status ≡ 200
          → is_ok (
              d.vaults.get (stored d h (λ secrets. record h { secrets = secrets }) x).0.secrets p k)
            ≡ false
      by_result (ok store) e good =
          unfold stored in
          rw (keyed.get-delete h.secrets p k store p k e, eq_refl p, eq_refl k) refl
      by_result (err failed) e good = absurd (unfold stored in omega (arith, good))

  pub list-set_secret :
      (k v : Text) (keys : List Text)
      → (handle_set_secret d h r (some (k, v))).1.status ≡ 200
      → (handle_list_secrets d (handle_set_secret d h r (some (k, v))).0 r.project_header).body
        ≡ secret_keys keys
      → contains k keys ≡ true
  list-set_secret k v keys good body =
      keyed.listed _ p keys k (listed_keys r.project_header keys _ body) ∙ found_after_set k v good

  pub list-delete_secret :
      (k : Text) (keys : List Text)
      → (handle_delete_secret d h r k).1.status ≡ 200
      → (handle_list_secrets d (handle_delete_secret d h r k).0 r.project_header).body
        ≡ secret_keys keys
      → contains k keys ≡ false
  list-delete_secret k keys good body =
      keyed.listed _ p keys k (listed_keys r.project_header keys _ body) ∙ gone_after_delete k good
