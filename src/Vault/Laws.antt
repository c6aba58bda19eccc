-- ===== src/Vault/Laws.antt =====
-- What the vault promises over any repository that is a map: secrets are read back as they were
-- written, under the project's key and, once re-encrypted, under the edge key.
use santokit.Base.{
  ◌≡◌, sym, ◌++◌, ◌⊎◌, inl, inr, ◌↔◌, Bool-cases, true, ◌&&◌, some, List, arith, if◌then◌else◌,
  length, take-append, drop-append, length-append, All-append, Text, ◌==◌, eq_iff, eq_refl, ◌∙◌,
  contains, IsBytes, ok, err, ◌>>=◌, secret_not_found,
}
use santokit.Base.Encoding.{std, encode}
use santokit.Base.Encoding.Laws.{decode-encode}
use santokit.Vault
use santokit.Vault.{
  Secret, Repository, IsKeyed, Gcm, Service, nonce_size, new_service, new_cipher, encrypt, decrypt,
  re_encrypt_for_edge,
}

-- A key that AES takes.
abbrev pub IsKey : Text → Type 0
IsKey k = (length k ≡ 16) ⊎ ((length k ≡ 24) ⊎ (length k ≡ 32))

abbrev pub IsNonce : Text → Type 0
IsNonce n = (length n ≡ nonce_size) × IsBytes n

-- A service is made exactly from a key of 32 bytes, and keeps that key.
pub new_service_iff :
    (key : Text) (s : Service)
    → (new_service key ≡ ok s) ↔ ((length key ≡ 32) × (s.encryption_key ≡ key))
unfolding new_service
new_service_iff key s = ground arith

new_cipher_ok : (k : Text) → IsKey k → new_cipher k ≡ ok tt
new_cipher_ok k h = ground arith

module _ (gcm : Gcm) (s : Service) (valid : IsKey s.encryption_key) where
  encrypt_lem : (n p : Text) → encrypt gcm s (some n) p ≡ ok (n ++ gcm.seal s.encryption_key n p)
  unfolding encrypt
  encrypt_lem n p = rw (new_cipher_ok s.encryption_key valid)

  -- Decrypting what was encrypted with a nonce of the right size gives the plaintext back.
  pub decrypt-encrypt :
      (n p : Text) → IsNonce n → (encrypt gcm s (some n) p >>= decrypt gcm s) ≡ ok p
  unfolding decrypt
  decrypt-encrypt n p (size, _) =
      let c = gcm.seal s.encryption_key n p in
      rw
        (
          encrypt_lem n p,
          new_cipher_ok s.encryption_key valid,
          ← size,
          take-append n c,
          drop-append n c,
          gcm.open-seal s.encryption_key n p,
        )
        (ground (arith, length-append n c))

module _ (gcm : Gcm) (r : Repository) (keyed : IsKeyed r) (s : Service)
    (valid : IsKey s.encryption_key) where
  sealed : Text → Text → Text → Text → Secret
  sealed n p k v = record {
    key = k;
    encrypted_val = encode std (n ++ gcm.seal s.encryption_key n v);
    project_id = p;
  }

  set_lem :
      (n : Text) (store : r.Store) (p k v : Text)
      → Vault.set gcm r s (some n) store p k v ≡ r.set store (sealed n p k v)
  unfolding Vault.set sealed
  set_lem n store p k v = rw (encrypt_lem gcm s valid n v)

  get_of_sealed :
      (n : Text) (store : r.Store) (p k v : Text)
      → IsNonce n
      → IsBytes v
      → r.get store p k ≡ ok (sealed n p k v)
      → Vault.get gcm r s store p k ≡ ok v
  unfolding Vault.get sealed
  get_of_sealed n store p k v (size, bytes) hv e =
      let c = n ++ gcm.seal s.encryption_key n v in
      rw
        (
          e,
          decode-encode std c (
              All-append _ n (gcm.seal s.encryption_key n v) bytes
                (gcm.seal-IsBytes s.encryption_key n v hv)),
        )
        (cc (decrypt-encrypt gcm s valid n v (size, bytes), encrypt_lem gcm s valid n v))

  get_congr :
      (a b : r.Store) (p k : Text)
      → r.get a p k ≡ r.get b p k
      → Vault.get gcm r s a p k ≡ Vault.get gcm r s b p k
  unfolding Vault.get
  get_congr a b p k e = rw e

  stored :
      (n : Text) (store store' : r.Store) (p k v q j : Text)
      → Vault.set gcm r s (some n) store p k v ≡ ok store'
      → r.get store' q j ≡ (if p == q && k == j then ok (sealed n p k v) else r.get store q j)
  stored n store store' p k v q j e =
      unfold sealed in
      keyed.get-set store (sealed n p k v) store' q j (sym (set_lem n store p k v) ∙ e)

  same_place : (p k q j : Text) → (p == q && k == j) ≡ true → (p ≡ q) × (k ≡ j)
  same_place p k q j h = ground (arith, eq_iff p q, eq_iff k j)

  -- Over a repository that is a map, after a successful `Set` of a value of bytes under a nonce of
  -- the right size and a key of a size that AES takes, `Get` of that project and key returns the
  -- value, and `Get` of any other project or key returns what it returned before.
  pub get-set :
      (n : Text) (store store' : r.Store) (p k v q j : Text)
      → IsNonce n
      → IsBytes v
      → Vault.set gcm r s (some n) store p k v ≡ ok store'
      → Vault.get gcm r s store' q j
        ≡ (if p == q && k == j then ok v else Vault.get gcm r s store q j)
  get-set n store store' p k v q j nonce bytes e = elim (Bool-cases (p == q && k == j)) [
    | inl same ↦
        let (eq_p, eq_k) = same_place p k q j same in
        let found = stored n store store' p k v p k e in
        rw (same, ← eq_p, ← eq_k)
          (get_of_sealed n store' p k v nonce bytes (rw (eq_refl p, eq_refl k) at found))
    | inr other ↦
        rw other (get_congr store' store q j (rw other at (stored n store store' p k v q j e)))
  ]

  -- Over a repository that is a map, after a successful `Delete` the secret is not found, and
  -- every other secret reads as before.
  pub get-delete :
      (store store' : r.Store) (p k q j : Text)
      → Vault.delete gcm r store p k ≡ ok store'
      → Vault.get gcm r s store' q j
        ≡ (if p == q && k == j then err secret_not_found else Vault.get gcm r s store q j)
  unfolding Vault.delete
  get-delete store store' p k q j e =
      let read = keyed.get-delete store p k store' q j e in
      elim (Bool-cases (p == q && k == j)) [
        | inl same ↦ rw same (unfold Vault.get in rw (rw same at read))
        | inr other ↦ rw other (get_congr store' store q j (rw other at read))
      ]

  -- Over a repository that is a map, after a successful `Set` under a key of a size that AES takes
  -- the list of a project's keys, where it can be read, holds the key that was set for that
  -- project, and otherwise what it held before.
  pub list-set :
      (n : Text) (store store' : r.Store) (p k v q j : Text) (before after : List Text)
      → Vault.set gcm r s (some n) store p k v ≡ ok store'
      → Vault.list gcm r store q ≡ ok before
      → Vault.list gcm r store' q ≡ ok after
      → contains j after ≡ (if p == q && k == j then true else contains j before)
  unfolding Vault.list
  list-set n store store' p k v q j before after e b a = ground (
    arith,
    keyed.listed store q before j b,
    keyed.listed store' q after j a,
    stored n store store' p k v q j e,
  )

  -- Under an edge key of a size that AES takes and a nonce of the right size, what
  -- `ReEncryptForEdge` returns opens under the edge key to the value that `Get` returns.
  pub decrypt-re_encrypt_for_edge :
      (n : Text) (store : r.Store) (p k edge_key v : Text)
      → IsKey edge_key
      → IsNonce n
      → Vault.get gcm r s store p k ≡ ok v
      → (re_encrypt_for_edge gcm r s (some n) store p k edge_key
          >>= decrypt gcm (record { encryption_key = edge_key }))
        ≡ ok v
  unfolding re_encrypt_for_edge
  decrypt-re_encrypt_for_edge n store p k edge_key v edge nonce e =
      let edge_service : Service = record { encryption_key = edge_key } in
      rw (e, new_cipher_ok edge_key edge)
        (cc
          (decrypt-encrypt gcm edge_service edge n v nonce, encrypt_lem gcm edge_service edge n v))
