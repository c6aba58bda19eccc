-- ===== src/Vault.antt =====
-- The vault of packages/hub/internal/vault/vault.go: secrets, encrypted at rest, over a repository.
pub mod Memory
pub mod Laws
pub mod Tests
use santokit.Base.{
  ℕ, ◌+◌, ◌<◌, ◌≡◌, ◌++◌, Bool, ◌&&◌, ◌||◌, not, Option, some, List, if◌then◌else◌, ltb, eqb,
  length, take, drop, Text, lit, ◌==◌, contains, is_ok, IsBytes, Result, ok, err, ◌>>=◌, ◌>>◌,
  fail_if, or_error, secret_not_found, invalid_key, key_size, no_randomness, corrupt_input,
  ciphertext_too_short, message_authentication,
}
use santokit.Base.Encoding.{std, encode, decode}

pub record Secret : Type 0 where
  pub key : Text
  pub encrypted_val : Text
  pub project_id : Text

-- The interface `Repository`. An operation that fails leaves the store as it was.
pub record Repository : Type 1 where
  pub Store : Type 0
  pub get : Store → Text → Text → Result Secret
  pub set : Store → Secret → Result Store
  pub delete : Store → Text → Text → Result Store
  pub list : Store → Text → Result (List Text)

-- What the vault relies on: the repository is a map from a project and a key to a secret.
pub record IsKeyed (r : Repository) : Type 0 where
  pub get-set :
      (s : r.Store) (x : Secret) (s' : r.Store) (p k : Text)
      → r.set s x ≡ ok s'
      → r.get s' p k ≡ (if x.project_id == p && x.key == k then ok x else r.get s p k)
  pub get-delete :
      (s : r.Store) (q j : Text) (s' : r.Store) (p k : Text)
      → r.delete s q j ≡ ok s'
      → r.get s' p k ≡ (if q == p && j == k then err secret_not_found else r.get s p k)
  pub listed :
      (s : r.Store) (p : Text) (ks : List Text) (k : Text)
      → r.list s p ≡ ok ks
      → contains k ks ≡ is_ok (r.get s p k)

-- AES in Galois counter mode (`crypto/aes`, `crypto/cipher`): `seal key nonce plaintext` and
-- `open_ key nonce ciphertext`, whose result is `none` when authentication fails.
pub record Gcm : Type 0 where
  pub seal : Text → Text → Text → Text
  pub open_ : Text → Text → Text → Option Text
  pub open-seal : (k n p : Text) → open_ k n (seal k n p) ≡ some p
  pub seal-IsBytes : (k n p : Text) → IsBytes p → IsBytes (seal k n p)

-- `gcm.NonceSize()`
abbrev pub nonce_size : ℕ
nonce_size = 12

pub record Service : Type 0 where
  pub encryption_key : Text

-- `NewService`
unfoldable pub new_service : Text → Result Service
new_service key =
    if eqb (length key) 32 then ok (record { encryption_key = key }) else err invalid_key

-- `aes.NewCipher` takes keys of these sizes, and no others.
abbrev pub new_cipher : Text → Result (Unit {0})
new_cipher key =
    fail_if (not (eqb (length key) 16 || eqb (length key) 24 || eqb (length key) 32)) key_size

-- The random bytes that `io.ReadFull(rand.Reader, nonce)` reads are an argument, `none` if it fails.
module _ (gcm : Gcm) where
  unfoldable pub encrypt : Service → Option Text → Text → Result Text
  encrypt s random plaintext = do
    new_cipher s.encryption_key
    nonce ← or_error random no_randomness
    ok (nonce ++ gcm.seal s.encryption_key nonce plaintext)

  unfoldable pub decrypt : Service → Text → Result Text
  decrypt s ciphertext = do
    new_cipher s.encryption_key
    fail_if (ltb (length ciphertext) nonce_size) ciphertext_too_short
    or_error (gcm.open_ s.encryption_key (take nonce_size ciphertext) (drop nonce_size ciphertext))
        message_authentication

module _ (gcm : Gcm) (r : Repository) where
  -- `Set`
  unfoldable pub set : Service → Option Text → r.Store → Text → Text → Text → Result r.Store
  set s random store project_id key value = do
    encrypted ← encrypt gcm s random value
    r.set store
        (record { key = key; encrypted_val = encode std encrypted; project_id = project_id })

  -- `Get`
  unfoldable pub get : Service → r.Store → Text → Text → Result Text
  get s store project_id key = do
    secret ← r.get store project_id key
    encrypted ← or_error (decode std secret.encrypted_val) corrupt_input
    decrypt gcm s encrypted

  -- `Delete`
  unfoldable pub delete : r.Store → Text → Text → Result r.Store
  delete store project_id key = r.delete store project_id key

  -- `List`
  unfoldable pub list : r.Store → Text → Result (List Text)
  list store project_id = r.list store project_id

  -- `ReEncryptForEdge`
  unfoldable pub re_encrypt_for_edge :
      Service → Option Text → r.Store → Text → Text → Text → Result Text
  re_encrypt_for_edge s random store project_id key edge_key = do
    value ← get s store project_id key
    new_cipher edge_key
    nonce ← or_error random no_randomness
    ok (nonce ++ gcm.seal edge_key nonce value)
