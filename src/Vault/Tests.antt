-- ===== src/Vault/Tests.antt =====
-- The vault over its memory repository, and a stand-in for the cipher that marks a ciphertext with
-- the size of its key.
use santokit.Base.{
  ℕ, zero, ◌≡◌, refl, inl, inr, ◌%◌, ◌<◌, ◌↔◌, Bool, true, ◌&&◌, Option, none, some, List, [], ◌∷◌,
  arith, if◌then◌else◌, eqb, length, Text, lit, ◌==◌, contains, is_ok, IsBytes, Map, Result, ok,
  err, ◌>>=◌, secret_not_found, lookup, insert, keys,
}
use santokit.Base
use santokit.Base.Encoding.{encode, decode}
use santokit.Vault
use santokit.Vault.{
  Gcm, Secret, Service, new_service, encrypt, decrypt, re_encrypt_for_edge, IsKeyed,
}
use santokit.Vault.Memory
use santokit.Vault.Memory.{Secrets, repository, repository-IsKeyed, set-IsWellFormed, IsWellFormed}
use santokit.Vault.Laws.{get-set, decrypt-re_encrypt_for_edge}

abbrev pub mark : Text → Text → Text → Text
mark k n p = (length k % 256) ∷ p

abbrev pub unmark : Text → Text → Text → Option Text
unmark k n [] = none
unmark k n (c ∷ p) = if eqb c (length k % 256) then some p else none

pub unmark-mark : (k n p : Text) → unmark k n (mark k n p) ≡ some p
unmark-mark k n p = ground arith

abbrev pub toy : Gcm
toy = record {
  seal = mark;
  open_ = unmark;
  open-seal = unmark-mark;
  seal-IsBytes = λ k n p h. (omega arith, h);
}

abbrev pub service : Service
service = record { encryption_key = lit "32-byte-key-for-aes-256-gcm!!!!!" }

abbrev pub nonce : Text
nonce = lit "twelve bytes"

abbrev stored : Secrets
stored =
    (
      lit "shop",
      (
        lit "url",
        record {
          key = lit "url";
          encrypted_val = lit "dHdlbHZlIGJ5dGVzIHBnOi8v";
          project_id = lit "shop";
        },
      )
          ∷ [],
    )
    ∷ []

vault : Unit {0}
unfolding Memory.set Memory.get Memory.delete Memory.list Vault.set Vault.get Vault.delete
    Vault.list encrypt decrypt encode decode lookup insert keys ◌==◌ Base.delete contains
    new_service
vault = tt

set_test :
    Vault.set toy repository service (some nonce) [] (lit "shop") (lit "url") (lit "pg://")
    ≡ ok stored
unfolding vault
set_test = refl

get_test : Vault.get toy repository service stored (lit "shop") (lit "url") ≡ ok (lit "pg://")
unfolding vault
get_test = refl

get-set_example :
    Vault.get toy repository service stored (lit "shop") (lit "url") ≡ ok (lit "pg://")
unfolding vault
get-set_example =
    get-set toy repository repository-IsKeyed service (inr (inr refl)) nonce [] stored (lit "shop")
      (lit "url") (lit "pg://") (lit "shop") (lit "url") (refl, omega arith) (omega arith) set_test

abbrev emptied : Secrets
emptied = (lit "shop", []) ∷ []

delete_test : Vault.delete toy repository stored (lit "shop") (lit "url") ≡ ok emptied
unfolding vault
delete_test = refl

abbrev edge_key : Text
edge_key = lit "0123456789abcdef"

decrypt-re_encrypt_for_edge_example :
    (re_encrypt_for_edge toy repository service
        (some nonce)
        stored
        (lit "shop")
        (lit "url")
        edge_key
      >>= decrypt toy (record { encryption_key = edge_key }))
    ≡ ok (lit "pg://")
decrypt-re_encrypt_for_edge_example =
    decrypt-re_encrypt_for_edge toy repository repository-IsKeyed service (inr (inr refl)) nonce
      stored (lit "shop") (lit "url") edge_key (lit "pg://") (inl refl) (refl, omega arith) get_test
