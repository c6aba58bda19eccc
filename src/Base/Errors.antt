-- ===== src/Base/Errors.antt =====
-- Go's `(value, error)` results. An error is named for its message; `external` is the error of a
-- call that leaves the program.
use mathlib.Core.Path.{◌≡◌, refl}
use mathlib.Core.Bool.{Bool, true, false}
use mathlib.Core.Option.{Option, none, some}
use santokit.Base.Bytes.{Text}

pub data Error : Type 0 where
  external : Text → Error
  secret_not_found invalid_key key_size no_randomness corrupt_input ciphertext_too_short : Error
  message_authentication : Error
  manifest_not_found version_not_found : Error
  project_id_required project_not_found : Error
  no_rows constraint_failed marshal_failed unmarshal_failed : Error
  schemas_required no_planned_schemas no_planned_schemas_to_apply schema_empty : Error
  schema_state_not_found inspect_failed eval_failed diff_failed plan_failed apply_failed : Error
  project_name_required owner_id_required team_not_found master_key_failed : Error
  team_name_required team_id_required user_id_or_email_required invalid_role no_master_key : Error
  user_id_required : Error
  slice_out_of_range yaml_failed namespace_required name_required no_content two_contents : Error
  invalid_access invalid_param file_unreadable two_sources missing_content : Error
  request_failed hub_error undecodable profile_not_found no_current_profile : Error
  unknown_config_type unsupported_url project_id_unset kv_status : Error
  tx_done no_token login_timed_out open_failed ping_failed migrate_failed : Error

pub data Result {ℓ} (A : Type ℓ) : Type ℓ where
  ok : A → Result A
  err : Error → Result A

-- Return the error where the test holds.
abbrev pub fail_if : Bool → Error → Result (Unit {0})
fail_if true e = err e
fail_if false e = ok tt

abbrev pub or_error {ℓ} : {A : Type ℓ} → Option A → Error → Result A
or_error none e = err e
or_error (some a) e = ok a

abbrev pub is_ok {ℓ} : {A : Type ℓ} → Result A → Bool
is_ok (ok _) = true
is_ok (err _) = false

module _ {ℓ κ} {A : Type ℓ} {B : Type κ} where
  infixl 5 ◌>>=◌
  -- Go on with the value, or return the error at once.
  abbrev pub ◌>>=◌ : Result A → (A → Result B) → Result B
  err failed >>= next = err failed
  ok value >>= next = next value

  pub >>=-eq-ok :
      (first : Result A) (next : A → Result B) {b : B}
      → (first >>= next) ≡ ok b
      → (value : A) × (first ≡ ok value) × (next value ≡ ok b)
  >>=-eq-ok (err failed) next h = cc
  >>=-eq-ok (ok value) next h = (value, refl, h)

infixl 5 ◌>>◌
abbrev pub ◌>>◌ {ℓ} : {B : Type ℓ} → Result (Unit {0}) → Result B → Result B
err failed >> next = err failed
ok _ >> next = next

pub >>-eq-ok {ℓ} :
    {B : Type ℓ} (first : Result (Unit {0})) (next : Result B) {b : B}
    → (first >> next) ≡ ok b
    → (first ≡ ok tt) × (next ≡ ok b)
>>-eq-ok (err failed) next h = cc
>>-eq-ok (ok _) next h = (refl, h)
