-- ===== src/Api/Token.antt =====
-- The tokens of packages/hub/api/router.go: `issueToken`, `signToken`, `verifyToken` and the parsing
-- of a token's payload.
pub mod Laws
pub mod Claims
use santokit.Base.{
  ℕ, ◌≡◌, ◌≤◌, ◌^◌, ◌++◌, ◌/◌, Bool, true, false, not, ◌&&◌, Option, none, some, List, [], ◌∷◌,
  if◌then◌else◌, is_empty, Text, lit, ◌==◌, Map, lookup, Values, IsBytes, Result, ok, err,
  user_id_required,
}
use santokit.Base.Int.{ℤ, pos, pos_part, neg_part, ◌+ℤ◌, ltb_ℤ, floor_div}
use santokit.Base.Json.{Json, str, num}
use santokit.Base.Strings.{trim_space, split}
use santokit.Base.Encoding.{raw_url, encode, decode}

abbrev pub blank : Text → Bool
blank s = is_empty (trim_space s)

-- `crypto/hmac` over SHA-256, and `encoding/json` at the payload of a token.
pub record Codec : Type 1 where
  pub hmac_sha256 : Text → Text → Text
  pub hmac-IsBytes : (key input : Text) → IsBytes (hmac_sha256 key input)
  pub marshal : Map Json → Text
  pub marshal-IsBytes : (m : Map Json) → IsBytes (marshal m)
  pub unmarshal : Text → Option (Map Json)
  -- the texts that are valid UTF-8
  pub IsUtf8 : Text → Type 0

-- A value that JSON carries unchanged: valid text, or an integer that a float64 holds.
abbrev pub IsCarried : ((Text → Type 0)) → Json → Type 0
IsCarried is_utf8 (str s) = is_utf8 s
IsCarried is_utf8 (num z) = (pos_part z ≤ 2 ^ 53) × (neg_part z ≤ 2 ^ 53)
IsCarried is_utf8 _ = ⊥

-- What the API relies on: such a payload is read back with the value of every key.
pub record Carries (codec : Codec) : Type 0 where
  pub unmarshal-marshal :
      (m : Map Json)
      → Values (IsCarried codec.IsUtf8) m
      → (m' : Map Json) × (codec.unmarshal (codec.marshal m) ≡ some m')
        × ((k : Text) → lookup k m' ≡ lookup k m)

-- nanoseconds in a second
abbrev pub second : ℕ
second = 1000000000

-- `json.Marshal` of the header
abbrev pub header_json : Text
header_json = lit "{\"alg\":\"HS256\",\"typ\":\"JWT\"}"

abbrev email_claim : Text → Map Json
email_claim email = if blank email then [] else (lit "email", str email) ∷ []

pub payload_of : Text → Text → Text → ℤ → ℤ → Map Json
payload_of user_id email token_type iat exp =
    (lit "sub", str user_id)
    ∷ (lit "iat", num iat)
    ∷ (lit "exp", num exp)
    ∷ (lit "typ", str token_type)
    ∷ email_claim email

-- `s, _ := v.(string)`
pub string_of : Option Json → Text
string_of (some (str s)) = s
string_of _ = []

pub string_claim : Text → Map Json → Text
unfolding string_of
string_claim k payload = string_of (lookup k payload)

module _ (codec : Codec) (jwt_secret : Text) where
  -- `signToken`
  unfoldable pub sign_token : Text → Text
  sign_token input = encode raw_url (codec.hmac_sha256 jwt_secret input)

  -- the token of a payload
  unfoldable pub token_of : Map Json → Text
  token_of payload =
      let input = encode raw_url header_json ++ b'.' ∷ encode raw_url (codec.marshal payload) in
      input ++ b'.' ∷ sign_token input

  -- `issueToken` at the time `now` in nanoseconds: the token and its expiry in nanoseconds
  unfoldable pub issue_token : ℕ → Text → Text → Text → ℤ → Result (Text × ℤ)
  issue_token now user_id email token_type ttl =
      if blank user_id
      then err user_id_required
      else let exp = pos now +ℤ ttl in
        ok (
          token_of
              (payload_of user_id email token_type (pos (now / second)) (floor_div exp second)),
          exp,
        )

  -- The `exp` claim against the time in seconds; only a number is checked.
  pub in_time : ℕ → Option Json → Bool
  in_time now none = true
  in_time now (some (num exp)) = not (ltb_ℤ exp (pos now))
  in_time now (some _) = true

  pub payload_in_time : ℕ → Option (Map Json) → Bool
  unfolding in_time
  payload_in_time now none = false
  payload_in_time now (some payload) = in_time now (lookup (lit "exp") payload)

  pub parse_payload : Option Text → Option (Map Json)
  parse_payload none = none
  parse_payload (some bytes) = codec.unmarshal bytes

  pub verify_parts : ℕ → List Text → Bool
  unfolding payload_in_time parse_payload
  verify_parts now (header ∷ payload ∷ signature ∷ []) =
      sign_token (header ++ b'.' ∷ payload) == signature
      && payload_in_time now (parse_payload (decode raw_url payload))
  verify_parts now _ = false

  -- `verifyToken` at the time `now` in seconds
  unfoldable pub verify_token : ℕ → Text → Bool
  unfolding verify_parts
  verify_token now token = verify_parts now (split token b'.')

  second_part : List Text → Option (Map Json)
  unfolding parse_payload
  second_part (header ∷ payload ∷ _) = parse_payload (decode raw_url payload)
  second_part _ = none

  -- `parseTokenPayload`
  unfoldable pub parse_token_payload : Text → Option (Map Json)
  unfolding second_part
  parse_token_payload token = second_part (split token b'.')

  pub user_of : Map Json → Option Text
  unfolding string_claim
  user_of payload =
      if not (is_empty (string_claim (lit "sub") payload))
      then some (string_claim (lit "sub") payload)
      else if not (is_empty (string_claim (lit "id") payload))
      then some (string_claim (lit "id") payload)
      else none

  user_of_payload : Option (Map Json) → Option Text
  unfolding user_of
  user_of_payload none = none
  user_of_payload (some payload) = user_of payload

  -- the function `parseUserIDFromToken`
  unfoldable pub parse_user_id : Text → Option Text
  unfolding user_of_payload
  parse_user_id token = user_of_payload (parse_token_payload token)

  verified : ℕ → Text → Option Text → Option Text
  verified now token none = none
  verified now token (some user_id) = if verify_token now token then some user_id else none

  -- the method `parseUserIDFromToken`
  unfoldable pub parse_user_id_from_token : ℕ → Text → Option Text
  unfolding verified
  parse_user_id_from_token now token = verified now token (parse_user_id token)
