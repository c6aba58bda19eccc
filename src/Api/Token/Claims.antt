-- ===== src/Api/Token/Claims.antt =====
-- What an accepted token establishes.
use santokit.Base.{
  ℕ, ◌≡◌, refl, sym, Bool, true, ◌&&◌, ◌++◌, Option, none, some, List, [], ◌∷◌, arith, Text, lit,
  eq_iff, Map, lookup,
}
use santokit.Base.Json.{Json}
use santokit.Base.Strings.{split}
use santokit.Base.Encoding.{raw_url, decode}
use santokit.Api.Token.{
  Codec, sign_token, in_time, payload_in_time, parse_payload, verify_parts, verify_token,
  second_part, parse_token_payload, user_of, parse_user_id, verified, parse_user_id_from_token,
}

module _ (codec : Codec) (secret : Text) where
  -- The token has three parts, the third is the signature of the first two under the API's secret,
  -- and the second holds claims that are not expired at the time `t`.
  pub record IsAuthentic (t : ℕ) (token : Text) (claims : Map Json) : Type 0 where
    pub header : Text
    pub payload : Text
    pub signature : Text
    pub parts : split token b'.' ≡ header ∷ payload ∷ signature ∷ []
    pub signed : signature ≡ sign_token codec secret (header ++ b'.' ∷ payload)
    pub read : parse_payload codec secret (decode raw_url payload) ≡ some claims
    pub unexpired : in_time codec secret t (lookup (lit "exp") claims) ≡ true

  and_true : (a b : Bool) → (a && b) ≡ true → (a ≡ true) × (b ≡ true)
  and_true a b h = ground arith

  in_time_claims :
      (t : ℕ) (read : Option (Map Json))
      → payload_in_time codec secret t read ≡ true
      → (claims : Map Json) × (read ≡ some claims)
        × (in_time codec secret t (lookup (lit "exp") claims) ≡ true)
  unfolding payload_in_time
  in_time_claims t none h = cc
  in_time_claims t (some claims) h = (claims, refl, h)

  verify_parts_lem :
      (t : ℕ) (token : Text) (parts : List Text)
      → split token b'.' ≡ parts
      → verify_parts codec secret t parts ≡ true
      → (claims : Map Json) × (second_part codec secret parts ≡ some claims)
        × IsAuthentic t token claims
  unfolding verify_parts second_part
  verify_parts_lem t token (h ∷ p ∷ s ∷ []) e v =
      let (signed, good) = and_true _ _ v in
      let (claims, read, unexpired) =
        in_time_claims t (parse_payload codec secret (decode raw_url p)) good in
      (
        claims,
        read,
        record {
          header = h;
          payload = p;
          signature = s;
          parts = e;
          signed = sym ((eq_iff _ s).0 signed);
          read = read;
          unexpired = unexpired;
        },
      )
  verify_parts_lem t token [] e v = cc
  verify_parts_lem t token (_ ∷ []) e v = cc
  verify_parts_lem t token (_ ∷ _ ∷ []) e v = cc
  verify_parts_lem t token (_ ∷ _ ∷ _ ∷ _ ∷ _) e v = cc

  -- A token that `verifyToken` accepts is authentic: three parts, signed with the API's secret, whose
  -- claims are the ones that `parseTokenPayload` reads and have not expired.
  pub verify_token_sound :
      (t : ℕ) (token : Text)
      → verify_token codec secret t token ≡ true
      → (claims : Map Json) × (parse_token_payload codec secret token ≡ some claims)
        × IsAuthentic t token claims
  unfolding verify_token parse_token_payload
  verify_token_sound t token v = verify_parts_lem t token (split token b'.') refl v

  verified_lem :
      (t : ℕ) (token : Text) (found : Option Text) (user : Text)
      → verified codec secret t token found ≡ some user
      → (found ≡ some user) × (verify_token codec secret t token ≡ true)
  unfolding verified
  verified_lem t token none user h = cc
  verified_lem t token (some u) user h = ground arith

  -- The user who is read from a token is named, in `sub` or else in `id`, by the claims of a token
  -- of three parts that is signed with the API's secret and has not expired.
  pub parse_user_id_sound :
      (t : ℕ) (token user : Text)
      → parse_user_id_from_token codec secret t token ≡ some user
      → (claims : Map Json) × (user_of codec secret claims ≡ some user) × IsAuthentic t token claims
  unfolding parse_user_id_from_token
  parse_user_id_sound t token user h =
      let (found, accepted) = verified_lem t token (parse_user_id codec secret token) user h in
      let (claims, read, authentic) = verify_token_sound t token accepted in
      (claims, unfold parse_user_id in rw read at found, authentic)
