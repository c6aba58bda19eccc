-- ===== src/Api/Token/Laws.antt =====
-- An issued token is accepted until it expires, and for the user that it was issued to.
use mathlib.Core.Bool.{false≢true}
use mathlib.Core.List.{append_assoc}
use santokit.Base.{
  ℕ, ◌≡◌, refl, sym, ap, ◌∙◌, ◌≤◌, ◌^◌, ◌/◌, ◌++◌, inl, inr, Bool-cases, false, not, none, some, [],
  ◌∷◌, arith, if◌then◌else◌, is_empty, Text, lit, ◌==◌, eq_refl, Map, lookup, Values, Result, Error,
  ok, err,
}
use santokit.Base.Int.{ℤ, pos, pos_part, neg_part, ◌+ℤ◌, ltb_ℤ, floor_div}
use santokit.Base.Json.{Json, str, num}
use santokit.Base.Strings.{trim_space, split}
use santokit.Base.Strings.Laws.{split-join, split_single}
use santokit.Base.Encoding.{raw_url, encode}
use santokit.Base.Encoding.Laws.{decode-encode, encode-Lacks-dot}
use santokit.Api.Token.{
  blank, Codec, IsCarried, Carries, second, header_json, email_claim, payload_of, sign_token,
  token_of, issue_token, in_time, payload_in_time, verify_token, parse_token_payload, string_of,
  string_claim, user_of, parse_user_id, parse_user_id_from_token,
}

module _ (codec : Codec) (secret : Text) (payload : Map Json) where
  split-token_of :
      split (token_of codec secret payload) b'.'
      ≡ encode raw_url header_json
        ∷ encode raw_url (codec.marshal payload)
        ∷ sign_token codec secret
            (encode raw_url header_json ++ b'.' ∷ encode raw_url (codec.marshal payload))
        ∷ []
  unfolding token_of sign_token
  split-token_of =
      let h = encode raw_url header_json in
      let b = encode raw_url (codec.marshal payload) in
      let input = h ++ b'.' ∷ b in
      let signature = encode raw_url (codec.hmac_sha256 secret input) in
      rw (append_assoc h (b'.' ∷ b) (b'.' ∷ signature)) (
        rw (
          split-join b'.' h (b ++ b'.' ∷ signature)
              (encode-Lacks-dot raw_url header_json (omega arith)),
          split-join b'.' b signature
              (encode-Lacks-dot raw_url (codec.marshal payload) (codec.marshal-IsBytes payload)),
          split_single b'.' signature
              (encode-Lacks-dot raw_url _ (codec.hmac-IsBytes secret input)),
        ))

  parse-token_of :
      parse_token_payload codec secret (token_of codec secret payload)
      ≡ codec.unmarshal (codec.marshal payload)
  unfolding parse_token_payload
  parse-token_of = rw (
    split-token_of,
    decode-encode raw_url (codec.marshal payload) (codec.marshal-IsBytes payload),
  )

  verify-token_of :
      (t : ℕ)
      → verify_token codec secret t (token_of codec secret payload)
        ≡ payload_in_time codec secret t (codec.unmarshal (codec.marshal payload))
  unfolding verify_token
  verify-token_of t = rw (
    split-token_of,
    decode-encode raw_url (codec.marshal payload) (codec.marshal-IsBytes payload),
    eq_refl,
  )

lookup-payload_of :
    (user email typ : Text) (iat exp : ℤ)
    → (lookup (lit "sub") (payload_of user email typ iat exp) ≡ some (str user))
      × (lookup (lit "exp") (payload_of user email typ iat exp) ≡ some (num exp))
unfolding payload_of lookup ◌==◌
lookup-payload_of user email typ iat exp = (refl, refl)

ok_pair :
    {A B : Type 0} (a a' : A) (b b' : B)
    → ◌≡◌ {A = Result (A × B)} (ok (a, b)) (ok (a', b'))
    → (a ≡ a') × (b ≡ b')
ok_pair a a' b b' e = (cc, cc)

module _ (codec : Codec) (secret : Text) where
  err-ne-ok : {A : Type 0} {e : Error} {a : A} → err e ≡ ok a → ⊥
  err-ne-ok h = cc

  issue_token_ok :
      (now : ℕ) (user email typ : Text) (ttl exp : ℤ) (token : Text)
      → issue_token codec secret now user email typ ttl ≡ ok (token, exp)
      → (blank user ≡ false)
        × (exp ≡ pos now +ℤ ttl)
        × (token
            ≡ token_of codec secret
                (payload_of user email typ (pos (now / second)) (floor_div exp second)))
  unfolding issue_token
  issue_token_ok now user email typ ttl exp token h = elim (Bool-cases (blank user)) [
    | inl no_user ↦ absurd (err-ne-ok (rw no_user at h))
    | inr has_user ↦
        let (same_token, same_exp) = ok_pair _ _ _ _ (rw has_user at h) in
        (
          has_user,
          sym same_exp,
          sym same_token
              ∙ ap
                  (λ e.
                    token_of codec secret
                      (payload_of user email typ (pos (now / second)) (floor_div e second)))
                  same_exp,
        )
  ]

  blank_not_empty : (s : Text) → blank s ≡ false → is_empty s ≡ false
  blank_not_empty [] h = absurd (false≢true (sym h ∙ unfold trim_space in refl))
  blank_not_empty (c ∷ s) h = refl

  -- What JSON must carry for a token: valid texts, and times that a float64 holds.
  pub record IsCarriedToken (user email typ : Text) (now : ℕ) (exp : ℤ) : Type 0 where
    pub user_utf8 : codec.IsUtf8 user
    pub email_utf8 : codec.IsUtf8 email
    pub typ_utf8 : codec.IsUtf8 typ
    pub issued : now / second ≤ 2 ^ 53
    pub expires :
        (pos_part (floor_div exp second) ≤ 2 ^ 53) × (neg_part (floor_div exp second) ≤ 2 ^ 53)

  payload-IsCarried :
      (user email typ : Text) (now : ℕ) (exp : ℤ)
      → IsCarriedToken user email typ now exp
      → Values
          (IsCarried codec.IsUtf8)
          (payload_of user email typ (pos (now / second)) (floor_div exp second))
  unfolding payload_of
  payload-IsCarried user email typ now exp c =
      (c.user_utf8, ((c.issued, omega arith), (c.expires, (c.typ_utf8, with_email))))
    where
      with_email : Values (IsCarried codec.IsUtf8) (email_claim email)
      with_email = elim (Bool-cases (blank email)) [
        | inl no_email ↦ rw no_email tt
        | inr has_email ↦ rw has_email (c.email_utf8, tt)
      ]

  module _ (carries : Carries codec) (now : ℕ) (user email typ : Text) (ttl exp : ℤ) (token : Text)
      (issued : issue_token codec secret now user email typ ttl ≡ ok (token, exp))
      (carried : IsCarriedToken user email typ now exp) where
    claims : Map Json
    claims = payload_of user email typ (pos (now / second)) (floor_div exp second)

    read_back :
        (m : Map Json) × (codec.unmarshal (codec.marshal claims) ≡ some m)
        × (lookup (lit "sub") m ≡ some (str user))
        × (lookup (lit "exp") m ≡ some (num (floor_div exp second)))
    unfolding claims
    read_back =
        let (m, e, same) =
          carries.unmarshal-marshal _ (payload-IsCarried user email typ now exp carried) in
        let (sub, expiry) =
          lookup-payload_of user email typ (pos (now / second)) (floor_div exp second) in
        (m, e, same (lit "sub") ∙ sub, same (lit "exp") ∙ expiry)

    token_lem : token ≡ token_of codec secret claims
    unfolding claims
    token_lem = (issue_token_ok now user email typ ttl exp token issued).2

    -- Where JSON carries the claims, a token that was issued is accepted exactly as long as its
    -- expiry, in whole seconds, has not passed.
    pub verify-issue_token :
        (t : ℕ) → verify_token codec secret t token ≡ not (ltb_ℤ (floor_div exp second) (pos t))
    verify-issue_token t =
        let (m, e, sub, expiry) = read_back in
        rw (token_lem, verify-token_of codec secret claims t, e)
          (unfold payload_in_time in_time in rw expiry)

    parse_user_id-token : parse_user_id codec secret token ≡ some user
    unfolding parse_user_id
    parse_user_id-token =
        let (m, e, sub, expiry) = read_back in
        let (has_user, _, _) = issue_token_ok now user email typ ttl exp token issued in
        rw (token_lem, parse-token_of codec secret claims, e)
          (unfold user_of string_claim string_of in rw (sub, blank_not_empty user has_user))

    -- Where JSON carries the claims, the user who is read from a token that was issued is the one
    -- it was issued to until its expiry, in whole seconds, has passed, and afterwards there is
    -- none.
    pub parse_user_id-issue_token :
        (t : ℕ)
        → parse_user_id_from_token codec secret t token
          ≡ (if ltb_ℤ (floor_div exp second) (pos t) then none else some user)
    unfolding parse_user_id_from_token
    parse_user_id-issue_token t = rw parse_user_id-token (ground (arith, verify-issue_token t))
