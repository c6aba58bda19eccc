-- ===== src/Cli/Profiles/Views/Masking.antt =====
-- What the commands let be seen of a token.
use santokit.Base.{
  if◌then◌else◌, ap, sym, ◌∙◌, false, ◌-◌, ◌≤◌, ◌≡◌, refl, inl, inr, Bool-cases, Bool, [], ◌∷◌,
  ◌++◌, arith, length, length-append, take, drop, leb, suc, zero, ℕ, is_empty, Text, lit,
  lookup-insert_self, ok,
}
use santokit.Cli.Profiles.{ConfigFile, load, run, set_token}
use santokit.Cli.Profiles.Laws.{written, change_current_eq}
use santokit.Cli.Profiles.Views.{mask_token, masked_token, auth_show}

length-take : (n : ℕ) (s : Text) → length (take n s) ≤ n
length-take zero s = omega arith
length-take (suc n) [] = omega arith
length-take (suc n) (c ∷ s) = omega (arith, length-take n s)

length-drop : (n : ℕ) (s : Text) → length (drop n s) ≡ length s - n
length-drop zero s = omega arith
length-drop (suc n) [] = omega arith
length-drop (suc n) (c ∷ s) = omega (arith, length-drop n s)

-- The first and the last four bytes of a token of more than eight.
abbrev pub ends : Text → Text × Text
ends s = if leb (length s) 8 then ([], []) else (take 4 s, drop (length s - 4) s)

ends_long :
    (s : Text)
    → leb (length s) 8 ≡ false
    → ◌≡◌ {A = Text × Text} (ends s) (take 4 s, drop (length s - 4) s)
ends_long s long = rw long refl

shown_short : (s : Text) → length (mask_token s) ≤ 11
unfolding mask_token
shown_short s = ground (
  arith,
  length-append (take 4 s) (lit "..." ++ drop (length s - 4) s),
  length-take 4 s,
  length-drop (length s - 4) s,
)

-- Two tokens that are both empty, or both of one to eight bytes, or both longer with the same first
-- four and the same last four bytes, are shown alike, in at most 11 bytes.
pub mask_token_lem :
    (s t : Text)
    → is_empty s ≡ is_empty t
    → leb (length s) 8 ≡ leb (length t) 8
    → ends s ≡ ends t
    → (mask_token s ≡ mask_token t) × (length (mask_token s) ≤ 11)
mask_token_lem s t both size edges = (alike, shown_short s)
  where
    alike : mask_token s ≡ mask_token t
    alike =
        unfold mask_token in
        elim (Bool-cases (leb (length t) 8)) [
          | inl short ↦ rw (both, size, short) refl
          | inr long ↦
              let same = sym (ends_long s (size ∙ long)) ∙ edges ∙ ends_long t long in
              let first : take 4 s ≡ take 4 t = ap (λ (x : Text × Text). x.0) same in
              let last : drop (length s - 4) s ≡ drop (length t - 4) t =
                ap (λ (x : Text × Text). x.1) same in
              rw (both, size, long, first, last) refl
        ]

module _ (writable : Bool) (file file' : ConfigFile) where
  -- After a `project auth set` that saved the token, `project auth show` prints that token, masked.
  pub auth_show-set_token :
      (token : Text)
      → run writable file (set_token token) ≡ (file', ok tt)
      → auth_show file' ≡ ok (mask_token token)
  unfolding auth_show masked_token set_token load
  auth_show-set_token token good =
      let (c, c', loaded, change_eq, on_disk) =
        written writable file file' (set_token token) good in
      let (named, same) = change_current_eq _ c c' change_eq in
      rw (on_disk, same, named, lookup-insert_self) refl
