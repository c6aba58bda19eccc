-- ===== src/Sqlstore/Rebind/Laws.antt =====
-- A rebound query has the same arguments in the same places.
use santokit.Base.{
  ℕ, zero, suc, ◌+◌, ◌-◌, ◌*◌, ◌^◌, ◌/◌, ◌%◌, ◌<◌, ◌≡◌, refl, ap, ◌∙◌, inl, inr, Bool-cases, Bool,
  true, false, not, ◌&&◌, ◌||◌, Option, none, some, List, [], ◌∷◌, ◌++◌, arith, if◌then◌else◌, eqb,
  leb, length, Text, eq_refl,
}
use santokit.Sqlstore.Rebind.{postgres, digits_into, int_to_string, rebind_from, rebind}

-- A query without quoted literals and names and without comments as a driver reads it: bytes, and the numbers of
-- the arguments.
pub data Token : Type 0 where
  byte : ℕ → Token
  argument : ℕ → Token

-- SQLite numbers the marks `?` from left to right.
pub marks : ℕ → Text → List Token
marks k [] = []
marks k (c ∷ query) =
    let rest = marks (if eqb c b'?' then suc k else k) query in
    if eqb c b'?' then argument k ∷ rest else byte c ∷ rest

abbrev pub is_digit : ℕ → Bool
is_digit c = leb b'0' c && leb c b'9'

-- PostgreSQL reads `$` and digits as the number of an argument; `number` is what was read of one.
pub numbers : Option ℕ → Text → List Token
numbers none [] = []
numbers (some n) [] = argument n ∷ []
numbers none (c ∷ query) =
    let inside = numbers (some 0) query in
    let outside = numbers none query in if eqb c b'$' then inside else byte c ∷ outside
numbers (some n) (c ∷ query) =
    let more = numbers (some (n * 10 + (c - b'0'))) query in
    let inside = numbers (some 0) query in
    let outside = numbers none query in
    if is_digit c
    then more
    else if eqb c b'$'
    then argument n ∷ inside
    else argument n ∷ byte c ∷ outside

-- A letter, a digit or an underscore.
unfoldable pub is_word : ℕ → Bool
is_word c = is_digit c || ((leb b'a' c && leb c b'z') || ((leb b'A' c && leb c b'Z') || eqb c b'_'))

-- A byte that starts no quoted literal or name, comment or other kind of parameter in either database:
-- a space, a line break, a tab, a letter, a digit, an underscore, or one of `( ) , . = *` and the mark.
unfoldable pub is_plain : ℕ → Bool
unfolding is_word
is_plain c =
    is_word c
    || (eqb c b' '
        || (eqb c b'\n'
            || (eqb c b'\t'
                || (eqb c b'('
                    || (eqb c b')'
                        || (eqb c b','
                            || (eqb c b'.' || (eqb c b'=' || (eqb c b'*' || eqb c b'?')))))))))

-- Every byte is plain, and no mark touches a word; `before` is the byte in front.
unfoldable pub unambiguous : ℕ → Text → Bool
unfolding is_plain is_word
unambiguous before [] = true
unambiguous before (c ∷ query) =
    is_plain c
    && not (eqb c b'?' && is_word before)
    && not (eqb before b'?' && is_word c)
    && unambiguous c query

plain_lem : (c : ℕ) → is_plain c ≡ true → eqb c b'$' ≡ false
unfolding is_plain is_word
plain_lem c h = ground (arith, h)

word_lem : (c : ℕ) → is_word c ≡ false → is_digit c ≡ false
unfolding is_word
word_lem c h = ground (arith, h)

-- What the test says of the first byte, and of the others.
record IsFine (before c : ℕ) (query : Text) : Type 0 where
  no_dollar : eqb c b'$' ≡ false
  apart : eqb before b'?' ≡ true → is_digit c ≡ false
  rest : unambiguous c query ≡ true

unambiguous_lem :
    (before c : ℕ) (query : Text) → unambiguous before (c ∷ query) ≡ true → IsFine before c query
unfolding unambiguous
unambiguous_lem before c query u = record {
  no_dollar = plain_lem c (ground (arith, u));
  apart = λ mark. word_lem c (ground (arith, u, mark));
  rest = ground (arith, u);
}

limit : ℕ → ℕ
limit zero = 1
limit (suc room) = 10 * limit room

-- What `intToString` writes reads as the number.
digits_into_lem :
    (room v : ℕ) (out : Text)
    → v < limit room
    → (ds : Text) × (digits_into room v out ≡ some ds)
      × ((rest : Text) → numbers (some 0) (ds ++ rest) ≡ numbers (some v) (out ++ rest))
unfolding digits_into limit
digits_into_lem room zero out h = (out, refl, λ rest. refl)
digits_into_lem zero (suc v) out h = absurd (omega (arith, h))
digits_into_lem (suc room) (suc v) out h =
    let (ds, e, reads) =
      digits_into_lem room (suc v / 10) ((b'0' + suc v % 10) ∷ out) (omega (arith, h)) in
    (ds, e, λ rest. reads rest ∙ unfold numbers in ground arith)

-- The first byte, if there is one, is no digit.
abbrev starts_plain : Text → Bool
starts_plain [] = true
starts_plain (c ∷ _) = not (is_digit c)

numbers_end :
    (n : ℕ) (rest : Text)
    → starts_plain rest ≡ true
    → numbers (some n) rest ≡ argument n ∷ numbers none rest
unfolding numbers
numbers_end n [] h = refl
numbers_end n (c ∷ rest) h = ground (arith, h)

int_to_string_lem :
    (v : ℕ)
    → 0 < v
    → v < limit 16
    → (ds : Text) × (int_to_string v ≡ some ds)
      × ((rest : Text) → numbers (some 0) (ds ++ rest) ≡ numbers (some v) rest)
unfolding int_to_string
int_to_string_lem v positive h =
    let (ds, e, reads) = digits_into_lem 16 v [] h in
    let some_number : eqb v 0 ≡ false = ground (arith, positive) in (ds, rw some_number e, reads)

-- What the loop gives for a query: it is read alike, and does not start with a digit behind a mark.
record IsRebound (k : ℕ) (before : ℕ) (query : Text) : Type 0 where
  out : Text
  made : rebind_from k query ≡ some out
  same : numbers none out ≡ marks k query
  plain : eqb before b'?' ≡ true → starts_plain out ≡ true

rebind_from_lem :
    (k before : ℕ) (query : Text)
    → suc k + length query < limit 16
    → unambiguous before query ≡ true
    → IsRebound (suc k) before query
unfolding rebind_from marks numbers
rebind_from_lem k before [] h u = record { out = []; made = refl; same = refl; plain = λ _. refl }
rebind_from_lem k before (c ∷ query) h u =
    let fine = unambiguous_lem before c query u in
    elim (Bool-cases (eqb c b'?')) [
      | inl mark ↦
          let r = rebind_from_lem (suc k) c query (omega (arith, h)) fine.rest in
          let (ds, e, reads) = int_to_string_lem (suc k) (omega arith) (omega (arith, h)) in
          record {
            out = b'$' ∷ (ds ++ r.out);
            made = rw (mark, r.made, e) refl;
            same = rw mark (
                reads r.out
                ∙ numbers_end (suc k) r.out (r.plain mark)
                ∙ ap (λ t. argument (suc k) ∷ t) r.same);
            plain = λ _. refl;
          }
      | inr other ↦
          let r = rebind_from_lem k c query (omega (arith, h)) fine.rest in
          record {
            out = c ∷ r.out;
            made = rw (other, r.made) refl;
            same = rw other (ground (arith, fine.no_dollar, r.same));
            plain = λ a. ground (arith, fine.apart a);
          }
    ]

-- `Rebind` for PostgreSQL succeeds on a query of fewer than 10^15 bytes, all of them spaces, line
-- breaks, tabs, letters, digits, underscores, marks or `( ) , . = *`, in which no mark touches a letter,
-- a digit or an underscore; so it has no quoted literal or name and no comment. In the result the bytes
-- and the numbered arguments `$n` are those of the query, in which the marks are numbered from left to
-- right.
pub rebind_lem :
    (query : Text)
    → length query < 10 ^ 15
    → unambiguous b' ' query ≡ true
    → (out : Text) × (rebind postgres query ≡ some out) × (numbers none out ≡ marks 1 query)
unfolding rebind
rebind_lem query short plain =
    let r = rebind_from_lem 0 b' ' query (unfold limit in omega (arith, short)) plain in
    (r.out, rw (eq_refl postgres) r.made, r.same)
