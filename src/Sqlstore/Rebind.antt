-- ===== src/Sqlstore/Rebind.antt =====
-- The placeholders of packages/hub/internal/store/sqlstore/rebind.go.
pub mod Laws
use santokit.Base.{
  ℕ, zero, suc, ◌+◌, ◌/◌, ◌%◌, Bool, Option, none, some, List, [], ◌∷◌, ◌++◌, if◌then◌else◌, eqb,
  Text, lit, ◌==◌,
}

-- `DialectPostgres`, `DialectSQLite`
abbrev pub postgres : Text
postgres = lit "postgres"

abbrev pub sqlite : Text
sqlite = lit "sqlite"

-- The loop of `intToString`, with `room` bytes left in the buffer: `none` is the index out of range.
unfoldable pub digits_into : ℕ → ℕ → Text → Option Text
digits_into room zero out = some out
digits_into zero (suc v) out = none
digits_into (suc room) (suc v) out = digits_into room (suc v / 10) ((b'0' + suc v % 10) ∷ out)

-- `intToString`
unfoldable pub int_to_string : ℕ → Option Text
unfolding digits_into
int_to_string value = if eqb value 0 then some (lit "0") else digits_into 16 value []

numbered_mark : Option Text → Option Text → Option Text
numbered_mark none rest = none
numbered_mark (some digits) none = none
numbered_mark (some digits) (some rest) = some (b'$' ∷ (digits ++ rest))

copied : ℕ → Option Text → Option Text
copied c none = none
copied c (some rest) = some (c ∷ rest)

-- The loop of `Rebind`, where `arg` is the next number.
rebind_from : ℕ → Text → Option Text
unfolding numbered_mark copied int_to_string
rebind_from arg [] = some []
rebind_from arg (c ∷ query) =
    let rest = rebind_from (if eqb c b'?' then suc arg else arg) query in
    if eqb c b'?' then numbered_mark (int_to_string arg) rest else copied c rest

-- `Rebind`, `none` where it panics
unfoldable pub rebind : Text → Text → Option Text
unfolding rebind_from
rebind dialect query = if dialect == postgres then rebind_from 1 query else some query
