-- ===== src/Base/Encoding.antt =====
-- The packages `encoding/hex` and `encoding/base64` of Go.
pub mod Laws
use Prim.Native.Nat.{ℕ, ◌+◌, ◌-◌, ◌*◌, ◌/◌, ◌%◌}
use mathlib.Core.Bool.{Bool, true, false, ◌&&◌, ◌||◌}
use mathlib.Core.List.{List, [], ◌∷◌, ◌++◌}
use mathlib.Core.Option.{Option, none, some}
use santokit.Base.Tests.{eqb, leb, ltb, if◌then◌else◌}
use santokit.Base.Bytes.{Text}

abbrev hex_digit : ℕ → ℕ
hex_digit n = if ltb n 10 then b'0' + n else b'a' + (n - 10)

-- `hex.EncodeToString`
unfoldable pub hex : Text → Text
hex [] = []
hex (b ∷ s) = hex_digit (b / 16) ∷ hex_digit (b % 16) ∷ hex s

-- `base64.StdEncoding`, with padding, and `base64.RawURLEncoding`, without.
pub data Encoding : Type 0 where
  std raw_url : Encoding

abbrev char62 : Encoding → ℕ
char62 std = b'+'
char62 raw_url = b'-'

abbrev char63 : Encoding → ℕ
char63 std = b'/'
char63 raw_url = b'_'

abbrev pad : Encoding → Text → Text
pad std s = s
pad raw_url s = []

symbol : Encoding → ℕ → ℕ
symbol e n =
    if ltb n 26
    then b'A' + n
    else if ltb n 52
    then b'a' + (n - 26)
    else if ltb n 62
    then b'0' + (n - 52)
    else if eqb n 62
    then char62 e
    else char63 e

six_bits : Encoding → ℕ → Option ℕ
six_bits e c =
    if leb b'A' c && leb c b'Z'
    then some (c - b'A')
    else if leb b'a' c && leb c b'z'
    then some (c - b'a' + 26)
    else if leb b'0' c && leb c b'9'
    then some (c - b'0' + 52)
    else if eqb c (char62 e)
    then some 62
    else if eqb c (char63 e)
    then some 63
    else none

-- `EncodeToString`
unfoldable pub encode : Encoding → Text → Text
unfolding symbol
encode e [] = []
encode e (a ∷ []) = symbol e (a / 4) ∷ symbol e (a % 4 * 16) ∷ pad e (b'=' ∷ b'=' ∷ [])
encode e (a ∷ b ∷ []) =
    symbol e (a / 4) ∷ symbol e (a % 4 * 16 + b / 16) ∷ symbol e (b % 16 * 4) ∷ pad e (b'=' ∷ [])
encode e (a ∷ b ∷ c ∷ s) =
    symbol e (a / 4)
    ∷ symbol e (a % 4 * 16 + b / 16)
    ∷ symbol e (b % 16 * 4 + c / 64)
    ∷ symbol e (c % 64)
    ∷ encode e s

infixl 5 ◌>>=◌
abbrev ◌>>=◌ {ℓ κ} : {A : Type ℓ} {B : Type κ} → Option A → (A → Option B) → Option B
none >>= f = none
some a >>= f = f a

one_byte : Encoding → ℕ → ℕ → Option Text
one_byte e c d = do x ← six_bits e c; y ← six_bits e d; some ((x * 4 + y / 16) ∷ [])

two_bytes : Encoding → ℕ → ℕ → ℕ → Option Text
two_bytes e c d f = do
  x ← six_bits e c
  y ← six_bits e d
  z ← six_bits e f
  some ((x * 4 + y / 16) ∷ (y % 16 * 16 + z / 4) ∷ [])

three_bytes : Encoding → ℕ → ℕ → ℕ → ℕ → Option Text
three_bytes e c d f g = do
  x ← six_bits e c
  y ← six_bits e d
  z ← six_bits e f
  w ← six_bits e g
  some ((x * 4 + y / 16) ∷ (y % 16 * 16 + z / 4) ∷ (z % 4 * 64 + w) ∷ [])

-- A short group at the end is an error where padding is required.
abbrev unpadded : Encoding → Option Text → Option Text
unpadded std r = none
unpadded raw_url r = r

abbrev is_pad : Encoding → ℕ → Bool
is_pad std c = eqb c b'='
is_pad raw_url c = false

abbrev at_end : Text → Option Text → Option Text
at_end [] r = r
at_end (_ ∷ _) r = none

quanta : Encoding → Text → Option Text
unfolding one_byte two_bytes three_bytes
quanta e [] = some []
quanta e (c ∷ []) = none
quanta e (c ∷ d ∷ []) = unpadded e (one_byte e c d)
quanta e (c ∷ d ∷ f ∷ []) = unpadded e (two_bytes e c d f)
quanta e (c ∷ d ∷ f ∷ g ∷ s) =
    let rest = quanta e s in
    if is_pad e g
    then at_end s (if is_pad e f then one_byte e c d else two_bytes e c d f)
    else do now ← three_bytes e c d f g; later ← rest; some (now ++ later)

-- Go skips line ends in the input.
strip : Text → Text
strip [] = []
strip (c ∷ s) = let rest = strip s in if eqb c 13 || eqb c 10 then rest else c ∷ rest

-- `DecodeString`; `none` is a `CorruptInputError`.
unfoldable pub decode : Encoding → Text → Option Text
unfolding quanta strip six_bits
decode e s = quanta e (strip s)
