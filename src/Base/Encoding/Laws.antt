-- ===== src/Base/Encoding/Laws.antt =====
-- Decoding undoes encoding, and encoded text holds none of the separators around it.
use Prim.Native.Nat.{ℕ, ◌<◌, ◌*◌, ◌+◌, ◌/◌, ◌%◌}
use mathlib.Core.Path.{◌≡◌, refl}
use mathlib.Core.Logic.{◌≢◌}
use mathlib.Core.Bool.{false}
use mathlib.Core.List.{[], ◌∷◌}
use mathlib.Core.Option.{none, some}
use native.Mathlib.Omega.{arith}
use santokit.Base.Lists.{All}
use santokit.Base.Bytes.{Text, IsBytes, lit}
use santokit.Base.Strings.Laws.{Lacks}
use santokit.Base.Encoding.{
  Encoding, std, raw_url, symbol, six_bits, encode, quanta, strip, decode, is_pad, one_byte,
  two_bytes, three_bytes,
}

six_bits-symbol : (e : Encoding) (n : ℕ) → n < 64 → six_bits e (symbol e n) ≡ some n
unfolding six_bits symbol
six_bits-symbol std n h = ground arith
six_bits-symbol raw_url n h = ground arith

-- What a symbol is not: white space, a dot, the padding.
record IsSymbol (c : ℕ) : Type 0 where
  visible : 32 < c
  not_dot : c ≢ b'.'
  not_pad : c ≢ b'='
  small : c < 256

symbol-IsSymbol : (e : Encoding) (n : ℕ) → n < 64 → IsSymbol (symbol e n)
unfolding symbol
symbol-IsSymbol std n h = ground arith
symbol-IsSymbol raw_url n h = ground arith

module _ (e : Encoding) where
  one_byte-symbol :
      (a : ℕ) → a < 256 → one_byte e (symbol e (a / 4)) (symbol e (a % 4 * 16)) ≡ some (a ∷ [])
  unfolding one_byte
  one_byte-symbol a h =
      rw (six_bits-symbol e (a / 4) (omega arith), six_bits-symbol e (a % 4 * 16) (omega arith))
        (ground arith)

  two_bytes-symbol :
      (a b : ℕ)
      → a < 256
      → b < 256
      → two_bytes e (symbol e (a / 4)) (symbol e (a % 4 * 16 + b / 16)) (symbol e (b % 16 * 4))
        ≡ some (a ∷ b ∷ [])
  unfolding two_bytes
  two_bytes-symbol a b h k =
      rw
        (
          six_bits-symbol e (a / 4) (omega arith),
          six_bits-symbol e (a % 4 * 16 + b / 16) (omega arith),
          six_bits-symbol e (b % 16 * 4) (omega arith),
        )
        (ground arith)

  three_bytes-symbol :
      (a b c : ℕ)
      → a < 256
      → b < 256
      → c < 256
      → three_bytes e
          (symbol e (a / 4))
          (symbol e (a % 4 * 16 + b / 16))
          (symbol e (b % 16 * 4 + c / 64))
          (symbol e (c % 64))
        ≡ some (a ∷ b ∷ c ∷ [])
  unfolding three_bytes
  three_bytes-symbol a b c h k l =
      rw
        (
          six_bits-symbol e (a / 4) (omega arith),
          six_bits-symbol e (a % 4 * 16 + b / 16) (omega arith),
          six_bits-symbol e (b % 16 * 4 + c / 64) (omega arith),
          six_bits-symbol e (c % 64) (omega arith),
        )
        (ground arith)

is_pad-symbol : (e : Encoding) (n : ℕ) → n < 64 → is_pad e (symbol e n) ≡ false
is_pad-symbol std n h = ground (arith, symbol-IsSymbol std n)
is_pad-symbol raw_url n h = refl

quanta-encode : (e : Encoding) (s : Text) → IsBytes s → quanta e (encode e s) ≡ some s
unfolding quanta encode
quanta-encode e [] h = refl
quanta-encode std (a ∷ []) h = one_byte-symbol std a h.0
quanta-encode raw_url (a ∷ []) h = one_byte-symbol raw_url a h.0
quanta-encode std (a ∷ b ∷ []) h =
    rw (is_pad-symbol std (b % 16 * 4) (omega arith)) (two_bytes-symbol std a b h.0 h.1.0)
quanta-encode raw_url (a ∷ b ∷ []) h = two_bytes-symbol raw_url a b h.0 h.1.0
quanta-encode e (a ∷ b ∷ c ∷ s) (ha, (hb, (hc, hs))) = rw (
  is_pad-symbol e (c % 64) (omega arith),
  three_bytes-symbol e a b c ha hb hc,
  quanta-encode e s hs,
)

-- Every byte of an encoded text is visible, and none is a dot.
abbrev pub IsPlain : Text → Type 0
IsPlain = All (λ c. (32 < c) × (c ≢ b'.') × (c < 256))

encode-IsPlain : (e : Encoding) (s : Text) → IsBytes s → IsPlain (encode e s)
unfolding encode
encode-IsPlain e [] h = tt
encode-IsPlain std (a ∷ []) h =
    ground (arith, symbol-IsSymbol std (a / 4), symbol-IsSymbol std (a % 4 * 16))
encode-IsPlain raw_url (a ∷ []) h =
    ground (arith, symbol-IsSymbol raw_url (a / 4), symbol-IsSymbol raw_url (a % 4 * 16))
encode-IsPlain std (a ∷ b ∷ []) h = ground (
  arith,
  symbol-IsSymbol std (a / 4),
  symbol-IsSymbol std (a % 4 * 16 + b / 16),
  symbol-IsSymbol std (b % 16 * 4),
)
encode-IsPlain raw_url (a ∷ b ∷ []) h = ground (
  arith,
  symbol-IsSymbol raw_url (a / 4),
  symbol-IsSymbol raw_url (a % 4 * 16 + b / 16),
  symbol-IsSymbol raw_url (b % 16 * 4),
)
encode-IsPlain e (a ∷ b ∷ c ∷ s) h = ground (
  arith,
  symbol-IsSymbol e (a / 4),
  symbol-IsSymbol e (a % 4 * 16 + b / 16),
  symbol-IsSymbol e (b % 16 * 4 + c / 64),
  symbol-IsSymbol e (c % 64),
  encode-IsPlain e s h.1.1.1,
)

Lacks-dot : (s : Text) → IsPlain s → Lacks b'.' s
Lacks-dot [] h = tt
Lacks-dot (c ∷ s) (h, hs) = (h.1, Lacks-dot s hs)

pub encode-Lacks-dot : (e : Encoding) (s : Text) → IsBytes s → Lacks b'.' (encode e s)
encode-Lacks-dot e s h = Lacks-dot (encode e s) (encode-IsPlain e s h)

strip-IsPlain : (s : Text) → IsPlain s → strip s ≡ s
unfolding strip
strip-IsPlain [] h = refl
strip-IsPlain (c ∷ s) h = ground (arith, strip-IsPlain s h.1)

pub decode-encode : (e : Encoding) (s : Text) → IsBytes s → decode e (encode e s) ≡ some s
unfolding decode
decode-encode e s h = rw (strip-IsPlain (encode e s) (encode-IsPlain e s h)) (quanta-encode e s h)

encode_tests :
    (encode std (lit "light w") ≡ lit "bGlnaHQgdw==")
    × (encode raw_url (251 ∷ 255 ∷ []) ≡ lit "-_8")
    × (decode std (lit "bGlnaHQgdw==") ≡ some (lit "light w"))
    × (decode std (lit "bGlnaHQgdw=") ≡ none)
unfolding encode decode
encode_tests = (refl, refl, refl, refl)
