-- ===== src/Base/Decimal.antt =====
-- The decimal print of a natural number, as `%d` writes it.
use Prim.Native.Nat.{ℕ, zero, suc, ◌+◌, ◌/◌, ◌%◌}
use mathlib.Core.Path.{◌≡◌, refl}
use mathlib.Core.List.{[], ◌∷◌}
use santokit.Base.Tests.{ltb, if◌then◌else◌}
use santokit.Base.Bytes.{Text, lit}

-- `n` itself is enough fuel, since each round divides by ten.
digits_from : ℕ → ℕ → Text → Text
digits_from zero n out = out
digits_from (suc fuel) n out =
    let digit = b'0' + n % 10 in
    let rest = digits_from fuel (n / 10) (digit ∷ out) in if ltb n 10 then digit ∷ out else rest

unfoldable pub decimal : ℕ → Text
unfolding digits_from
decimal n = digits_from (suc n) n []

decimal_tests : (decimal 0 ≡ lit "0") × (decimal 20410 ≡ lit "20410")
unfolding decimal
decimal_tests = (refl, refl)
