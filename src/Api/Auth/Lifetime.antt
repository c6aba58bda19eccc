-- ===== src/Api/Auth/Lifetime.antt =====
-- The lifetime of the tokens of `handleCreateToken`, and of a session that is refreshed.
use santokit.Base.{ℕ, zero, suc, ◌≡◌, ◌<◌, ◌≤◌, ltb, arith}
use santokit.Base.Int.{pos, ltb_ℤ, wrap_int64}
use santokit.Api.Auth.{ttl_of}

-- A token that is requested for `n` seconds has a negative lifetime just where `n` is more than
-- 9223372036, the seconds whose nanoseconds int64 holds; `n` is at most 18446744073.
pub ttl_of_lem :
    (n : ℕ) → 0 < n → n ≤ 18446744073 → ltb_ℤ (ttl_of (pos n)) (pos 0) ≡ ltb 9223372036 n
unfolding wrap_int64
ttl_of_lem zero h k = absurd (omega (arith, h))
ttl_of_lem (suc n) h k = ground arith
