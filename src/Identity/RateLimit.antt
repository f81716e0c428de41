-- ===== src/Identity/RateLimit.antt =====
-- backend/app/core/rate_limit.py: the fixed-window limiter in memory. The clock is `time.monotonic`,
-- read in any unit of time; the windows are given in the same unit.
pub mod Bound
mod Tests
use Prim.Native.String.{◌++◌ as append_str}
use egreen_quanta_tes.Base.{
  ℕ, suc, ◌-◌, String, Bool, true, false, Option, none, some, str_eq, leb, if◌then◌else◌,
}
use egreen_quanta_tes.Identity.Models.{Result, ok, err, rate_limited}

-- `_Window`
pub record Window : Type 0 where
  pub start : ℕ
  pub count : ℕ

-- The `defaultdict`: an absent key reads as `_Window(0.0, 0)`.
abbrev pub Buckets : Type 0
Buckets = String → Window

abbrev pub no_buckets : Buckets
no_buckets key = record { start = 0; count = 0 }

abbrev pub put : String → Window → Buckets → Buckets
put key w buckets k = if str_eq key k then w else buckets k

-- The window's state when a request is counted at `now`.
unfoldable pub count_hit : ℕ → ℕ → Window → Window
count_hit window now w =
    if leb window (now - w.start)
    then record { start = now; count = 1 }
    else record { start = w.start; count = suc w.count }

-- `InMemoryRateLimiter.hit`
unfoldable pub hit : String → ℕ → ℕ → ℕ → Buckets → (Bool × ℕ) × Buckets
hit key limit window now buckets =
    let w = count_hit window now (buckets key) in
    ((leb w.count limit, limit - w.count), put key w buckets)

-- The dependency that `rate_limit` returns, for the client that the request comes from.
pub limit_request : Bool → String → ℕ → ℕ → String → ℕ → Buckets → Result (Option ℕ) × Buckets
limit_request is_test name limit window client now buckets =
    let ((allowed, remaining), buckets') =
      hit (append_str name (append_str ":" client)) limit window now buckets in
    if is_test
    then (ok none, buckets)
    else if allowed
    then (ok (some remaining), buckets')
    else (err rate_limited, buckets')
