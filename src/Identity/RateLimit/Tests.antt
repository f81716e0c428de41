-- ===== src/Identity/RateLimit/Tests.antt =====
-- Three login attempts of one client against a limit of two: the bound at this run.
use egreen_quanta_tes.Base.{ℕ, ◌≤◌, ◌+◌, refl, [], ◌∷◌, arith}
use egreen_quanta_tes.Identity.RateLimit.{no_buckets}
use egreen_quanta_tes.Identity.RateLimit.Bound.{Hit, admitted, admitted-le}

abbrev attempt : ℕ → Hit
attempt now = record { key = "login:10.0.0.1"; limit = 2; window = 60; now = now }

admitted-le_example :
    admitted "login:10.0.0.1" (attempt 100 ∷ attempt 110 ∷ attempt 159 ∷ []) no_buckets ≤ 2 + 2
admitted-le_example =
    admitted-le "login:10.0.0.1" 2 60 100 (attempt 100 ∷ attempt 110 ∷ attempt 159 ∷ []) no_buckets
      (
        (λ own. (refl, refl, omega arith, omega arith)),
        (
          (λ own. (refl, refl, omega arith, omega arith)),
          ((λ own. (refl, refl, omega arith, omega arith)), tt),
        ),
      )
