-- ===== src/State/RateLimiter/Tests.antt =====
-- Runs of the rate limiter of src/state.rs.
use unlimited_ocr_server.Prelude.{ℕ, ◌*◌, ◌≤◌, ◌≡◌, refl, List, [], ◌∷◌, arith, min, length}
use unlimited_ocr_server.State.RateLimiter.{
  RateLimiter, allowed, limited, second, new, check, decisions, admitted,
}
use unlimited_ocr_server.State.RateLimiter.Window.{admitted-le_twice, admitted-new}

abbrev full : RateLimiter
full = record { limit_per_minute = 2; state = record { started_at = 10 * second; count = 2 } }

abbrev burst : List ℕ
burst = 65 * second ∷ 69 * second ∷ 70 * second ∷ 71 * second ∷ 72 * second ∷ []

-- The rest of a window and the start of the next: two windows' worth in a few seconds.
burst-decisions :
    decisions (record full { state = record { started_at = 10 * second; count = 0 } }) burst
    ≡ allowed ∷ allowed ∷ allowed ∷ allowed ∷ limited 58 ∷ []
unfolding decisions check
burst-decisions = refl

admitted-le_twice_example : admitted (decisions full burst) ≤ 4
admitted-le_twice_example =
    admitted-le_twice (65 * second) burst full (omega arith) (omega arith) (omega arith)

admitted-new_example : admitted (decisions (new 3 (65 * second)) burst) ≡ min 3 (length burst)
admitted-new_example = admitted-new 3 (65 * second) burst (omega arith) (omega arith)
