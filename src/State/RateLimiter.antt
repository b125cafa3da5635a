-- ===== src/State/RateLimiter.antt =====
-- `RateLimiter` of src/state.rs. An `Instant` is a number of nanoseconds; the mutex makes `check`
-- one step, and a caller's clock is its argument.
pub mod Window
mod Tests
use unlimited_ocr_server.Prelude.{
  ℕ, ◌-◌, ◌+◌, ◌*◌, ◌/◌, ◌≤◌, max, leb, ltb, ◌==◌, if◌then◌else◌, List, [], ◌∷◌,
}

pub record RateLimitWindow : Type 0 where
  pub started_at : ℕ
  pub count : ℕ

pub record RateLimiter : Type 0 where
  pub limit_per_minute : ℕ
  pub state : RateLimitWindow

pub data RateLimitDecision : Type 0 where
  allowed : RateLimitDecision
  limited : (retry_after : ℕ) → RateLimitDecision

abbrev pub second : ℕ
second = 1_000_000_000

abbrev pub minute : ℕ
minute = 60 * second

unfoldable pub new : ℕ → ℕ → RateLimiter
new limit_per_minute now = record {
  limit_per_minute = limit_per_minute;
  state = record { started_at = now; count = 0 };
}

-- The window that the rest of `check` works on.
unfoldable pub roll : RateLimitWindow → ℕ → RateLimitWindow
roll w now = if leb minute (now - w.started_at) then record { started_at = now; count = 0 } else w

-- `checked_sub` gives nothing below zero, and `unwrap_or_default` then takes zero, as `-` does here.
unfoldable pub retry_after : RateLimitWindow → ℕ → ℕ
retry_after w now = max ((minute - (now - w.started_at)) / second) 1

unfoldable pub admit : ℕ → RateLimitWindow → ℕ → RateLimitWindow × RateLimitDecision
unfolding retry_after
admit limit w now =
    if leb limit w.count
    then (w, limited (retry_after w now))
    else (record w { count = w.count + 1 }, allowed)

unfoldable pub check : RateLimiter → ℕ → RateLimiter × RateLimitDecision
unfolding roll admit
check l now =
    if l.limit_per_minute == 0
    then (l, allowed)
    else (let (w, decision) = admit l.limit_per_minute (roll l.state now) now in
        (record l { state = w }, decision))

-- The decisions on requests that reach the limiter at the listed times.
pub decisions : RateLimiter → List ℕ → List RateLimitDecision
decisions l [] = []
decisions l (now ∷ times) = let (l', d) = check l now in d ∷ decisions l' times

abbrev pub tally : RateLimitDecision → ℕ
tally allowed = 1
tally (limited _) = 0

pub admitted : List RateLimitDecision → ℕ
admitted [] = 0
admitted (d ∷ ds) = tally d + admitted ds
