-- ===== src/State/RateLimiter/Window.antt =====
-- How many requests the fixed-window limiter of src/state.rs lets through.
use unlimited_ocr_server.Prelude.{
  ℕ, ◌+◌, ◌-◌, ◌*◌, ◌≤◌, ◌<◌, min, ◌≡◌, ◌≢◌, ◌↔◌, ◌⊎◌, inl, inr, refl, List, [], ◌∷◌, All, length,
  arith,
}
use unlimited_ocr_server.State.RateLimiter.{
  RateLimiter, allowed, limited, minute, new, check, decisions, tally, admitted,
}

abbrev pub Within : ℕ → ℕ → Type 0
Within start now = (start ≤ now) × (now < start + minute)

-- A request is turned away exactly when a limit is set, the window is under a minute old, and the
-- window's count has reached the limit.
check-limited_iff :
    (l : RateLimiter) (now : ℕ)
    → ((check l now).1 ≢ allowed) ↔ (
        (0 < l.limit_per_minute)
        × (now - l.state.started_at < minute)
        × (l.limit_per_minute ≤ l.state.count))
unfolding check
check-limited_iff l now = ground arith

-- A limited request is told to come back after one to sixty seconds.
check-retry_after_bounds :
    (l : RateLimiter) (now seconds : ℕ)
    → (check l now).1 ≡ limited seconds
    → (1 ≤ seconds) × (seconds ≤ 60)
unfolding check
check-retry_after_bounds l now seconds h = ground arith

-- `check` keeps the limit, and never counts past it.
check-count :
    (l : RateLimiter) (now : ℕ)
    → l.state.count ≤ l.limit_per_minute
    → ((check l now).0.limit_per_minute ≡ l.limit_per_minute)
      × ((check l now).0.state.count ≤ l.limit_per_minute)
unfolding check
check-count l now h = ground arith

-- Once the window began in the span, no later request of the span starts another.
check_inside :
    (l : RateLimiter) (start now : ℕ)
    → 0 < l.limit_per_minute
    → l.state.count ≤ l.limit_per_minute
    → start ≤ l.state.started_at
    → Within start now
    → (start ≤ (check l now).0.state.started_at)
      × (tally (check l now).1 + l.state.count ≡ (check l now).0.state.count)
unfolding check
check_inside l start now pos c s h = ground arith

inside :
    (start : ℕ) (times : List ℕ) (l : RateLimiter)
    → 0 < l.limit_per_minute
    → l.state.count ≤ l.limit_per_minute
    → start ≤ l.state.started_at
    → All (Within start) times
    → admitted (decisions l times) + l.state.count ≤ l.limit_per_minute
unfolding decisions admitted
inside start [] l pos c s h = omega arith
inside start (now ∷ times) l pos c s h =
    let next = (check l now).0 in
    let kept = check-count l now c in
    let seen = check_inside l start now pos c s h.0 in
    let rest = inside start times next (omega arith) (omega arith) seen.0 h.1 in omega arith

-- A window may begin before the span: the span then sees the rest of it and one more.
check_before :
    (l : RateLimiter) (start now : ℕ)
    → 0 < l.limit_per_minute
    → l.state.count ≤ l.limit_per_minute
    → Within start now
    → ((start ≤ (check l now).0.state.started_at)
        × (tally (check l now).1 ≤ (check l now).0.state.count)
        × ((check l now).0.state.count ≤ 1))
      ⊎ (tally (check l now).1 + l.state.count ≡ (check l now).0.state.count)
unfolding check
check_before l start now pos c h = ground arith

span :
    (start : ℕ) (times : List ℕ) (l : RateLimiter)
    → 0 < l.limit_per_minute
    → l.state.count ≤ l.limit_per_minute
    → All (Within start) times
    → admitted (decisions l times) + l.state.count ≤ 2 * l.limit_per_minute
unfolding decisions admitted
span start [] l pos c h = omega arith
span start (now ∷ times) l pos c h =
    let next = (check l now).0 in
    let kept = check-count l now c in
    elim (check_before l start now pos c h.0) [
      | inl fresh ↦
          let rest = inside start times next (omega arith) (omega arith) fresh.0 h.1 in omega arith
      | inr same ↦ let rest = span start times next (omega arith) (omega arith) h.1 in omega arith
    ]

-- Of the requests that reach the limiter within any sixty seconds, in whatever order their clock
-- readings are, at most twice the limit are let through, from every state of the limiter whose
-- count is at most a limit that is set.
pub admitted-le_twice :
    (start : ℕ) (times : List ℕ) (l : RateLimiter)
    → 0 < l.limit_per_minute
    → l.state.count ≤ l.limit_per_minute
    → All (Within start) times
    → admitted (decisions l times) ≤ 2 * l.limit_per_minute
admitted-le_twice start times l pos c h = omega (arith, span start times l pos c h)

check_first :
    (l : RateLimiter) (start now : ℕ)
    → 0 < l.limit_per_minute
    → l.state.count ≤ l.limit_per_minute
    → l.state.started_at ≡ start
    → Within start now
    → ((check l now).0.state.started_at ≡ start)
      × (tally (check l now).1 + l.state.count ≡ (check l now).0.state.count)
      × (tally (check l now).1 ≡ min 1 (l.limit_per_minute - l.state.count))
unfolding check
check_first l start now pos c s h = ground arith

first_window :
    (start : ℕ) (times : List ℕ) (l : RateLimiter)
    → 0 < l.limit_per_minute
    → l.state.count ≤ l.limit_per_minute
    → l.state.started_at ≡ start
    → All (Within start) times
    → admitted (decisions l times) ≡ min (l.limit_per_minute - l.state.count) (length times)
unfolding decisions admitted
first_window start [] l pos c s h = omega arith
first_window start (now ∷ times) l pos c s h =
    let next = (check l now).0 in
    let kept = check-count l now c in
    let seen = check_first l start now pos c s h.0 in
    let rest = first_window start times next (omega arith) (omega arith) seen.0 h.1 in omega arith

-- A limiter made at `start` with a limit that is set lets through, of the requests of its first
-- sixty seconds, exactly as many as the limit allows.
pub admitted-new :
    (limit start : ℕ) (times : List ℕ)
    → 0 < limit
    → All (Within start) times
    → admitted (decisions (new limit start) times) ≡ min limit (length times)
unfolding new
admitted-new limit start times pos h =
    omega (arith, first_window start times (new limit start) pos (omega arith) refl h)
