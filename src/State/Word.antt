-- ===== src/State/Word.antt =====
-- The arithmetic of `AtomicUsize` and of conversions to `usize`, on a 64-bit target.
use unlimited_ocr_server.Prelude.{ℕ, ◌+◌, ◌-◌, ◌%◌, ◌^◌, ◌≤◌, ◌≡◌, min, arith}

abbrev pub usize_max : ℕ
usize_max = 2 ^ 64 - 1

-- `fetch_add` wraps around.
abbrev pub fetch_add : ℕ → ℕ → ℕ
fetch_add counter n = (counter + n) % 2 ^ 64

-- `usize::try_from(n).unwrap_or(usize::MAX)`
abbrev pub saturating_usize : ℕ → ℕ
saturating_usize n = min n usize_max

pub fetch_add-exact : (counter n : ℕ) → counter + n ≤ usize_max → fetch_add counter n ≡ counter + n
fetch_add-exact counter n h = omega arith
