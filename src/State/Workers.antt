-- ===== src/State/Workers.antt =====
-- `WorkerPoolState` of src/state.rs.
use unlimited_ocr_server.Prelude.{ℕ, ◌-◌, Bool, ltb, ◌==◌, if◌then◌else◌}
use unlimited_ocr_server.State.Word.{fetch_add}

pub record WorkerPoolState : Type 0 where
  pub expected : ℕ
  pub ready : ℕ
  pub failed : ℕ

pub record WorkerPoolSnapshot : Type 0 where
  pub expected : ℕ
  pub ready : ℕ
  pub failed : ℕ

unfoldable pub new : ℕ → WorkerPoolState
new expected = record { expected = expected; ready = 0; failed = 0 }

unfoldable pub mark_ready : WorkerPoolState → WorkerPoolState
mark_ready w = record w { ready = fetch_add w.ready 1 }

unfoldable pub mark_failed : WorkerPoolState → WorkerPoolState
mark_failed w = record w { failed = fetch_add w.failed 1 }

-- `checked_sub` gives nothing at zero, and `fetch_update` then stores nothing.
unfoldable pub mark_stopped : WorkerPoolState → WorkerPoolState
mark_stopped w = if w.ready == 0 then w else record w { ready = w.ready - 1 }

unfoldable pub snapshot : WorkerPoolState → WorkerPoolSnapshot
snapshot w = record { expected = w.expected; ready = w.ready; failed = w.failed }

unfoldable pub is_ready : WorkerPoolState → Bool
unfolding snapshot
is_ready w = ltb 0 (snapshot w).ready
