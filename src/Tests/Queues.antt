-- ===== src/Tests/Queues.antt =====
-- The apply queue with three messages.
use edgy.ThreadPool.Order.{step}
use edgy.Prelude.{ℕ, ◌≡◌, ◌++◌, Bool, true, false, List, [], ◌∷◌, refl, arith}
use edgy.Engine.Queue.{
  on_disconnect, fill_batch, plan_apply_cycle, settle, cycle, enqueue_apply, Shared, ApplyItem,
  plan,
}
use edgy.Engine.Queue.Bounds.{
  Event, enqueued, disconnected, cycled, run, applied, sent, run-applied, Fits,
}
use edgy.Engine.Queue.Shutdown.{cycles, cycles_held}

abbrev item : ℕ → ApplyItem ℕ
item n = record { ledger_closed = false; msg = n }

abbrev state : Bool → Bool → List (ApplyItem ℕ) → Shared ℕ
state ready stop queue = record {
  apply_queue = queue;
  ready = ready;
  need_resync = false;
  stop = stop;
  apply_idle = true;
}

abbrev history : List (Event ℕ)
history = enqueued false 2 ∷ cycled ∷ enqueued true 3 ∷ disconnected ∷ enqueued false 4 ∷ []

history-Fits : Fits (state true false (item 1 ∷ [])) history
unfolding Fits step enqueue_apply cycle settle plan plan_apply_cycle fill_batch on_disconnect
history-Fits = (omega arith, (omega arith, (omega arith, tt)))

run-applied_example :
    applied (state true false (item 1 ∷ [])) history
      ++ (run (state true false (item 1 ∷ [])) history).apply_queue
    ≡ item 1 ∷ sent history
run-applied_example = run-applied (state true false (item 1 ∷ [])) history history-Fits

cycles_held_example :
    ((plan (cycles 9 (state false true (item 1 ∷ [])))).exit ≡ false)
    × ((cycles 9 (state false true (item 1 ∷ []))).apply_queue ≡ item 1 ∷ [])
cycles_held_example = cycles_held 9 (state false true (item 1 ∷ [])) (item 1) [] refl refl
