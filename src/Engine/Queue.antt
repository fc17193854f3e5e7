-- ===== src/Engine/Queue.antt =====
-- The apply queue of `Engine`: `enqueueApply` on the network's threads and the cycles of `applyLoop`.
-- Each holds `applyMutex_` while it touches the queue, so it is one step.
pub mod Bounds
pub mod Shutdown
use edgy.Prelude.{
  ℕ, suc, ◌+◌, Bool, true, false, not, ◌&&◌, ◌||◌, ltb, leb, ◌==◌, if◌then◌else◌, List, [], ◌∷◌,
  ◌++◌, length, Option, none, some,
}

-- Engine::ApplyItem
pub record ApplyItem (J : Type 0) : Type 0 where
  pub ledger_closed : Bool
  pub msg : J

-- The queue and the flags that the two sides share.
pub record Shared (J : Type 0) : Type 0 where
  pub apply_queue : List (ApplyItem J)
  pub ready : Bool
  pub need_resync : Bool
  pub stop : Bool
  pub apply_idle : Bool

pub record ApplyCyclePlan : Type 0 where
  pub exit : Bool
  pub hold : Bool
  pub take_batch : Bool
  pub tick : Bool

-- The most that `enqueueApply` lets wait before it gives up, and the most of one batch.
abbrev pub queue_limit : ℕ
queue_limit = 100000

abbrev pub batch_limit : ℕ
batch_limit = 256

unfoldable pub plan_apply_cycle : Bool → Bool → Bool → ApplyCyclePlan
plan_apply_cycle stop ready queue_empty =
    if stop && queue_empty
    then record { exit = true; hold = false; take_batch = false; tick = false }
    else if not ready
    then record { exit = false; hold = true; take_batch = false; tick = false }
    else record { exit = false; hold = false; take_batch = not queue_empty; tick = not stop }

-- A transaction without a sequence is applied, and one of the current ledger.
unfoldable pub should_apply_stream_tx : ℕ → ℕ → Bool
should_apply_stream_tx tx_seq current_seq = tx_seq == 0 || leb current_seq tx_seq

unfoldable pub apply_txs_match_node : ℕ → ℕ → ℕ → Bool
apply_txs_match_node apply_txs no_meta node_txs = node_txs == 0 || apply_txs + no_meta == node_txs

module _ {J : Type 0} where
  unfoldable pub enqueue_apply : Bool → J → Shared J → Shared J
  enqueue_apply ledger_closed msg s =
      if ltb queue_limit (length s.apply_queue)
      then record s { apply_queue = []; ready = false; need_resync = true }
      else record s {
        apply_queue = s.apply_queue ++ record { ledger_closed = ledger_closed; msg = msg } ∷ [];
      }

  -- The handler of a lost connection.
  unfoldable pub on_disconnect : Shared J → Shared J
  on_disconnect s = record s { ready = false; need_resync = true }

  -- The loop that fills the batch, which holds `n` items.
  unfoldable pub fill_batch : ℕ → List (ApplyItem J) → List (ApplyItem J) × List (ApplyItem J)
  fill_batch n [] = ([], [])
  fill_batch n (item ∷ queue) =
      let rest = fill_batch (suc n) queue in
      if leb batch_limit (suc n) then (item ∷ [], queue) else (item ∷ rest.0, rest.1)

  is_empty : List (ApplyItem J) → Bool
  is_empty [] = true
  is_empty (item ∷ queue) = false

  -- The plan of a cycle that starts now.
  unfoldable pub plan : Shared J → ApplyCyclePlan
  unfolding is_empty
  plan s = plan_apply_cycle s.stop s.ready (is_empty s.apply_queue)

  -- What a cycle with this plan takes, and the state it leaves.
  unfoldable pub settle : ApplyCyclePlan → Shared J → List (ApplyItem J) × Shared J
  unfolding fill_batch
  settle p s =
      let idle = record s { apply_idle = true } in
      let taken = fill_batch 0 s.apply_queue in
      if p.exit
      then ([], idle)
      else if p.hold
      then ([], idle)
      else if p.take_batch
      then (taken.0, record s { apply_queue = taken.1; apply_idle = false })
      else ([], idle)

  -- The part of a cycle under the lock. The thread ends where the plan says so.
  unfoldable pub cycle : Shared J → List (ApplyItem J) × Shared J
  unfolding settle plan
  cycle s = settle (plan s) s
