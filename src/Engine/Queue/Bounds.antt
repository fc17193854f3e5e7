-- ===== src/Engine/Queue/Bounds.antt =====
-- The queue is bounded, and it loses nothing but by an overflow.
use mathlib.Core.List.{append-nil, append_assoc}
use edgy.Prelude.{
  sym, ◌∙◌, ◌<◌, ℕ, suc, ◌+◌, ◌≤◌, ◌≡◌, Bool, false, ltb, leb, if_keeps, List, [], ◌∷◌, ◌++◌,
  length, length-append, refl, ap, arith, ltb→lt,
}
use edgy.Engine.Queue.{
  settle, ApplyItem, Shared, queue_limit, batch_limit, enqueue_apply, on_disconnect, fill_batch,
  cycle, plan,
}

-- What happens to the queue.
pub data Event (J : Type 0) : Type 0 where
  enqueued : Bool → J → Event J
  disconnected : Event J
  cycled : Event J

module _ {J : Type 0} where
  unfoldable pub step : Shared J → Event J → Shared J
  step s (enqueued closed msg) = enqueue_apply closed msg s
  step s disconnected = on_disconnect s
  step s cycled = (cycle s).1

  unfoldable pub run : Shared J → List (Event J) → Shared J
  unfolding step
  run s [] = s
  run s (e ∷ es) = run (step s e) es

  fill_batch-append :
      (n : ℕ) (queue : List (ApplyItem J))
      → (fill_batch n queue).0 ++ (fill_batch n queue).1 ≡ queue
  unfolding fill_batch
  fill_batch-append n [] = refl
  fill_batch-append n (item ∷ queue) =
      if_keeps (λ (r : List (ApplyItem J) × List (ApplyItem J)). r.0 ++ r.1 ≡ item ∷ queue)
        (leb batch_limit (suc n)) (λ _. refl)
        (λ _. ap (λ q. item ∷ q) (fill_batch-append (suc n) queue))

  length-fill_batch :
      (n : ℕ) (queue : List (ApplyItem J))
      → suc n ≤ batch_limit
      → n + length (fill_batch n queue).0 ≤ batch_limit
  unfolding fill_batch
  length-fill_batch n [] h = omega (arith, h)
  length-fill_batch n (item ∷ queue) h =
      if_keeps (λ (r : List (ApplyItem J) × List (ApplyItem J)). n + length r.0 ≤ batch_limit)
        (leb batch_limit (suc n)) (λ _. omega (arith, h))
        (λ c. next (length-fill_batch (suc n) queue (below n (suc n) refl c)))
    where
      below : (k m : ℕ) → m ≡ suc k → leb batch_limit m ≡ false → suc m ≤ batch_limit
      below k m e c = ground arith

      next :
          suc n + length (fill_batch (suc n) queue).0 ≤ batch_limit
          → n + suc (length (fill_batch (suc n) queue).0) ≤ batch_limit
      next l = omega (arith, l)

  -- What a cycle takes comes from the front of the queue, in order.
  pub cycle-append : (s : Shared J) → (cycle s).0 ++ (cycle s).1.apply_queue ≡ s.apply_queue
  unfolding cycle settle
  cycle-append s =
      if_keeps Whole (plan s).exit (λ _. refl)
        (λ _.
          if_keeps Whole (plan s).hold (λ _. refl)
            (λ _.
              if_keeps Whole (plan s).take_batch (λ _. fill_batch-append 0 s.apply_queue)
                (λ _. refl)))
    where
      Whole : List (ApplyItem J) × Shared J → Type 0
      Whole r = r.0 ++ r.1.apply_queue ≡ s.apply_queue

  length-cycle : (s : Shared J) → length (cycle s).1.apply_queue ≤ length s.apply_queue
  length-cycle s =
      omega (arith, length-append (cycle s).0 (cycle s).1.apply_queue, ap length (cycle-append s))

  enqueue-append :
      (closed : Bool) (msg : J) (s : Shared J)
      → length s.apply_queue ≤ queue_limit
      → (enqueue_apply closed msg s).apply_queue
        ≡ s.apply_queue ++ record { ledger_closed = closed; msg = msg } ∷ []
  unfolding enqueue_apply
  enqueue-append closed msg s h =
      if_keeps
        (λ (r : Shared J).
          r.apply_queue ≡ s.apply_queue ++ record { ledger_closed = closed; msg = msg } ∷ [])
        (ltb queue_limit (length s.apply_queue)) (λ c. absurd (late (ltb→lt _ _ c))) (λ _. refl)
    where
      late : queue_limit < length s.apply_queue → ⊥
      late c = omega (arith, c, h)

  length-enqueue :
      (closed : Bool) (msg : J) (s : Shared J)
      → length (enqueue_apply closed msg s).apply_queue ≤ queue_limit + 1
  unfolding enqueue_apply
  length-enqueue closed msg s =
      if_keeps (λ (r : Shared J). length r.apply_queue ≤ queue_limit + 1)
        (ltb queue_limit (length s.apply_queue)) (λ _. omega arith) (λ c. grown c)
    where
      grown :
          ltb queue_limit (length s.apply_queue) ≡ false
          → length (s.apply_queue ++ record { ledger_closed = closed; msg = msg } ∷ [])
            ≤ queue_limit + 1
      grown c =
          ground
            (arith, length-append s.apply_queue (record { ledger_closed = closed; msg = msg } ∷ []))

  length-cycle_batch : (s : Shared J) → length (cycle s).0 ≤ batch_limit
  unfolding cycle settle
  length-cycle_batch s =
      if_keeps Fits (plan s).exit (λ _. omega arith)
        (λ _.
          if_keeps Fits (plan s).hold (λ _. omega arith)
            (λ _.
              if_keeps Fits (plan s).take_batch
                (λ _. omega (arith, length-fill_batch 0 s.apply_queue (omega arith)))
                (λ _. omega arith)))
    where
      Fits : List (ApplyItem J) × Shared J → Type 0
      Fits r = length r.0 ≤ batch_limit

  length-step :
      (s : Shared J) (e : Event J)
      → length s.apply_queue ≤ queue_limit + 1
      → length (step s e).apply_queue ≤ queue_limit + 1
  unfolding step on_disconnect
  length-step s (enqueued closed msg) h = length-enqueue closed msg s
  length-step s disconnected h = h
  length-step s cycled h = omega (arith, h, length-cycle s)

  -- What the cycles of a history take, in order, and what it enqueues.
  unfoldable pub applied : Shared J → List (Event J) → List (ApplyItem J)
  unfolding step
  applied s [] = []
  applied s (enqueued closed msg ∷ es) = applied (step s (enqueued closed msg)) es
  applied s (disconnected ∷ es) = applied (step s disconnected) es
  applied s (cycled ∷ es) = (cycle s).0 ++ applied (step s cycled) es

  unfoldable pub sent : List (Event J) → List (ApplyItem J)
  sent [] = []
  sent (enqueued closed msg ∷ es) = record { ledger_closed = closed; msg = msg } ∷ sent es
  sent (disconnected ∷ es) = sent es
  sent (cycled ∷ es) = sent es

  -- The queue never overflows: no message comes while more than the limit wait.
  unfoldable pub Fits : Shared J → List (Event J) → Type 0
  unfolding step
  Fits s [] = Unit
  Fits s (enqueued closed msg ∷ es) =
      (length s.apply_queue ≤ queue_limit) × Fits (step s (enqueued closed msg)) es
  Fits s (disconnected ∷ es) = Fits (step s disconnected) es
  Fits s (cycled ∷ es) = Fits (step s cycled) es

  -- As long as the queue does not overflow, however long the history is, messages are taken in the
  -- order that they are enqueued in, each once, and those that are not taken yet wait in the queue.
  pub run-applied :
      (s : Shared J) (es : List (Event J))
      → Fits s es
      → applied s es ++ (run s es).apply_queue ≡ s.apply_queue ++ sent es
  unfolding run applied sent step on_disconnect Fits
  run-applied s [] h = sym (append-nil s.apply_queue)
  run-applied s (enqueued closed msg ∷ es) (h, hs) =
      let item : ApplyItem J = record { ledger_closed = closed; msg = msg } in
      run-applied (enqueue_apply closed msg s) es hs
      ∙ ap (λ q. q ++ sent es) (enqueue-append closed msg s h)
      ∙ append_assoc s.apply_queue (item ∷ []) (sent es)
  run-applied s (disconnected ∷ es) h = run-applied (on_disconnect s) es h
  run-applied s (cycled ∷ es) h =
      append_assoc (cycle s).0 (applied (cycle s).1 es) (run (cycle s).1 es).apply_queue
      ∙ ap (λ q. (cycle s).0 ++ q) (run-applied (cycle s).1 es h)
      ∙ sym (append_assoc (cycle s).0 (cycle s).1.apply_queue (sent es))
      ∙ ap (λ q. q ++ sent es) (cycle-append s)

  -- No history makes the queue longer than one more than the limit, and no cycle takes more than a
  -- batch.
  pub length-run :
      (s : Shared J) (es : List (Event J))
      → length s.apply_queue ≤ queue_limit + 1
      → (length (run s es).apply_queue ≤ queue_limit + 1)
        × (length (cycle (run s es)).0 ≤ batch_limit)
  unfolding run
  length-run s [] h = (h, length-cycle_batch s)
  length-run s (e ∷ es) h = length-run (step s e) es (length-step s e h)
