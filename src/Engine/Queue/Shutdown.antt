-- ===== src/Engine/Queue/Shutdown.antt =====
-- When the apply thread ends.
use edgy.Prelude.{
  length, leb, ◌≤◌, if_keeps, ℕ, suc, zero, ◌≡◌, Bool, true, false, List, [], ◌∷◌, refl, arith, ◌∙◌,
}
use edgy.Engine.Queue.{
  settle, batch_limit, fill_batch, Shared, ApplyItem, cycle, plan, plan_apply_cycle, is_empty,
}

module _ {J : Type 0} where
  -- `n` cycles while nothing else touches the queue
  unfoldable pub cycles : ℕ → Shared J → Shared J
  cycles zero s = s
  cycles (suc n) s = cycles n (cycle s).1

  is_empty→nil : (queue : List (ApplyItem J)) → is_empty queue ≡ true → queue ≡ []
  unfolding is_empty
  is_empty→nil [] h = refl
  is_empty→nil (item ∷ queue) h = absurd (no h)
    where
      no : false ≡ true → ⊥
      no e = ground arith

  -- The apply thread ends only when the engine stops and every message is applied.
  plan-exit : (s : Shared J) → (plan s).exit ≡ true → (s.stop ≡ true) × (s.apply_queue ≡ [])
  unfolding plan plan_apply_cycle
  plan-exit s h = (ground arith, is_empty→nil s.apply_queue (ground arith))

  plan-held :
      (s : Shared J) (item : ApplyItem J) (queue : List (ApplyItem J))
      → s.ready ≡ false
      → s.apply_queue ≡ item ∷ queue
      → ((plan s).exit ≡ false) × ((plan s).hold ≡ true)
  unfolding plan plan_apply_cycle is_empty
  plan-held s item queue r q = rw (r, q) (held s.stop)
    where
      held :
          (b : Bool)
          → ((plan_apply_cycle b false false).exit ≡ false)
            × ((plan_apply_cycle b false false).hold ≡ true)
      held true = (refl, refl)
      held false = (refl, refl)

  cycle-held :
      (s : Shared J)
      → (plan s).hold ≡ true
      → ((cycle s).1.ready ≡ s.ready) × ((cycle s).1.apply_queue ≡ s.apply_queue)
  unfolding cycle settle
  cycle-held s h =
      if_keeps Same (plan s).exit (λ _. (refl, refl))
        (λ _.
          if_keeps Same (plan s).hold (λ _. (refl, refl)) (λ f. absurd (both (plan s).hold h f)))
    where
      Same : List (ApplyItem J) × Shared J → Type 0
      Same r = (r.1.ready ≡ s.ready) × (r.1.apply_queue ≡ s.apply_queue)

      both : (b : Bool) → b ≡ true → b ≡ false → ⊥
      both b t f = ground arith

  -- While the engine is not ready, a stop does not end an apply thread that has messages waiting:
  -- no number of cycles changes the queue.
  pub cycles_held :
      (n : ℕ) (s : Shared J) (item : ApplyItem J) (queue : List (ApplyItem J))
      → s.ready ≡ false
      → s.apply_queue ≡ item ∷ queue
      → ((plan (cycles n s)).exit ≡ false) × ((cycles n s).apply_queue ≡ item ∷ queue)
  unfolding cycles
  cycles_held zero s item queue r q = ((plan-held s item queue r q).0, q)
  cycles_held (suc n) s item queue r q =
      let same = cycle-held s (plan-held s item queue r q).1 in
      cycles_held n (cycle s).1 item queue (same.0 ∙ r) (same.1 ∙ q)

  length-fill_batch_rest :
      (n : ℕ) (queue : List (ApplyItem J)) → length (fill_batch n queue).1 ≤ length queue
  unfolding fill_batch
  length-fill_batch_rest n [] = omega arith
  length-fill_batch_rest n (item ∷ queue) =
      if_keeps (λ (r : List (ApplyItem J) × List (ApplyItem J)). length r.1 ≤ suc (length queue))
        (leb batch_limit (suc n)) {x = (item ∷ [], queue)}
        {y = (item ∷ (fill_batch (suc n) queue).0, (fill_batch (suc n) queue).1)} (λ _. omega arith)
        (λ _. omega (arith, length-fill_batch_rest (suc n) queue))

  fill_batch-shorter :
      (item : ApplyItem J) (queue : List (ApplyItem J))
      → length (fill_batch 0 (item ∷ queue)).1 ≤ length queue
  unfolding fill_batch
  fill_batch-shorter item queue = length-fill_batch_rest 1 queue

  length-cycle_ready :
      (n : ℕ) (s : Shared J)
      → s.ready ≡ true
      → length s.apply_queue ≤ suc n
      → length (cycle s).1.apply_queue ≤ n
  unfolding cycle plan plan_apply_cycle is_empty settle
  length-cycle_ready n s r h = rw r (shorter s.stop s.apply_queue h)
    where
      shorter :
          (b : Bool) (queue : List (ApplyItem J))
          → length queue ≤ suc n
          → length
              (settle
                (plan_apply_cycle b true (is_empty queue))
                (record s { apply_queue = queue; ready = true })).1.apply_queue
            ≤ n
      shorter true [] l = omega arith
      shorter false [] l = omega arith
      shorter true (item ∷ queue) l = omega (arith, l, fill_batch-shorter item queue)
      shorter false (item ∷ queue) l = omega (arith, l, fill_batch-shorter item queue)

  cycle-flags : (s : Shared J) → ((cycle s).1.ready ≡ s.ready) × ((cycle s).1.stop ≡ s.stop)
  unfolding cycle settle
  cycle-flags s =
      if_keeps Same (plan s).exit (λ _. (refl, refl))
        (λ _.
          if_keeps Same (plan s).hold (λ _. (refl, refl))
            (λ _. if_keeps Same (plan s).take_batch (λ _. (refl, refl)) (λ _. (refl, refl))))
    where
      Same : List (ApplyItem J) × Shared J → Type 0
      Same r = (r.1.ready ≡ s.ready) × (r.1.stop ≡ s.stop)

  -- While the engine is ready, a stop ends the apply thread after as many cycles as there are
  -- messages, if no more arrive.
  cycles_end :
      (n : ℕ) (s : Shared J)
      → s.stop ≡ true
      → s.ready ≡ true
      → length s.apply_queue ≤ n
      → (plan (cycles n s)).exit ≡ true
  unfolding cycles plan plan_apply_cycle is_empty
  cycles_end zero s st r h = rw st (ends s.apply_queue h)
    where
      ends :
          (queue : List (ApplyItem J))
          → length queue ≤ 0
          → (plan_apply_cycle true s.ready (is_empty queue)).exit ≡ true
      ends [] l = refl
      ends (item ∷ queue) l = absurd (omega (arith, l))
  cycles_end (suc n) s st r h =
      cycles_end n (cycle s).1 ((cycle-flags s).1 ∙ st) ((cycle-flags s).0 ∙ r)
        (length-cycle_ready n s r h)
