-- ===== src/Graph/Walk/Total.antt =====
-- The walk ends: every round that does not end it expands a frame.
use edgy.Prelude.{
  ℕ, suc, zero, Bool, true, false, ◌≡◌, ◌+◌, ◌<◌, ◌≤◌, List, [], ◌∷◌, ◌++◌, All, All-append, Option,
  some, if_keeps, elim_keeps, if◌then◌else◌, ltb, leb, length, ltb→lt, refl, arith, leb→le,
}
use edgy.Containers.Eq.{Eq}
use edgy.Books.{Xrpl, Books}
use edgy.Graph.{Payments, Request}
use edgy.Graph.Candidates.{max_hops, add_path, same_asset, dst_asset, book_path}
use edgy.Graph.Walk.Loop.{branch_over_keeps}
use edgy.Graph.Walk.{Frame, ordered_neighbors, arrive, walk, long_candidates}

All-Unit : {X : Type 0} (xs : List X) → All {0, 0} (λ _. Unit {0}) xs
All-Unit [] = tt
All-Unit (x ∷ xs) = (tt, All-Unit xs)

module _ {A T D E M L : Type 0} ⦃a : Eq A⦄ ⦃t : Eq T⦄ ⦃d : Eq D⦄ ⦃e : Eq E⦄ (lib : Xrpl A T)
    (pay : Payments A D E M L) (books : Books A T D) (req : Request A D E M L) where
  -- every frame of the queue may still grow
  abbrev Growing : List (Frame A) × List (List E) → Type 0
  Growing s = All (λ f. length f.hops < max_hops lib pay books req) s.0

  arrive-Growing :
      (next : A) (hops : List A) (s : List (Frame A) × List (List E))
      → Growing s
      → Growing (arrive lib pay books req next hops s)
  unfolding arrive
  arrive-Growing next hops (queue, set) h =
      arrived (same_asset next (dst_asset lib pay books req))
        (ltb (length hops) (max_hops lib pay books req)) (ltb→lt _ _)
    where
      arrived :
          (b c : Bool)
          → (c ≡ true → length hops < max_hops lib pay books req)
          → Growing (
              if b
              then (queue, add_path set (book_path lib pay books req hops))
              else if c
              then (queue ++ record { at = next; hops = hops } ∷ [], set)
              else (queue, set))
      arrived true c p = h
      arrived false true p = All-append _ queue _ h (p refl, tt)
      arrived false false p = h

  abbrev Ends : Option (ℕ × List (List E)) → Type 0
  Ends o = (r : ℕ × List (List E)) × (o ≡ some r)

  walk-Ends :
      (fuel expanded k : ℕ) (queue : List (Frame A)) (set : List (List E))
      → Growing (queue, set)
      → expanded ≤ req.budget.expand
      → req.budget.expand < fuel + expanded
      → Ends (walk lib pay books req fuel expanded k queue set)
  unfolding walk
  walk-Ends zero expanded k queue set h l b = absurd (omega (arith, l, b))
  walk-Ends (suc fuel) expanded k [] set h l b = (_, refl)
  walk-Ends (suc fuel) expanded k (frame ∷ queue) set h l b =
      elim_keeps Ends (ltb expanded req.budget.expand)
        (λ c.
          elim_keeps Ends (req.go k)
            (λ _.
              elim_keeps Ends (leb (max_hops lib pay books req) (length frame.hops))
                (λ f. absurd (stuck (leb→le _ _ f)))
                (λ _.
                  walk-Ends fuel (suc expanded) (suc k) _ _
                    (branch_over_keeps lib pay books req Growing (λ _. Unit {0}) frame.hops
                      (λ next s _ i. arrive-Growing next (frame.hops ++ next ∷ []) s i)
                      (ordered_neighbors lib pay books req frame.at) 0 (queue, set) (All-Unit _)
                      h.1)
                    (ltb→lt expanded req.budget.expand c) (omega (arith, b))))
            (λ _. (_, refl)))
        (λ _. (_, refl))
    where
      stuck : max_hops lib pay books req ≤ length frame.hops → ⊥
      stuck c = omega (arith, c, h.0)

  -- The walk ends with the fuel that it is given, whatever the callback says.
  pub long_candidates-Ends :
      (found : ℕ × List (List E)) → Ends (long_candidates lib pay books req found)
  unfolding long_candidates
  long_candidates-Ends (k, set) =
      if_keeps Ends (leb 4 (max_hops lib pay books req))
        (λ c.
          walk-Ends (suc req.budget.expand) 0 k (record { at = req.src_asset; hops = [] } ∷ []) set
            (first (leb→le _ _ c), tt) (omega arith) (omega arith))
        (λ _. (_, refl))
    where
      first : 4 ≤ max_hops lib pay books req → 0 < max_hops lib pay books req
      first c = omega (arith, c)
