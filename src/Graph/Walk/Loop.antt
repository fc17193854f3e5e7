-- ===== src/Graph/Walk/Loop.antt =====
-- What each arrival keeps, the loop over the neighbors keeps.
use edgy.Prelude.{ℕ, suc, List, [], ◌∷◌, ◌++◌, All, elim_keeps, leb, ltb, length, ◌||◌}
use edgy.Containers.Eq.{Eq}
use edgy.Books.{Xrpl, Books}
use edgy.Graph.{Payments, Request}
use edgy.Graph.Candidates.{max_hops}
use edgy.Graph.Walk.{Frame, arrive, branch_over, skip_next}

module _ {ℓ κ} {A T D E M L : Type 0} ⦃a : Eq A⦄ ⦃t : Eq T⦄ ⦃d : Eq D⦄ ⦃e : Eq E⦄ (lib : Xrpl A T)
    (pay : Payments A D E M L) (books : Books A T D) (req : Request A D E M L)
    (I : List (Frame A) × List (List E) → Type ℓ) (P : A → Type κ) (hops : List A)
    (keeps : (next : A) (s : List (Frame A) × List (List E))
      → P next
      → I s
      → I (arrive lib pay books req next (hops ++ next ∷ []) s)) where
  pub branch_over_keeps :
      (nexts : List A) (n : ℕ) (s : List (Frame A) × List (List E))
      → All P nexts
      → I s
      → I (branch_over lib pay books req hops nexts n s)
  unfolding branch_over
  branch_over_keeps [] n s ps i = i
  branch_over_keeps (next ∷ nexts) n s ps i =
      elim_keeps I
        (skip_next lib pay books req hops next
          || ltb (max_hops lib pay books req) (length (hops ++ next ∷ [])))
        (λ _. branch_over_keeps nexts n s ps.1 i)
        (λ _.
          elim_keeps I (leb req.budget.branch (suc n)) (λ _. keeps next s ps.0 i)
            (λ _.
              branch_over_keeps nexts (suc n) (arrive lib pay books req next (hops ++ next ∷ []) s)
                ps.1 (keeps next s ps.0 i)))
