-- ===== src/Graph/Ranking/Liquid.antt =====
-- Each rank stands for a candidate that RippleCalc found liquid.
use edgy.Prelude.{
  arith, ap, ℕ, suc, ◌+◌, ◌≡◌, List, [], ◌∷◌, All, All-append, elim_keeps, ltb, refl, subst, sym,
}
use edgy.Graph.{Payments, Request, Calc, threw, failed, delivered}
use edgy.Graph.Candidates.Keeps.{sort-All}
use edgy.Graph.Ranking.{
  Rank, Ranked, path_at, note_rank, rank_path, skip_path, rank_loop, rank_all, rank_before,
}

module _ {A D E M L : Type 0} (pay : Payments A D E M L) (req : Request A D E M L) (ledger : L)
    (max_amount dst_amount : M) where
  abbrev calc : List E → Calc M
  calc path = pay.ripple_calculate ledger max_amount dst_amount req.dst req.src path req.domain

  -- RippleCalc delivers something over the path.
  abbrev pub IsLiquid : List E → Type 0
  IsLiquid path = (out : M) × (taken : M) × (calc path ≡ delivered out taken)

module _ {ℓ} {A D E M L : Type 0} (pay : Payments A D E M L) (req : Request A D E M L) (ledger : L)
    (max_amount dst_amount : M) (Q : List E → Type ℓ) where
  abbrev pub Stands : List (List E) → Rank M → Type ℓ
  Stands candidates r =
      Q (path_at r.index candidates)
      × IsLiquid pay req ledger max_amount dst_amount (path_at r.index candidates)

  note_rank-Stands :
      (candidates : List (List E)) (index : ℕ) (path : List E) (c : Calc M) (ranks : List (Rank M))
      → path_at index candidates ≡ path
      → Q path
      → calc pay req ledger max_amount dst_amount path ≡ c
      → All (Stands candidates) ranks
      → All (Stands candidates) (note_rank pay req ledger max_amount dst_amount index path c ranks)
  unfolding note_rank
  note_rank-Stands candidates index path threw ranks e q h rs = rs
  note_rank-Stands candidates index path failed ranks e q h rs = rs
  note_rank-Stands candidates index path (delivered out taken) ranks e q h rs =
      All-append (Stands candidates) ranks _ rs (
        subst (λ p. Q p × IsLiquid pay req ledger max_amount dst_amount p) (sym e)
            (q, (out, taken, h)),
        tt,
      )

  rank_loop-Stands :
      (candidates : List (List E)) (limit : ℕ) (paths : List (List E)) (index : ℕ) (s : Ranked M)
      → ((n : ℕ) → path_at (n + index) candidates ≡ path_at n paths)
      → All Q paths
      → All (Stands candidates) s.ranks
      → All
          (Stands candidates)
          (rank_loop pay req ledger max_amount dst_amount limit paths index s).ranks
  unfolding rank_loop rank_path path_at
  rank_loop-Stands candidates limit [] index s e qs rs = rs
  rank_loop-Stands candidates limit (path ∷ paths) index s e qs rs =
      elim_keeps I (ltb s.count limit)
        (λ _.
          elim_keeps I (req.go s.calls)
            (λ _.
              elim_keeps I (skip_path pay req ledger max_amount dst_amount path s.keys)
                (λ _. rank_loop-Stands candidates limit paths (suc index) _ rest qs.1 rs)
                (λ _.
                  rank_loop-Stands candidates limit paths (suc index) _ rest qs.1
                    (note_rank-Stands candidates index path _ s.ranks first qs.0 refl rs)))
            (λ _. rs))
        (λ _. rs)
    where
      I : Ranked M → Type ℓ
      I r = All (Stands candidates) r.ranks

      first : path_at index candidates ≡ path
      first = subst (λ k. path_at k candidates ≡ path) (omega arith) (e 0)

      rest : (n : ℕ) → path_at (n + suc index) candidates ≡ path_at n paths
      rest n = subst (λ k. path_at k candidates ≡ path_at n paths) (omega arith) (e (suc n))

  pub rank_all-Stands :
      (calls : ℕ) (candidates : List (List E))
      → All Q candidates
      → All (Stands candidates) (rank_all pay req ledger max_amount dst_amount calls candidates)
  unfolding rank_all
  rank_all-Stands calls candidates qs = sort-All (rank_before pay req) (Stands candidates) _ (
      rank_loop-Stands candidates _ candidates 0 _
        (λ n. ap (λ k. path_at k candidates) (omega arith)) qs tt)
