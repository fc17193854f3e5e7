-- ===== src/Graph/Finder.antt =====
-- `FastPathFinder::search`: the candidates, their ranking and the choice among them.
pub mod Choice
pub mod Keys
pub mod Results
use edgy.Prelude.{
  ℕ, suc, zero, Bool, true, false, ltb, leb, min, if◌then◌else◌, Option, none, some, List, [], ◌∷◌,
  ◌++◌, length,
}
use edgy.Containers.Eq.{Eq, nat_eq, list_eq}
use edgy.Containers.HashSet.{contains, insert}
use edgy.Books.{Xrpl, Books}
use edgy.Graph.{Payments, Request, FastPathResult}
use edgy.Graph.Budget.{max_path_length, max_path_count}
use edgy.Graph.Candidates.{short_candidates, add_extra}
use edgy.Graph.Walk.{long_candidates}
use edgy.Graph.Ranking.{
  path_at, Rank, hop_currency_key, src_max_amount, min_dst_amount, rank_all, path_find_max_paths,
}

-- What the choice has made so far: the keys, and the two path sets of the result.
pub record Chosen (E : Type 0) : Type 0 where
  pub keys : List (List ℕ)
  pub paths : List (List E)
  pub discovered : List (List E)

module _ {A D E M L : Type 0} (pay : Payments A D E M L) (req : Request A D E M L) where
  pub choose : List E → Chosen E → Chosen E
  choose path s = record s {
    keys = insert (hop_currency_key pay req path) s.keys;
    paths = if ltb (length s.paths) max_path_count then s.paths ++ path ∷ [] else s.paths;
    discovered = s.discovered ++ path ∷ [];
  }

  -- pick(shortOnly) leaves out the paths of the other kind, and the keys that were chosen.
  pub skip_pick : Bool → List E → List (List ℕ) → Bool
  skip_pick short_only path keys =
      if ltb max_path_length (length path)
      then true
      else if short_only
      then if ltb 2 (length path) then true else contains (hop_currency_key pay req path) keys
      else if leb (length path) 2
      then true
      else contains (hop_currency_key pay req path) keys

  module _ (candidates : List (List E)) where
    pick : Bool → ℕ → List (Rank M) → Chosen E → Chosen E
    pick short_only take [] s = s
    pick short_only take (r ∷ ranks) s = elim (leb take (length s.paths)) [
      | true ↦ s
      | false ↦ elim (skip_pick short_only (path_at r.index candidates) s.keys) [
        | true ↦ pick short_only take ranks s
        | false ↦ pick short_only take ranks (choose (path_at r.index candidates) s)
      ]
    ]

    discover : List E → Chosen E → Chosen E
    discover path s =
        if ltb max_path_length (length path)
        then s
        else if contains (hop_currency_key pay req path) s.keys
        then s
        else record s {
          keys = insert (hop_currency_key pay req path) s.keys;
          discovered = s.discovered ++ path ∷ [];
        }

    discover_rest : List (Rank M) → Chosen E → Chosen E
    discover_rest [] s = s
    discover_rest (r ∷ ranks) s = elim (leb req.budget.rank (length s.discovered)) [
      | true ↦ s
      | false ↦ discover_rest ranks (discover (path_at r.index candidates) s)
    ]

    pub select : List (Rank M) → Chosen E
    unfolding pick discover_rest
    select ranks =
        let take = min (length ranks) (min path_find_max_paths max_path_count) in
        let short = pick true take ranks (record { keys = []; paths = []; discovered = [] }) in
        discover_rest ranks (pick false take ranks short)

module _ {A T D E M L : Type 0} ⦃a : Eq A⦄ ⦃t : Eq T⦄ ⦃d : Eq D⦄ ⦃e : Eq E⦄ (lib : Xrpl A T)
    (pay : Payments A D E M L) (books : Books A T D) (req : Request A D E M L) where
  no_result : ℕ → FastPathResult E
  no_result candidates = record {
    paths = [];
    discovered = [];
    candidates = candidates;
    ranked = 0;
    depth = req.budget.depth;
  }

  -- The part after the candidates.
  rank_and_select : L → ℕ → List (List E) → FastPathResult E
  rank_and_select ledger calls candidates =
      let ranks =
        rank_all pay req ledger (src_max_amount pay req lib) (min_dst_amount pay req) calls
          candidates in
      let chosen = select pay req candidates ranks in
      record {
        paths = chosen.paths;
        discovered = chosen.discovered;
        candidates = length candidates;
        ranked = length ranks;
        depth = req.budget.depth;
      }

  with_candidates : L → ℕ → List (List E) → FastPathResult E
  unfolding rank_and_select no_result
  with_candidates ledger calls [] = no_result 0
  with_candidates ledger calls (path ∷ paths) = rank_and_select ledger calls (path ∷ paths)

  -- none only where the walk is out of fuel
  pub search : Option (FastPathResult E)
  unfolding with_candidates no_result
  search = elim req.ledger [
    | none ↦ some (no_result 0)
    | some ledger ↦ elim (long_candidates lib pay books req (short_candidates lib pay books req)) [
      | none ↦ none
      | some found ↦ some (with_candidates ledger found.0 (add_extra found.1 req.extra))
    ]
  ]
