-- ===== src/Graph/Walk.antt =====
-- The breadth-first walk of `FastPathFinder::search` for paths of four hops and more.
-- The loop takes fuel: each round that does not end it expands a frame, and `budget.expand` bounds
-- those.
pub mod Loop
pub mod Keeps
pub mod Total
use edgy.Prelude.{
  ℕ, suc, zero, Bool, true, false, ◌||◌, not, ltb, leb, if◌then◌else◌, Option, none, some, List, [],
  ◌∷◌, ◌++◌, length,
}
use edgy.Containers.Eq.{Eq}
use edgy.Containers.HashSet.{contains}
use edgy.Books.{Xrpl, Books}
use edgy.Books.Query.{neighbors, get_book_size}
use edgy.Graph.{Payments, Request}
use edgy.Graph.Candidates.{sort, add_path, same_asset, dst_asset, book_path, max_hops}

pub record Frame (A : Type 0) : Type 0 where
  pub at : A
  pub hops : List A

module _ {X : Type 0} (test : X → Bool) where
  pub filter : List X → List X
  filter [] = []
  filter (x ∷ xs) = let rest = filter xs in if test x then x ∷ rest else rest

-- std::ranges::stable_partition
partition : {X : Type 0} → (X → Bool) → List X → List X
unfolding filter
partition test xs = filter test xs ++ filter (λ x. not (test x)) xs

-- All but at most `n` of the first, which pass the test, are sorted.
sort_after : {X : Type 0} → (X → Bool) → (X → X → Bool) → ℕ → List X → List X
unfolding sort
sort_after test before zero xs = sort before xs
sort_after test before (suc n) [] = []
sort_after test before (suc n) (x ∷ xs) =
    let rest = sort_after test before n xs in if test x then x ∷ rest else sort before (x ∷ xs)

module _ {A T D E M L : Type 0} ⦃a : Eq A⦄ ⦃t : Eq T⦄ ⦃d : Eq D⦄ ⦃e : Eq E⦄ (lib : Xrpl A T)
    (pay : Payments A D E M L) (books : Books A T D) (req : Request A D E M L) where
  open lib use {is_xrp}
  open pay use {equal_tokens}

  is_hub : A → Bool
  is_hub x = same_asset x (dst_asset lib pay books req) || is_xrp x

  larger : A → A → Bool
  larger x y = ltb (get_book_size lib y req.domain books) (get_book_size lib x req.domain books)

  ordered_neighbors : A → List A
  ordered_neighbors at =
      let out = partition is_hub (neighbors lib at req.domain books) in
      if ltb 2 (length out) then sort_after is_hub larger 2 out else out

  pub skip_next : List A → A → Bool
  skip_next hops next =
      same_asset next req.src_asset || (equal_tokens next req.src_asset || contains next hops)

  -- A path that arrives is a candidate; one that may still grow waits in the queue.
  pub arrive : A → List A → List (Frame A) × List (List E) → List (Frame A) × List (List E)
  arrive next hops (queue, set) =
      if same_asset next (dst_asset lib pay books req)
      then (queue, add_path set (book_path lib pay books req hops))
      else if ltb (length hops) (max_hops lib pay books req)
      then (queue ++ record { at = next; hops = hops } ∷ [], set)
      else (queue, set)

  -- The loop over the neighbors, of which `branched` were taken.
  pub branch_over :
      List A → List A → ℕ → List (Frame A) × List (List E) → List (Frame A) × List (List E)
  branch_over hops [] branched s = s
  branch_over hops (next ∷ nexts) branched s =
      elim (skip_next hops next || ltb (max_hops lib pay books req) (length (hops ++ next ∷ []))) [
        | true ↦ branch_over hops nexts branched s
        | false ↦ elim (leb req.budget.branch (suc branched)) [
          | true ↦ arrive next (hops ++ next ∷ []) s
          | false ↦ branch_over hops nexts (suc branched) (arrive next (hops ++ next ∷ []) s)
        ]
      ]

  walk : ℕ → ℕ → ℕ → List (Frame A) → List (List E) → Option (ℕ × List (List E))
  walk zero expanded k queue set = none
  walk (suc fuel) expanded k [] set = some (k, set)
  walk (suc fuel) expanded k (frame ∷ queue) set = elim (ltb expanded req.budget.expand) [
    | false ↦ some (k, set)
    | true ↦ elim (req.go k) [
      | false ↦ some (suc k, set)
      | true ↦ elim (leb (max_hops lib pay books req) (length frame.hops)) [
        | true ↦ walk fuel expanded (suc k) queue set
        | false ↦
            let next = branch_over frame.hops (ordered_neighbors frame.at) 0 (queue, set) in
            walk fuel (suc expanded) (suc k) next.0 next.1
      ]
    ]
  ]

  pub long_candidates : ℕ × List (List E) → Option (ℕ × List (List E))
  unfolding walk
  long_candidates (k, set) =
      if leb 4 (max_hops lib pay books req)
      then walk (suc req.budget.expand) 0 k (record { at = req.src_asset; hops = [] } ∷ []) set
      else some (k, set)
