-- ===== src/Graph/Candidates.antt =====
-- The candidates of `FastPathFinder::search`: the book paths of one and two hops by their quality,
-- the paths of three hops by way of XRP, and the paths that the caller adds.
-- std::ranges::sort may leave equal pairs in any order; here they keep the order they came in.
pub mod Keeps
pub mod Routes
use edgy.Prelude.{
  ℕ, suc, ◌+◌, ◌-◌, ◌/◌, Bool, true, false, ◌&&◌, ◌||◌, not, ltb, leb, ◌==◌, if◌then◌else◌, List,
  [], ◌∷◌, ◌++◌, map, length,
}
use edgy.Containers.Eq.{Eq, list_eq}
use edgy.Containers.HashSet.{contains}
use edgy.Books.{Xrpl, Books}
use edgy.Books.Query.{tip_quality, no_quality, has_book, intermediates}
use edgy.Graph.{Payments, Request}
use edgy.Graph.Budget.{clamp, max_path_length}

-- std::ranges::sort
module _ {X : Type 0} (before : X → X → Bool) where
  insert_by : X → List X → List X
  insert_by x [] = x ∷ []
  insert_by x (y ∷ ys) = let rest = insert_by x ys in if before y x then y ∷ rest else x ∷ y ∷ ys

  unfoldable pub sort : List X → List X
  unfolding insert_by
  sort [] = []
  sort (x ∷ xs) = insert_by x (sort xs)

module _ {E : Type 0} ⦃e : Eq E⦄ where
  -- pathSetPush
  path_set_push : List (List E) → List E → List (List E)
  path_set_push set path = if contains path set then set else set ++ path ∷ []

  -- addPath
  unfoldable pub add_path : List (List E) → List E → List (List E)
  unfolding path_set_push
  add_path set path =
      if length path == 0 || ltb max_path_length (length path)
      then set
      else if leb 256 (length set)
      then set
      else path_set_push set path

  pub add_all : List (List E) → List (List E) → List (List E)
  add_all set [] = set
  add_all set (path ∷ paths) = add_all (add_path set path) paths

  -- for (auto const& path : extra)
  unfoldable pub add_extra : List (List E) → List (List E) → List (List E)
  add_extra set [] = set
  add_extra set (path ∷ paths) =
      add_extra (if leb (length path) max_path_length then add_path set path else set) paths

-- The loop over the intermediates: `k` calls of the callback were made, `n` of the assets acted on.
module _ {A S : Type 0} (go : ℕ → Bool) (skip : A → Bool) (limit : ℕ) (act : A → S → S) where
  pub each_mid : List A → ℕ → ℕ → S → ℕ × S
  each_mid [] n k s = (k, s)
  each_mid (mid ∷ mids) n k s = elim (go k) [
    | false ↦ (suc k, s)
    | true ↦ elim (skip mid) [
      | true ↦ each_mid mids n (suc k) s
      | false ↦ elim (leb limit (suc n)) [
        | true ↦ (suc k, act mid s)
        | false ↦ each_mid mids (suc n) (suc k) (act mid s)
      ]
    ]
  ]

pub record Scored (A : Type 0) : Type 0 where
  pub score : ℕ
  pub hops : List A

-- The order of the pairs.
scored_before : {A : Type 0} → Scored A → Scored A → Bool
scored_before a b =
    if a.score == b.score then ltb (length a.hops) (length b.hops) else ltb a.score b.score

-- operator== of assets
module _ {A : Type 0} ⦃a : Eq A⦄ where
  unfoldable pub same_asset : A → A → Bool
  same_asset x y = elim (a.dec x y) [ yes _ ↦ true | no _ ↦ false ]

module _ {A T D E M L : Type 0} ⦃a : Eq A⦄ ⦃t : Eq T⦄ ⦃d : Eq D⦄ ⦃e : Eq E⦄ (lib : Xrpl A T)
    (pay : Payments A D E M L) (books : Books A T D) (req : Request A D E M L) where
  open lib use {is_xrp}
  open pay use {xrp, equal_tokens, book_element}

  pub dst_asset : A
  dst_asset = pay.asset req.dst_amount

  -- bookPath
  pub book_path : List A → List E
  book_path hops = map book_element hops

  edge_q : A → A → ℕ
  edge_q x y =
      let q = tip_quality lib x y req.domain books in if q == no_quality then no_quality / 2 else q

  -- the sum of two qualities, which stays at the largest uint64
  add_q : ℕ → ℕ → ℕ
  add_q q nq = if ltb (no_quality - q) nq then no_quality else q + nq

  path_from : A → ℕ → List A → ℕ
  path_from at q [] = q
  path_from at q (hop ∷ hops) = path_from hop (add_q q (edge_q at hop)) hops

  pub path_q : List A → ℕ
  unfolding path_from
  path_q [] = no_quality
  path_q (hop ∷ hops) = path_from hop (edge_q req.src_asset hop) hops

  scored : List A → Scored A
  scored hops = record { score = path_q hops; hops = hops }

  exists_book : A → A → Bool
  exists_book x y = has_book lib x y req.domain books

  direct_pairs : List (Scored A)
  direct_pairs = if exists_book req.src_asset dst_asset then scored (dst_asset ∷ []) ∷ [] else []

  -- neither end is XRP
  between_tokens : Bool
  between_tokens = not (is_xrp req.src_asset) && not (is_xrp dst_asset)

  xrp_pairs : List (Scored A)
  xrp_pairs =
      if between_tokens && (exists_book req.src_asset xrp && exists_book xrp dst_asset)
      then scored (xrp ∷ dst_asset ∷ []) ∷ []
      else []

  skip_pair : A → Bool
  skip_pair mid =
      (same_asset mid req.src_asset
        || (same_asset mid dst_asset
            || (equal_tokens mid req.src_asset || equal_tokens mid dst_asset)))
      || (between_tokens && is_xrp mid)

  pairs : ℕ × List (Scored A)
  pairs =
      each_mid req.go skip_pair req.budget.two_hop
        (λ mid found. found ++ scored (mid ∷ dst_asset ∷ []) ∷ [])
        (intermediates lib req.src_asset dst_asset req.domain books) 0 0 (direct_pairs ++ xrp_pairs)

  pub pair_candidates : ℕ × List (List E)
  unfolding pairs add_all scored_before sort
  pair_candidates = (pairs.0, add_all [] (map (λ p. book_path p.hops) (sort scored_before pairs.1)))

  -- maxHops
  pub max_hops : ℕ
  max_hops = clamp req.budget.max_hops 1 max_path_length

  skip_hub : A → Bool
  skip_hub mid = is_xrp mid || (equal_tokens mid req.src_asset || equal_tokens mid dst_asset)

  -- src, mid, XRP, dst
  to_xrp : ℕ × List (List E) → ℕ × List (List E)
  to_xrp (k, set) =
      if leb 3 max_hops && (not (is_xrp dst_asset) && exists_book xrp dst_asset)
      then each_mid req.go skip_hub (req.budget.two_hop / 2)
          (λ mid s. add_path s (book_path (mid ∷ xrp ∷ dst_asset ∷ [])))
          (intermediates lib req.src_asset xrp req.domain books) 0 k set
      else (k, set)

  -- src, XRP, mid, dst
  from_xrp : ℕ × List (List E) → ℕ × List (List E)
  from_xrp (k, set) =
      if leb 3 max_hops && (not (is_xrp req.src_asset) && exists_book req.src_asset xrp)
      then each_mid req.go skip_hub (req.budget.two_hop / 2)
          (λ mid s. add_path s (book_path (xrp ∷ mid ∷ dst_asset ∷ [])))
          (intermediates lib xrp dst_asset req.domain books) 0 k set
      else (k, set)

  pub short_candidates : ℕ × List (List E)
  unfolding pair_candidates to_xrp from_xrp
  short_candidates = from_xrp (to_xrp pair_candidates)
