-- ===== src/Graph/Finder/Choice.antt =====
-- What the two picks and the rest of the discovered paths choose.
use mathlib.Core.List.{append_assoc, append-nil}
use edgy.Prelude.{
  ap, ltb→lt, ◌∙◌, ℕ, ◌<◌, ◌≤◌, Bool, true, false, ◌≡◌, List, [], ◌∷◌, ◌++◌, All, All-append,
  elim_keeps, if_keeps, if◌then◌else◌, ltb, leb, length, length-append, refl, subst, sym, arith,
}
use edgy.Containers.Eq.{Eq, nat_eq, list_eq}
use edgy.Containers.HashSet.{contains}
use edgy.Graph.{Payments, Request}
use edgy.Graph.Budget.{max_path_length, max_path_count}
use edgy.Graph.Ranking.{Rank, path_at, hop_currency_key}
use edgy.Graph.Finder.{Chosen, choose, skip_pick, pick, discover, discover_rest, select}

-- no entry twice
abbrev pub Distinct {ℓ} : {X : Type ℓ} ⦃x : Eq X⦄ → List X → Type 0
Distinct [] = Unit
Distinct (x ∷ xs) = (contains x xs ≡ false) × Distinct xs

-- The paths of one and two hops, and then the others.
abbrev pub ShortFirst : {E : Type 0} → List (List E) → Type 0
ShortFirst {E} paths =
    (short : List (List E)) × (long : List (List E)) × (paths ≡ short ++ long)
    × All (λ p. length p ≤ 2) short
    × All (λ p. 2 < length p) long

module _ {A D E M L : Type 0} (pay : Payments A D E M L) (req : Request A D E M L)
    (candidates : List (List E)) where
  -- What each choice of a path that is not left out keeps, a pick keeps.
  module _ {ℓ} (I : Chosen E → Type ℓ) (P : List E → Type 0) where
    pick_keeps :
        (short_only : Bool) (take : ℕ) (ranks : List (Rank M)) (s : Chosen E)
        → ((path : List E) (u : Chosen E)
            → skip_pick pay req short_only path u.keys ≡ false
            → P path
            → I u
            → I (choose pay req path u))
        → All (λ r. P (path_at r.index candidates)) ranks
        → I s
        → I (pick pay req candidates short_only take ranks s)
    unfolding pick
    pick_keeps short_only take [] s k ps i = i
    pick_keeps short_only take (r ∷ ranks) s k ps i =
        elim_keeps I (leb take (length s.paths)) (λ _. i)
          (λ _.
            elim_keeps I (skip_pick pay req short_only (path_at r.index candidates) s.keys)
              (λ _. pick_keeps short_only take ranks s k ps.1 i)
              (λ c.
                pick_keeps short_only take ranks (choose pay req (path_at r.index candidates) s) k
                  ps.1 (k (path_at r.index candidates) s c ps.0 i)))

  discover-paths :
      (path : List E) (s : Chosen E) → (discover pay req candidates path s).paths ≡ s.paths
  unfolding discover
  discover-paths path s =
      if_keeps (λ (u : Chosen E). u.paths ≡ s.paths) (ltb max_path_length (length path)) (λ _. refl)
        (λ _.
          if_keeps (λ (u : Chosen E). u.paths ≡ s.paths)
            (contains (hop_currency_key pay req path) s.keys) (λ _. refl) (λ _. refl))

  discover_rest-paths :
      (ranks : List (Rank M)) (s : Chosen E)
      → (discover_rest pay req candidates ranks s).paths ≡ s.paths
  unfolding discover_rest
  discover_rest-paths [] s = refl
  discover_rest-paths (r ∷ ranks) s =
      elim_keeps (λ (u : Chosen E). u.paths ≡ s.paths) (leb req.budget.rank (length s.discovered))
        (λ _. refl)
        (λ _.
          discover_rest-paths ranks (discover pay req candidates (path_at r.index candidates) s)
          ∙ discover-paths (path_at r.index candidates) s)

  pub skip_pick-false :
      (short_only : Bool) (path : List E) (keys : List (List ℕ))
      → skip_pick pay req short_only path keys ≡ false
      → (length path ≤ max_path_length)
        × (short_only ≡ true → length path ≤ 2)
        × (short_only ≡ false → 2 < length path)
        × (contains (hop_currency_key pay req path) keys ≡ false)
  unfolding skip_pick
  skip_pick-false true path keys c =
      (ground arith, (λ _. ground arith), (λ f. ground arith), ground arith)
  skip_pick-false false path keys c =
      (ground arith, (λ f. ground arith), (λ _. ground arith), ground arith)

  abbrev pub start : Chosen E
  start = record { keys = []; paths = []; discovered = [] }

  -- What holds at the start and is kept by both picks holds of the paths that are chosen.
  pub select_keeps {ℓ κ} :
      (I : Chosen E → Type ℓ) (J : Chosen E → Type κ) (K : List (List E) → Type κ)
      (P : List E → Type 0) (ranks : List (Rank M))
      → ((path : List E) (u : Chosen E)
          → skip_pick pay req true path u.keys ≡ false
          → P path
          → I u
          → I (choose pay req path u))
      → ((path : List E) (u : Chosen E)
          → skip_pick pay req false path u.keys ≡ false
          → P path
          → J u
          → J (choose pay req path u))
      → ((u : Chosen E) → I u → J u)
      → ((u : Chosen E) → J u → K u.paths)
      → All (λ r. P (path_at r.index candidates)) ranks
      → I start
      → K (select pay req candidates ranks).paths
  unfolding select
  select_keeps I J K P ranks short long turn done ps i =
      subst K (sym (discover_rest-paths ranks _)) (
        done _ (
          pick_keeps J P false _ ranks _ long ps
            (turn _ (pick_keeps I P true _ ranks _ short ps i))))

  chosen-Payable :
      (P : List E → Type 0) (path : List E) (paths : List (List E))
      → length path ≤ max_path_length
      → P path
      → (length paths ≤ max_path_count) × All (λ p. (length p ≤ max_path_length) × P p) paths
      → (length (if ltb (length paths) max_path_count then paths ++ path ∷ [] else paths)
          ≤ max_path_count)
        × All
            (λ p. (length p ≤ max_path_length) × P p)
            (if ltb (length paths) max_path_count then paths ++ path ∷ [] else paths)
  chosen-Payable P path paths l p h = added (ltb (length paths) max_path_count) (ltb→lt _ _)
    where
      added :
          (b : Bool)
          → (b ≡ true → length paths < max_path_count)
          → (length (if b then paths ++ path ∷ [] else paths) ≤ max_path_count)
            × All
                (λ p. (length p ≤ max_path_length) × P p)
                (if b then paths ++ path ∷ [] else paths)
      added true f = (
        omega (arith, f refl, length-append paths (path ∷ [])),
        All-append _ paths _ h.1 ((l, p), tt),
      )
      added false f = h

  -- At most six paths are chosen, of at most eight elements each, and each stands for a rank.
  pub select-Payable :
      (P : List E → Type 0) (ranks : List (Rank M))
      → All (λ r. P (path_at r.index candidates)) ranks
      → (length (select pay req candidates ranks).paths ≤ max_path_count)
        × All (λ p. (length p ≤ max_path_length) × P p) (select pay req candidates ranks).paths
  unfolding choose
  select-Payable P ranks ps =
      select_keeps Few Few FewOf P ranks (keeps true) (keeps false) (λ u h. h) (λ u h. h) ps
        (omega arith, tt)
    where
      FewOf : List (List E) → Type 0
      FewOf paths =
          (length paths ≤ max_path_count) × All (λ p. (length p ≤ max_path_length) × P p) paths

      Few : Chosen E → Type 0
      Few u = FewOf u.paths

      keeps :
          (b : Bool) (path : List E) (u : Chosen E)
          → skip_pick pay req b path u.keys ≡ false
          → P path
          → Few u
          → Few (choose pay req path u)
      keeps b path u c p h = chosen-Payable P path u.paths (skip_pick-false b path u.keys c).0 p h

  -- The paths of one and two hops come before the longer ones.
  pub select-ShortFirst :
      (ranks : List (Rank M)) → ShortFirst (select pay req candidates ranks).paths
  unfolding choose
  select-ShortFirst ranks =
      select_keeps Short (λ u. ShortFirst u.paths) ShortFirst (λ _. Unit {0}) ranks short long
        (λ u h. (u.paths, [], sym (append-nil u.paths), h, tt)) (λ u h. h) (everything ranks) tt
    where
      Short : Chosen E → Type 0
      Short u = All (λ p. length p ≤ 2) u.paths

      everything : (rs : List (Rank M)) → All (λ _. Unit {0}) rs
      everything [] = tt
      everything (r ∷ rs) = (tt, everything rs)

      short :
          (path : List E) (u : Chosen E)
          → skip_pick pay req true path u.keys ≡ false
          → Unit {0}
          → Short u
          → Short (choose pay req path u)
      short path u c _ h =
          if_keeps (All (λ p. length p ≤ 2)) (ltb (length u.paths) max_path_count)
            (λ _.
              All-append _ u.paths (path ∷ []) h ((skip_pick-false true path u.keys c).1 refl, tt))
            (λ _. h)

      long :
          (path : List E) (u : Chosen E)
          → skip_pick pay req false path u.keys ≡ false
          → Unit {0}
          → ShortFirst u.paths
          → ShortFirst (choose pay req path u).paths
      long path u c _ (xs, ys, e, hs, hl) =
          if_keeps ShortFirst (ltb (length u.paths) max_path_count)
            (λ _. (
              xs,
              ys ++ path ∷ [],
              ap (λ ps. ps ++ path ∷ []) e ∙ append_assoc xs ys (path ∷ []),
              hs,
              All-append _ ys (path ∷ []) hl ((skip_pick-false false path u.keys c).2 refl, tt),
            ))
            (λ _. (xs, ys, e, hs, hl))
