-- ===== src/Graph/Budget/Bounds.antt =====
-- What the depth and the widths of a search are bounded by, and that a subscription only climbs.
use edgy.Prelude.{
  inr, inl, ◌<◌, ◌⊎◌, ℕ, Bool, ◌≤◌, ◌≡◌, true, false, arith, refl, if◌then◌else◌, ◌==◌, max,
}
use edgy.Graph.Budget.{
  ℤ, pos, negsuc, clamp_int, depth_for, max_depth, for_depth, SearchBudget, climb, from_age,
  from_updates, clamp, budget_at, widths, max_path_length,
}

-- searchesDone of the same subscription, earlier and later
abbrev pub Later : ℤ → ℤ → Type 0
Later (pos n) (pos m) = n ≤ m
Later (negsuc n) (pos m) = Unit
Later (pos n) (negsuc m) = ⊥
Later (negsuc n) (negsuc m) = m ≤ n

clamp_int_max : (x : ℤ) (high : ℕ) → clamp_int x high ≤ high
clamp_int_max (pos n) high = ground arith
clamp_int_max (negsuc n) high = ground arith

from_age_mono :
    (age later lo hi : ℕ) → age ≤ later → lo < hi → from_age age lo hi ≤ from_age later lo hi
unfolding from_age
from_age_mono age later lo hi h b = ground arith

from_updates_mono :
    (n m : ℤ) (lo hi : ℕ) → Later n m → lo ≤ hi → from_updates n lo hi ≤ from_updates m lo hi
unfolding from_updates
from_updates_mono (pos n) (pos m) lo hi h b = ground arith
from_updates_mono (pos n) (negsuc m) lo hi h b = elim h [ ]
from_updates_mono (negsuc n) (pos m) lo hi h b = ground arith
from_updates_mono (negsuc n) (negsuc m) lo hi h b = ground arith

clamp_mono : (a b c d lo hi : ℕ) → a ≤ c → b ≤ d → clamp (max a b) lo hi ≤ clamp (max c d) lo hi
clamp_mono a b c d lo hi h g = ground arith

climb_mono :
    (n m : ℤ) (age later lo hi : ℕ)
    → Later n m
    → age ≤ later
    → lo < hi
    → climb n age lo hi ≤ climb m later lo hi
unfolding climb
climb_mono n m age later lo hi h g b =
    clamp_mono _ _ _ _ lo hi (from_updates_mono n m lo hi h (omega arith))
      (from_age_mono age later lo hi g b)

clamp-bounds : (x lo hi : ℕ) → lo ≤ hi → (lo ≤ clamp x lo hi) × (clamp x lo hi ≤ hi)
clamp-bounds x lo hi h = (ground arith, ground arith)

-- The depth is at most the configured one and the deepest, and never below the fast one.
pub depth_for-bounds :
    (one_shot : Bool) (n : ℤ) (age : ℕ) (fast search : ℤ)
    → (clamp_int fast (clamp_int search max_depth) ≤ depth_for one_shot n age fast search)
      × (depth_for one_shot n age fast search ≤ clamp_int search max_depth)
      × (depth_for one_shot n age fast search ≤ 4)
unfolding depth_for climb
depth_for-bounds one_shot n age fast search =
    chosen one_shot lo hi _ (clamp_int_max fast hi) (clamp_int_max search 4)
      (clamp-bounds _ lo hi (clamp_int_max fast hi))
  where
    hi : ℕ
    hi = clamp_int search max_depth

    lo : ℕ
    lo = clamp_int fast hi

    chosen :
        (b : Bool) (x y c : ℕ)
        → x ≤ y
        → y ≤ 4
        → (x ≤ c) × (c ≤ y)
        → (x ≤ (if b then y else if x == y then y else c))
          × ((if b then y else if x == y then y else c) ≤ y)
          × ((if b then y else if x == y then y else c) ≤ 4)
    chosen b x y c h g k = (ground arith, ground arith, ground arith)

-- A subscription only climbs: with more searches done and a greater age the depth is not less.
pub depth_for_mono :
    (one_shot : Bool) (n m : ℤ) (age later : ℕ) (fast search : ℤ)
    → Later n m
    → age ≤ later
    → depth_for one_shot n age fast search ≤ depth_for one_shot m later fast search
unfolding depth_for
depth_for_mono one_shot n m age later fast search h g =
    chosen one_shot lo hi _ _ (clamp_int_max fast hi) (climb_mono n m age later lo hi h g)
  where
    hi : ℕ
    hi = clamp_int search max_depth

    lo : ℕ
    lo = clamp_int fast hi

    chosen :
        (b : Bool) (x y c d : ℕ)
        → x ≤ y
        → (x < y → c ≤ d)
        → (if b then y else if x == y then y else c) ≤ (if b then y else if x == y then y else d)
    chosen b x y c d h k = ground arith

top : (a b lo hi : ℕ) → lo ≤ hi → (hi ≤ b) ⊎ (hi ≤ a) → clamp (max a b) lo hi ≡ hi
top a b lo hi h g = ground arith

climb_full :
    (n age lo hi : ℕ) → lo ≤ hi → hi ≤ 4 → (50000 ≤ age) ⊎ (4 ≤ n) → climb (pos n) age lo hi ≡ hi
unfolding climb from_updates from_age
climb_full n age lo hi h g (inl old) = top _ _ lo hi h (inl (ground arith))
climb_full n age lo hi h g (inr many) = top _ _ lo hi h (inr (ground arith))

-- A one-shot request, one that is fifty seconds old and one that was searched four times get the
-- configured depth.
depth_for_full :
    (one_shot : Bool) (n age : ℕ) (fast search : ℤ)
    → (one_shot ≡ true) ⊎ ((50000 ≤ age) ⊎ (4 ≤ n))
    → depth_for one_shot (pos n) age fast search ≡ clamp_int search max_depth
unfolding depth_for
depth_for_full one_shot n age fast search h =
    chosen one_shot lo hi _ h
      (climb_full n age lo hi (clamp_int_max fast hi) (clamp_int_max search 4))
  where
    hi : ℕ
    hi = clamp_int search max_depth

    lo : ℕ
    lo = clamp_int fast hi

    chosen :
        (b : Bool) (x y c : ℕ)
        → (b ≡ true) ⊎ ((50000 ≤ age) ⊎ (4 ≤ n))
        → ((50000 ≤ age) ⊎ (4 ≤ n) → c ≡ y)
        → (if b then y else if x == y then y else c) ≡ y
    chosen true x y c h k = refl
    chosen false x y c (inr h) k = let e = k h in ground arith
    chosen false x y c (inl h) k = ground arith

-- each width of the one budget against the other's
abbrev pub Narrower : SearchBudget → SearchBudget → Type 0
Narrower b c =
    (b.depth ≤ c.depth)
    × (b.max_hops ≤ c.max_hops)
    × (b.two_hop ≤ c.two_hop)
    × (b.expand ≤ c.expand)
    × (b.branch ≤ c.branch)
    × (b.rank ≤ c.rank)
    × (b.auto_sources ≤ c.auto_sources)

budget_at_mono :
    (d e : ℕ)
    → d ≤ e
    → Narrower (budget_at d) (budget_at e)
      × ((budget_at e).max_hops ≤ max_path_length)
      × (1 ≤ (budget_at d).max_hops)
unfolding budget_at widths
budget_at_mono d e h = (
  (
    ground arith,
    ground arith,
    ground arith,
    ground arith,
    ground arith,
    ground arith,
    ground arith,
  ),
  ground arith,
  ground arith,
)

-- No width of a budget is less at a greater depth, and a path is never longer than a payment allows.
for_depth_mono :
    (d e : ℤ)
    → clamp_int d max_depth ≤ clamp_int e max_depth
    → Narrower (for_depth d) (for_depth e)
      × ((for_depth e).max_hops ≤ max_path_length)
      × (1 ≤ (for_depth d).max_hops)
unfolding for_depth
for_depth_mono d e h = budget_at_mono (clamp_int d max_depth) (clamp_int e max_depth) h

-- The depth of a budget is the depth asked for, if that is no more than the greatest.
pub for_depth-depth : (n : ℕ) → n ≤ max_depth → (for_depth (pos n)).depth ≡ n
unfolding for_depth budget_at widths
for_depth-depth n h = ground arith
