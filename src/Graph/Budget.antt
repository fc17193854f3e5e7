-- ===== src/Graph/Budget.antt =====
-- `SearchBudget`: how wide a walk may go, by the depth of the search, and the depth that a
-- subscription has climbed to.
pub mod Bounds
use edgy.Prelude.{◌/◌, ◌*◌, ◌-◌, ◌+◌, ℕ, suc, min, max, Bool, true, false, if◌then◌else◌, leb, ◌==◌}

-- int, where a caller may give a negative one
pub data ℤ : Type 0 where
  pos : ℕ → ℤ
  negsuc : ℕ → ℤ

pub record SearchBudget : Type 0 where
  pub depth : ℕ
  pub max_hops : ℕ
  pub two_hop : ℕ
  pub expand : ℕ
  pub branch : ℕ
  pub rank : ℕ
  pub auto_sources : ℕ

-- kMaxPathLength, kMaxPathCount and kMaxDepth
abbrev pub max_path_length : ℕ
max_path_length = 8

abbrev pub max_path_count : ℕ
max_path_count = 6

abbrev pub max_depth : ℕ
max_depth = 4

-- std::clamp(x, low, high)
abbrev pub clamp : ℕ → ℕ → ℕ → ℕ
clamp x low high = max low (min x high)

-- std::clamp(x, 0, high)
abbrev pub clamp_int : ℤ → ℕ → ℕ
clamp_int (pos n) high = clamp n 0 high
clamp_int (negsuc n) high = 0

-- The widths of one depth, in the order of the record.
widths : ℕ → ℕ → ℕ → ℕ → ℕ → ℕ → ℕ → SearchBudget
widths depth max_hops two_hop expand branch rank auto_sources = record {
  depth = depth;
  max_hops = clamp max_hops 1 max_path_length;
  two_hop = two_hop;
  expand = expand;
  branch = branch;
  rank = rank;
  auto_sources = auto_sources;
}

budget_at : ℕ → SearchBudget
unfolding widths
budget_at depth =
    if depth == 0
    then widths 0 2 64 8 6 8 6
    else if depth == 1
    then widths 1 3 80 16 8 10 10
    else if depth == 2
    then widths 2 4 128 16 8 10 14
    else if depth == 3
    then widths 3 6 128 32 8 12 18
    else widths depth max_path_length 128 48 10 12 18

unfoldable pub for_depth : ℤ → SearchBudget
unfolding budget_at
for_depth depth = budget_at (clamp_int depth max_depth)

-- std::clamp(lo + searchesDone, lo, hi)
from_updates : ℤ → ℕ → ℕ → ℕ
from_updates (pos n) lo hi = clamp (lo + n) lo hi
from_updates (negsuc n) lo hi = lo

from_age : ℕ → ℕ → ℕ → ℕ
from_age age lo hi =
    let span = hi - lo in
    if leb 50000 age
    then hi
    else if leb 25000 age
    then lo + max 1 (span * 3 / 4)
    else if leb 12000 age
    then lo + max 1 (span * 2 / 4)
    else if leb 4000 age
    then lo + max 1 (span / 4)
    else lo

climb : ℤ → ℕ → ℕ → ℕ → ℕ
unfolding from_updates from_age
climb searches_done age lo hi =
    clamp (max (from_updates searches_done lo hi) (from_age age lo hi)) lo hi

-- The overload with the depths of the configuration; the age is in milliseconds.
unfoldable pub depth_for : Bool → ℤ → ℕ → ℤ → ℤ → ℕ
unfolding climb
depth_for one_shot searches_done age search_fast search =
    let hi = clamp_int search max_depth in
    let lo = clamp_int search_fast hi in
    if one_shot then hi else if lo == hi then hi else climb searches_done age lo hi

-- The overload with three arguments.
unfoldable pub depth_for_default : Bool → ℤ → ℕ → ℕ
unfolding depth_for
depth_for_default one_shot searches_done age =
    depth_for one_shot searches_done age (pos (if one_shot then 2 else 0))
      (pos (if one_shot then 2 else max_depth))
