-- ===== src/Graph/Finder/Keys.antt =====
-- No two of the chosen paths have the same key.
use edgy.Prelude.{
  ℕ, Bool, true, false, ◌≡◌, List, [], ◌∷◌, ◌++◌, map, All, if◌then◌else◌, ltb, length, refl, subst,
  sym, arith, ap,
}
use edgy.Containers.Eq.{Eq, nat_eq, list_eq, if_eq}
use edgy.Containers.HashSet.{contains, insert, contains-insert}
use edgy.Graph.{Payments, Request}
use edgy.Graph.Budget.{max_path_count}
use edgy.Graph.Ranking.{Rank, hop_currency_key}
use edgy.Graph.Finder.{Chosen, choose, skip_pick, select}
use edgy.Graph.Finder.Choice.{Distinct, select_keeps, skip_pick-false}

module _ {ℓ} {X : Type ℓ} ⦃x : Eq X⦄ where
  contains-append :
      (a y : X) (xs : List X) → contains a (xs ++ y ∷ []) ≡ if_eq y a true (contains a xs)
  unfolding contains
  contains-append a y [] = refl
  contains-append a y (z ∷ xs) = ground (arith, contains-append a y xs)

  Distinct-append :
      (a : X) (xs : List X) → Distinct xs → contains a xs ≡ false → Distinct (xs ++ a ∷ [])
  unfolding contains
  Distinct-append a [] d n = (refl, tt)
  Distinct-append a (y ∷ xs) d n =
      (ground (arith, contains-append y a xs, d.0), Distinct-append a xs d.1 (ground arith))

map-append : {X Y : Type 0} (f : X → Y) (xs ys : List X) → map f (xs ++ ys) ≡ map f xs ++ map f ys
map-append f [] ys = refl
map-append f (x ∷ xs) ys = ap (λ zs. f x ∷ zs) (map-append f xs ys)

module _ {A D E M L : Type 0} (pay : Payments A D E M L) (req : Request A D E M L)
    (candidates : List (List E)) where
  abbrev key : List E → List ℕ
  key = hop_currency_key pay req

  -- The keys of the chosen paths are among those that are noted, and none occurs twice.
  record Noted (u : Chosen E) : Type 0 where
    within : (k : List ℕ) → contains k (map key u.paths) ≡ true → contains k u.keys ≡ true
    distinct : Distinct (map key u.paths)

  choose-Noted :
      (b : Bool) (path : List E) (u : Chosen E)
      → skip_pick pay req b path u.keys ≡ false
      → Unit {0}
      → Noted u
      → Noted (choose pay req path u)
  unfolding choose
  choose-Noted b path u c _ n = added (ltb (length u.paths) max_path_count)
    where
      fresh : contains (key path) u.keys ≡ false
      fresh = (skip_pick-false pay req candidates b path u.keys c).3

      added :
          (f : Bool)
          → Noted (record u {
            keys = insert (key path) u.keys;
            paths = if f then u.paths ++ path ∷ [] else u.paths;
            discovered = u.discovered ++ path ∷ [];
          })
      added true = record {
        within = λ k h. ground (
          arith,
          ap (contains k) (map-append key u.paths (path ∷ [])),
          contains-append k (key path) (map key u.paths),
          contains-insert (key path) k u.keys,
          n.within k,
          h,
        );
        distinct = subst Distinct (sym (map-append key u.paths (path ∷ []))) (
            Distinct-append (key path) (map key u.paths) n.distinct
              (ground (arith, n.within (key path), fresh)));
      }
      added false = record {
        within = λ k h. ground (arith, contains-insert (key path) k u.keys, n.within k h);
        distinct = n.distinct;
      }

  -- Of the paths with one key the first is chosen.
  pub select-Distinct :
      (ranks : List (Rank M)) → Distinct (map key (select pay req candidates ranks).paths)
  unfolding contains
  select-Distinct ranks =
      select_keeps pay req candidates Noted Noted (λ paths. Distinct (map key paths))
        (λ _. Unit {0}) ranks (choose-Noted true) (choose-Noted false) (λ u n. n)
        (λ u n. n.distinct) (everything ranks)
        (record { within = λ k h. absurd (nothing k h); distinct = tt })
    where
      everything : (rs : List (Rank M)) → All (λ _. Unit {0}) rs
      everything [] = tt
      everything (r ∷ rs) = (tt, everything rs)

      nothing : (k : List ℕ) → contains k [] ≡ true → ⊥
      nothing k h = ground (arith, h)
