-- ===== src/Graph/Walk/Keeps.antt =====
-- The walk adds only payable chains of books from the source to the destination.
use mathlib.Core.Option.{some-injective}
use edgy.Prelude.{
  arith, ℕ, suc, zero, Bool, true, false, ◌≡◌, List, [], ◌∷◌, ◌++◌, All, All-append, Option, some,
  none, if_keeps, elim_keeps, if◌then◌else◌, not, ltb, leb, length, sym, ◌∙◌, subst, refl, inl,
}
use edgy.Containers.Eq.{Eq}
use edgy.Containers.HashSet.{contains-All}
use edgy.Books.{Xrpl, Books}
use edgy.Books.Query.{neighbors}
use edgy.Books.Query.Routes.{contains-neighbors}
use edgy.Graph.{Payments, Request}
use edgy.Graph.Chain.{IsPayable, Hop, Joined, Joined-append}
use edgy.Graph.Candidates.{add_path, book_path, dst_asset, max_hops, same_asset}
use edgy.Graph.Candidates.Keeps.{add_path-All, sort-All}
use edgy.Graph.Walk.Loop.{branch_over_keeps}
use edgy.Graph.Walk.{
  Frame, filter, partition, sort_after, ordered_neighbors, is_hub, larger, arrive, walk,
  long_candidates,
}

module _ {ℓ} {X : Type 0} (P : X → Type ℓ) where
  filter-All : (test : X → Bool) (xs : List X) → All P xs → All P (filter test xs)
  unfolding filter
  filter-All test [] ps = tt
  filter-All test (x ∷ xs) ps =
      if_keeps (All P) (test x) (λ _. (ps.0, filter-All test xs ps.1))
        (λ _. filter-All test xs ps.1)

  partition-All : (test : X → Bool) (xs : List X) → All P xs → All P (partition test xs)
  unfolding partition
  partition-All test xs ps =
      All-append P (filter test xs) (filter (λ x. not (test x)) xs) (filter-All test xs ps)
        (filter-All (λ x. not (test x)) xs ps)

  sort_after-All :
      (test : X → Bool) (before : X → X → Bool) (n : ℕ) (xs : List X)
      → All P xs
      → All P (sort_after test before n xs)
  unfolding sort_after
  sort_after-All test before zero xs ps = sort-All before P xs ps
  sort_after-All test before (suc n) [] ps = tt
  sort_after-All test before (suc n) (x ∷ xs) ps =
      if_keeps (All P) (test x) (λ _. (ps.0, sort_after-All test before n xs ps.1))
        (λ _. sort-All before P (x ∷ xs) ps)

same_asset→eq : {A : Type 0} ⦃a : Eq A⦄ (x y : A) → same_asset x y ≡ true → x ≡ y
unfolding same_asset
same_asset→eq x y h = ground arith

none_is_not : {X : Type 0} (x : X) → none ≡ some x → ⊥
none_is_not x e = ground arith

module _ {ℓ} {A T D E M L : Type 0} ⦃a : Eq A⦄ ⦃t : Eq T⦄ ⦃d : Eq D⦄ ⦃e : Eq E⦄ (lib : Xrpl A T)
    (pay : Payments A D E M L) (books : Books A T D) (req : Request A D E M L) (Q : List E → Type ℓ)
    (route : (hops : List A)
      → Joined lib books req.domain req.src_asset hops (dst_asset lib pay books req)
      → IsPayable (book_path lib pay books req hops)
      → Q (book_path lib pay books req hops)) where
  ordered_neighbors-All :
      (at : A) → All (Hop lib books req.domain at) (ordered_neighbors lib pay books req at)
  unfolding ordered_neighbors
  ordered_neighbors-All at = from_parts _ refl
    where
      out : List A
      out = partition (is_hub lib pay books req) (neighbors lib at req.domain books)

      parts : All (Hop lib books req.domain at) out
      parts = partition-All _ _ _ (
          contains-All _ (neighbors lib at req.domain books)
            (λ y h. inl (sym (contains-neighbors lib at y req.domain books) ∙ h)))

      from_parts :
          (b : Bool)
          → ltb 2 (length out) ≡ b
          → All (Hop lib books req.domain at) (
              if b
              then sort_after (is_hub lib pay books req) (larger lib pay books req) 2 out
              else out)
      from_parts true p = sort_after-All _ _ _ 2 out parts
      from_parts false p = parts

  -- what holds of the queue and the candidates
  abbrev Holds : List (Frame A) × List (List E) → Type ℓ
  Holds s = All (λ f. Joined lib books req.domain req.src_asset f.hops f.at) s.0 × All Q s.1

  arrive-Holds :
      (next : A) (hops : List A) (s : List (Frame A) × List (List E))
      → Joined lib books req.domain req.src_asset hops next
      → Holds s
      → Holds (arrive lib pay books req next hops s)
  unfolding arrive
  arrive-Holds next hops (queue, set) j h =
      arrived (same_asset next (dst_asset lib pay books req))
        (ltb (length hops) (max_hops lib pay books req))
        (same_asset→eq next (dst_asset lib pay books req))
    where
      arrived :
          (b c : Bool)
          → (b ≡ true → next ≡ dst_asset lib pay books req)
          → Holds (
              if b
              then (queue, add_path set (book_path lib pay books req hops))
              else if c
              then (queue ++ record { at = next; hops = hops } ∷ [], set)
              else (queue, set))
      arrived true c p = (
        h.0,
        add_path-All Q set _
            (route hops (subst (Joined lib books req.domain req.src_asset hops) (p refl) j)) h.1,
      )
      arrived false true p = (All-append _ queue _ h.0 (j, tt), h.1)
      arrived false false p = h

  -- the candidates that a loop which ended leaves
  abbrev pub Found : Option (ℕ × List (List E)) → Type ℓ
  Found o = (r : ℕ × List (List E)) → o ≡ some r → All Q r.1

  Found-some : (k : ℕ) (set : List (List E)) → All Q set → Found (some (k, set))
  Found-some k set qs r e = subst (λ p. All Q p.1) (some-injective _ _ e) qs

  walk-Found :
      (fuel expanded k : ℕ) (queue : List (Frame A)) (set : List (List E))
      → Holds (queue, set)
      → Found (walk lib pay books req fuel expanded k queue set)
  unfolding walk
  walk-Found zero expanded k queue set h = λ r e. absurd (none_is_not r e)
  walk-Found (suc fuel) expanded k [] set h = Found-some k set h.1
  walk-Found (suc fuel) expanded k (frame ∷ queue) set h =
      elim_keeps Found (ltb expanded req.budget.expand)
        (λ _.
          elim_keeps Found (req.go k)
            (λ _.
              elim_keeps Found (leb (max_hops lib pay books req) (length frame.hops))
                (λ _. walk-Found fuel expanded (suc k) queue set (h.0.1, h.1))
                (λ _. walk-Found fuel (suc expanded) (suc k) _ _ (
                  branch_over_keeps lib pay books req Holds (Hop lib books req.domain frame.at)
                    frame.hops
                    (λ next s hop i.
                      arrive-Holds next (frame.hops ++ next ∷ []) s
                        (Joined-append lib books req.domain req.src_asset frame.at next frame.hops
                          h.0.0 hop)
                        i)
                    (ordered_neighbors lib pay books req frame.at) 0 (queue, set)
                    (ordered_neighbors-All frame.at) (h.0.1, h.1))))
            (λ _. Found-some (suc k) set h.1))
        (λ _. Found-some k set h.1)

  pub long_candidates-Found :
      (found : ℕ × List (List E)) → All Q found.1 → Found (long_candidates lib pay books req found)
  unfolding long_candidates
  long_candidates-Found (k, set) qs =
      if_keeps Found (leb 4 (max_hops lib pay books req))
        (λ _.
          walk-Found (suc req.budget.expand) 0 k (record { at = req.src_asset; hops = [] } ∷ []) set
            ((refl, tt), qs))
        (λ _. Found-some k set qs)
