-- ===== src/PathSession/Commands/Deepens.antt =====
-- A session that is due to deepen does.
use edgy.PathSession.Sources.{Clock, sources_of, order_sources, depth_now}
use edgy.PathSession.Search.Each.{search_each_keeps}
use edgy.Prelude.{Bool, ℕ, ◌≡◌, ◌≤◌, true, false, some, List, refl, ap, ◌∙◌, arith}
use edgy.Containers.Eq.{Eq}
use edgy.Books.{Xrpl, Books}
use edgy.Graph.{Payments}
use edgy.Graph.Budget.{ℤ, depth_for}
use edgy.Graph.Budget.Bounds.{depth_for_mono, depth_for-bounds, for_depth-depth}
use edgy.PathSession.{Config, Rpc, Cache, PathSession}
use edgy.PathSession.Search.{find_paths, find_from, full_search}
use edgy.PathSession.Commands.{update_valid, new_status, should_deepen, exceeds, spread_age}
use edgy.PathSession.Commands.Answers.{after_search-fixed}

module _ {A T D E M L V : Type 0} ⦃a : Eq A⦄ ⦃t : Eq T⦄ ⦃d : Eq D⦄ ⦃e : Eq E⦄ (lib : Xrpl A T)
    (pay : Payments A D E M L) (rpc : Rpc A D E M L V) (cfg : Config) where
  full_search-last_depth :
      (books : Books A T D) (cache : Cache L) (clock : Clock) (src dst : ℕ) (sources : List A)
      (s : PathSession A D E M V)
      → (full_search lib pay rpc cfg books cache false clock src dst sources s).session.last_depth
        ≡ ℤ.pos (
            depth_for s.one_shot
              (ℤ.pos s.searches_done)
              clock.search_age
              cfg.search_fast
              cfg.search)
  unfolding full_search depth_now
  full_search-last_depth books cache clock src dst sources s =
      search_each_keeps lib pay rpc cfg (λ r. r.last_depth) (λ r c. refl) books cache.ledger src dst
        _ _ clock 0 (order_sources lib pay rpc cfg sources s) _ _
      ∙ ap ℤ.pos (
          for_depth-depth
            (depth_for s.one_shot (ℤ.pos s.searches_done) clock.search_age cfg.search_fast
              cfg.search)
            (depth_for-bounds s.one_shot (ℤ.pos s.searches_done) clock.search_age cfg.search_fast
              cfg.search).2)

  exceeds_mono :
      (k n : ℕ) (z : ℤ)
      → k ≤ n
      → exceeds lib pay rpc cfg k z ≡ true
      → exceeds lib pay rpc cfg n z ≡ true
  unfolding exceeds
  exceeds_mono k n (ℤ.pos m) h x = ground arith
  exceeds_mono k n (ℤ.negsuc m) h x = refl

  due :
      (now : ℕ) (s : PathSession A D E M V)
      → should_deepen lib pay rpc cfg now s ≡ true
      → (s.one_shot ≡ false)
        × (exceeds lib pay rpc cfg
              (depth_for false
                (ℤ.pos 0)
                (spread_age lib pay rpc cfg now s)
                cfg.search_fast
                cfg.search)
              s.last_depth
            ≡ true)
  unfolding should_deepen
  due now s h = (ground arith, ground arith)

  find_paths-last_depth :
      (books : Books A T D) (cache : Cache L) (clock : Clock) (src dst : ℕ) (sources : List A)
      (cut : Bool) (s : PathSession A D E M V)
      → sources_of lib pay rpc cfg cache false clock src dst s ≡ some (sources, cut)
      → (find_paths lib pay rpc cfg books cache true true false clock src dst s).session.last_depth
        ≡ ℤ.pos (
            depth_for s.one_shot
              (ℤ.pos s.searches_done)
              clock.search_age
              cfg.search_fast
              cfg.search)
  unfolding find_paths find_from
  find_paths-last_depth books cache clock src dst sources cut s h =
      rw (h, find_paths)
        (full_search-last_depth books cache clock src dst sources (record s { truncated = cut }))

  -- When a session is due to deepen, a full search that starts no earlier by the clock goes strictly
  -- deeper than the last one did, if the session has sources.
  pub update-deepens :
      (books : Books A T D) (cache : Cache L) (clock : Clock) (now src dst : ℕ) (sources : List A)
      (cut : Bool) (s : PathSession A D E M V)
      → should_deepen lib pay rpc cfg now s ≡ true
      → spread_age lib pay rpc cfg now s ≤ clock.search_age
      → sources_of lib pay rpc cfg cache false clock src dst s ≡ some (sources, cut)
      → (n : ℕ) × ((update_valid lib pay rpc cfg books cache false false clock src dst
            s).0.last_depth
          ≡ ℤ.pos n)
        × (exceeds lib pay rpc cfg n s.last_depth ≡ true)
  unfolding update_valid
  update-deepens books cache clock now src dst sources cut s h l found =
      let (once, over) = due now s h in
      (
        depth_for false (ℤ.pos s.searches_done) clock.search_age cfg.search_fast cfg.search,
        ap (λ f. f.last_depth)
              (after_search-fixed lib pay rpc cfg cache (new_status lib pay rpc cfg cache src dst s)
                (find_paths lib pay rpc cfg books cache true true false clock src dst s))
            ∙ find_paths-last_depth books cache clock src dst sources cut s found
            ∙ ap
                (λ b.
                  ℤ.pos (
                    depth_for b (ℤ.pos s.searches_done) clock.search_age cfg.search_fast
                      cfg.search))
                once,
        exceeds_mono _ _ s.last_depth
            (depth_for_mono false (ℤ.pos 0) (ℤ.pos s.searches_done) _ clock.search_age
              cfg.search_fast cfg.search (omega arith) l)
            over,
      )
