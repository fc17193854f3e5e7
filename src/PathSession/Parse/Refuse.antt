-- ===== src/PathSession/Parse/Refuse.antt =====
-- How a parse ends: it goes on and leaves the status alone, or it has set the status to an error.
use edgy.PathSession.Parse.Parts.{parse_source_currencies-holds}
use edgy.Prelude.{
  inr, ◌∙◌, sym, All, if◌then◌else◌, ◌∷◌, [], List, inl, refl, ◌⊎◌, ◌≡◌, ◌≢◌, Bool, true, false,
  Option, none, arith,
}
use edgy.Books.{Xrpl}
use edgy.Graph.{Payments}
use edgy.PathSession.{empty_status, PathError, Params, Rpc, PathSession, Status}
use edgy.PathSession.Parse.{
  run_parts, parts, parse_members, parse_source, parse_destination, parse_source_currencies,
  parse_json, Part, fail, parse_amount, parse_send_max, parse_domain,
}

module _ {A T D E M L V : Type 0} (lib : Xrpl A T) (pay : Payments A D E M L)
    (rpc : Rpc A D E M L V) where
  -- An error and nothing else.
  abbrev pub bare : Option PathError → Status E M V
  bare error = record empty_status { error = error }

  abbrev pub IsError : Status E M V → Type 0
  IsError st = (st ≡ bare st.error) × (st.error ≢ none)

  -- A part that goes on keeps the accounts.
  abbrev Ends : PathSession A D E M V → PathSession A D E M V × Bool → Type 0
  Ends s r =
      ((r.1 ≡ true) × (r.0.src ≡ s.src) × (r.0.dst ≡ s.dst)) ⊎ ((r.1 ≡ false) × IsError r.0.status)

  IsPart : Part lib pay rpc → Type 0
  IsPart f = (s : PathSession A D E M V) → Ends s (f s)

  parse_amount-IsPart : (p : Params V) → IsPart (parse_amount lib pay rpc p)
  unfolding IsPart parse_amount fail
  parse_amount-IsPart p s = ground arith

  parse_send_max-IsPart : (p : Params V) → IsPart (parse_send_max lib pay rpc p)
  unfolding IsPart parse_send_max fail
  parse_send_max-IsPart p s = ground arith

  parse_domain-IsPart : (p : Params V) → IsPart (parse_domain lib pay rpc p)
  unfolding IsPart parse_domain fail
  parse_domain-IsPart p s = ground arith

  fails-Ends : (code : PathError) → IsPart (fail lib pay rpc code)
  unfolding IsPart fail
  fails-Ends code s = ground arith

  Ends-after :
      (s s' : PathSession A D E M V) (r : PathSession A D E M V × Bool)
      → Ends s (s', true)
      → Ends s' r
      → Ends s r
  Ends-after s s' r h k = ground (arith, h, k)

  parse_source_currencies-IsPart : (p : Params V) → IsPart (parse_source_currencies lib pay rpc p)
  unfolding IsPart
  parse_source_currencies-IsPart p s =
      parse_source_currencies-holds lib pay rpc Ends (λ s assets. inl (refl, refl, refl))
        (λ s code. fails-Ends code s) Ends-after p s

  run_parts-IsPart :
      (fs : List (Part lib pay rpc)) → All IsPart fs → IsPart (run_parts lib pay rpc fs)
  unfolding IsPart run_parts
  run_parts-IsPart [] h s = inl (refl, refl, refl)
  run_parts-IsPart (f ∷ fs) (k, h) s = going (f s) (k s) (λ s'. run_parts-IsPart fs h s')
    where
      going :
          (r : PathSession A D E M V × Bool)
          → Ends s r
          → ((s' : PathSession A D E M V) → Ends s' (run_parts lib pay rpc fs s'))
          → Ends s (if r.1 then run_parts lib pay rpc fs r.0 else r)
      going (s', true) h k = Ends-after s s' (run_parts lib pay rpc fs s') h (k s')
      going (s', false) h k = h

  -- A parse goes on with both accounts set, or it ends with an error.
  abbrev pub IsParsed : PathSession A D E M V × Bool → Type 0
  IsParsed r =
      ((r.1 ≡ true) × (r.0.src ≢ none) × (r.0.dst ≢ none)) ⊎ ((r.1 ≡ false) × IsError r.0.status)

  -- The parts after the accounts.
  abbrev later_parts : Params V → List (Part lib pay rpc)
  later_parts p =
      parse_amount lib pay rpc p
      ∷ parse_send_max lib pay rpc p
      ∷ parse_source_currencies lib pay rpc p
      ∷ parse_domain lib pay rpc p
      ∷ []

  later-IsParsed :
      (p : Params V) (s : PathSession A D E M V)
      → s.src ≢ none
      → s.dst ≢ none
      → IsParsed (run_parts lib pay rpc (later_parts p) s)
  unfolding IsPart
  later-IsParsed p s f g = ground (
    arith,
    run_parts-IsPart (later_parts p)
        (
          parse_amount-IsPart p,
          (
            parse_send_max-IsPart p,
            (parse_source_currencies-IsPart p, (parse_domain-IsPart p, tt)),
          ),
        )
        s,
  )

  then-IsParsed :
      (fs : List (Part lib pay rpc)) (r : PathSession A D E M V × Bool)
      → (r.1 ≡ false → IsError r.0.status)
      → (r.1 ≡ true → IsParsed (run_parts lib pay rpc fs r.0))
      → IsParsed (if r.1 then run_parts lib pay rpc fs r.0 else r)
  then-IsParsed fs (s, true) bad good = good refl
  then-IsParsed fs (s, false) bad good = inr (refl, bad refl)

  parse_members-ends :
      (p : Params V) (s : PathSession A D E M V)
      → (parse_members lib pay rpc p s).1 ≡ false
      → IsError (parse_members lib pay rpc p s).0.status
  unfolding parse_members fail
  parse_members-ends p s h = ground arith

  parse_source-ends :
      (p : Params V) (s : PathSession A D E M V)
      → ((parse_source lib pay rpc p s).1 ≡ false → IsError (parse_source lib pay rpc p s).0.status)
        × ((parse_source lib pay rpc p s).1 ≡ true → (parse_source lib pay rpc p s).0.src ≢ none)
  unfolding parse_source fail
  parse_source-ends p s = ((λ h. ground arith), λ h. ground arith)

  parse_destination-ends :
      (p : Params V) (s : PathSession A D E M V)
      → ((parse_destination lib pay rpc p s).1 ≡ false
          → IsError (parse_destination lib pay rpc p s).0.status)
        × ((parse_destination lib pay rpc p s).1 ≡ true
            → (parse_destination lib pay rpc p s).0.dst ≢ none)
        × ((parse_destination lib pay rpc p s).0.src ≡ s.src)
  unfolding parse_destination fail
  parse_destination-ends p s = ((λ h. ground arith), (λ h. ground arith), ground arith)

  pub parse_json-IsParsed :
      (p : Params V) (s : PathSession A D E M V) → IsParsed (parse_json lib pay rpc p s)
  unfolding parse_json parts run_parts
  parse_json-IsParsed p s =
      let s0 = (parse_members lib pay rpc p s).0 in
      let s1 = (parse_source lib pay rpc p s0).0 in
      let s2 = (parse_destination lib pay rpc p s1).0 in
      let with_dst = parse_destination lib pay rpc p ∷ later_parts p in
      let with_src = parse_source lib pay rpc p ∷ with_dst in
      then-IsParsed with_src (parse_members lib pay rpc p s) (parse_members-ends p s) (λ _.
        then-IsParsed with_dst (parse_source lib pay rpc p s0) (parse_source-ends p s0).0 (λ given.
          let (bad, named, kept) = parse_destination-ends p s1 in
          then-IsParsed (later_parts p) (parse_destination lib pay rpc p s1) bad (λ q.
            later-IsParsed p s2 (λ z. (parse_source-ends p s0).1 given (sym kept ∙ z)) (named q))))
