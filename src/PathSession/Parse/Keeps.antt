-- ===== src/PathSession/Parse/Keeps.antt =====
-- What parsing and validation leave alone.
use edgy.PathSession.Parse.Parts.{parse_source_currencies-holds}
use edgy.Prelude.{All, ℕ, ◌≡◌, Bool, if_keeps, List, [], ◌∷◌, refl, ◌∙◌, arith}
use edgy.Books.{Xrpl}
use edgy.Graph.{Payments}
use edgy.Graph.Budget.{ℤ}
use edgy.PathSession.{Params, Rpc, PathSession}
use edgy.PathSession.Parse.{
  Part, fail, run_parts, parse_members, parse_source, parse_destination, parse_amount,
  parse_send_max, parse_source_currencies, parse_domain, parse_json, parts,
}

-- The fields of a session that a request does not set.
pub record Fixed (A E : Type 0) : Type 0 where
  pub id : ℕ
  pub one_shot : Bool
  pub context : List (A × List (List E))
  pub closing : Bool
  pub updating : Bool
  pub created_at : ℕ
  pub searches_done : ℕ
  pub last_depth : ℤ

abbrev pub fixed : {A D E M V : Type 0} → PathSession A D E M V → Fixed A E
fixed s = record {
  id = s.id;
  one_shot = s.one_shot;
  context = s.context;
  closing = s.closing;
  updating = s.updating;
  created_at = s.created_at;
  searches_done = s.searches_done;
  last_depth = s.last_depth;
}

module _ {A T D E M L V : Type 0} (lib : Xrpl A T) (pay : Payments A D E M L)
    (rpc : Rpc A D E M L V) where
  Keeps : Part lib pay rpc → Type 0
  Keeps f = (s : PathSession A D E M V) → fixed (f s).0 ≡ fixed s

  run_parts-Keeps : (fs : List (Part lib pay rpc)) → All Keeps fs → Keeps (run_parts lib pay rpc fs)
  unfolding Keeps run_parts
  run_parts-Keeps [] h s = refl
  run_parts-Keeps (f ∷ fs) (k, h) s =
      if_keeps (λ (r : PathSession A D E M V × Bool). fixed r.0 ≡ fixed s) (f s).1
        (λ _. run_parts-Keeps fs h (f s).0 ∙ k s) (λ _. k s)

  parse_members-Keeps : (p : Params V) → Keeps (parse_members lib pay rpc p)
  unfolding Keeps parse_members fail
  parse_members-Keeps p s = ground arith

  parse_source-Keeps : (p : Params V) → Keeps (parse_source lib pay rpc p)
  unfolding Keeps parse_source fail
  parse_source-Keeps p s = ground arith

  parse_destination-Keeps : (p : Params V) → Keeps (parse_destination lib pay rpc p)
  unfolding Keeps parse_destination fail
  parse_destination-Keeps p s = ground arith

  parse_amount-Keeps : (p : Params V) → Keeps (parse_amount lib pay rpc p)
  unfolding Keeps parse_amount fail
  parse_amount-Keeps p s = ground arith

  parse_send_max-Keeps : (p : Params V) → Keeps (parse_send_max lib pay rpc p)
  unfolding Keeps parse_send_max fail
  parse_send_max-Keeps p s = ground arith

  parse_source_currencies-Keeps : (p : Params V) → Keeps (parse_source_currencies lib pay rpc p)
  unfolding Keeps
  parse_source_currencies-Keeps p s =
      parse_source_currencies-holds lib pay rpc (λ s r. fixed r.0 ≡ fixed s) (λ s assets. refl)
        (λ s code. unfold fail in refl) (λ s s' r h k. k ∙ h) p s

  parse_domain-Keeps : (p : Params V) → Keeps (parse_domain lib pay rpc p)
  unfolding Keeps parse_domain fail
  parse_domain-Keeps p s = ground arith

  -- Parsing sets only what the request holds.
  pub parse_json-fixed :
      (p : Params V) (s : PathSession A D E M V) → fixed (parse_json lib pay rpc p s).0 ≡ fixed s
  unfolding parse_json parts Keeps
  parse_json-fixed p = run_parts-Keeps (parts lib pay rpc p) (
    parse_members-Keeps p,
    (
      parse_source-Keeps p,
      (
        parse_destination-Keeps p,
        (
          parse_amount-Keeps p,
          (parse_send_max-Keeps p, (parse_source_currencies-Keeps p, (parse_domain-Keeps p, tt))),
        ),
      ),
    ),
  )
