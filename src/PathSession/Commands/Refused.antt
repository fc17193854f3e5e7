-- ===== src/PathSession/Commands/Refused.antt =====
-- How a create is refused.
use edgy.PathSession.Validity.{is_valid, check_destination, reject, is_given}
use edgy.PathSession.Sources.{Clock}
use edgy.Prelude.{
  ℕ, ◌≡◌, ◌≢◌, Bool, false, not, ◌&&◌, ◌||◌, if◌then◌else◌, Option, none, some, refl, arith, inl,
  inr,
}
use edgy.Containers.Eq.{Eq}
use edgy.Books.{Xrpl, Books}
use edgy.Graph.{Payments}
use edgy.PathSession.{PathError, Params, Config, Destination, Rpc, Cache, PathSession}
use edgy.PathSession.Parse.{parse_json}
use edgy.PathSession.Parse.Refuse.{IsError, parse_json-IsParsed}
use edgy.PathSession.Commands.{do_create}

module _ {A T D E M L V : Type 0} ⦃a : Eq A⦄ ⦃t : Eq T⦄ ⦃d : Eq D⦄ ⦃e : Eq E⦄ (lib : Xrpl A T)
    (pay : Payments A D E M L) (rpc : Rpc A D E M L V) (cfg : Config) where
  -- A destination is accepted, or refused with an error.
  abbrev Judged : PathSession A D E M V × Bool → Type 0
  Judged r = r.1 ≡ false → IsError lib pay rpc r.0.status

  check_destination-Judged :
      (cache : Cache L) (dst : ℕ) (o : Option Destination) (s : PathSession A D E M V)
      → Judged (check_destination lib pay rpc cfg cache dst o s)
  unfolding check_destination reject
  check_destination-Judged cache dst none s h = ground arith
  check_destination-Judged cache dst (some found) s h = absurd (ground arith)

  is_valid-Judged :
      (cache : Cache L) (s : PathSession A D E M V)
      → s.src ≢ none
      → s.dst ≢ none
      → Judged (is_valid lib pay rpc cfg cache s)
  unfolding is_valid reject
  is_valid-Judged cache s f g = of_accounts s.src s.dst f g
    where
      of_accounts :
          (o o' : Option ℕ)
          → o ≢ none
          → o' ≢ none
          → Judged (elim o as (λ _. PathSession A D E M V × Bool) [
            | none ↦ (s, false)
            | some src ↦ elim o' [
              | none ↦ (s, false)
              | some dst ↦
                  if not s.convert_all
                    && (is_given lib pay rpc cfg s.send_max || not (rpc.positive s.dst_amount))
                  then reject lib pay rpc cfg PathError.dst_amt_malformed s
                  else if not (rpc.account_exists cache.ledger src)
                  then reject lib pay rpc cfg PathError.src_act_not_found s
                  else check_destination lib pay rpc cfg cache dst
                      (rpc.read_destination cache.ledger dst)
                      s
            ]
          ])
      of_accounts none o' f g h = absurd (f refl)
      of_accounts (some src) none f g h = absurd (g refl)
      of_accounts (some src) (some dst) f g h =
          ground
            (arith, h, check_destination-Judged cache dst (rpc.read_destination cache.ledger dst) s)

  -- A create that is refused answers one error and nothing else, which it also keeps as its status.
  pub do_create-refused :
      (books : Books A T D) (cache : Cache L) (params : Params V) (clock : Clock)
      (s : PathSession A D E M V)
      → (do_create lib pay rpc cfg books cache params clock s).1 ≡ false
      → IsError lib pay rpc (do_create lib pay rpc cfg books cache params clock s).2
        × ((do_create lib pay rpc cfg books cache params clock s).0.status
            ≡ (do_create lib pay rpc cfg books cache params clock s).2)
  unfolding do_create
  do_create-refused books cache params clock s h = elim (parse_json-IsParsed lib pay rpc params s) [
    | inr (bad, err) ↦ ground (arith, bad, err, h)
    | inl (good, f, g) ↦
        ground (arith, good, h, is_valid-Judged cache (parse_json lib pay rpc params s).0 f g)
  ]
