-- ===== src/Engine/Apply/Chain.antt =====
-- Closes that are applied without a call for a new snapshot follow one another.
use edgy.Prelude.{
  subst, leb, ltb, inr, inl, ap, sym, ◌<◌, ◌%◌, ◌+◌, ◌⊎◌, ℕ, ◌≡◌, ◌≢◌, Bool, true, false, not, ◌&&◌,
  ◌==◌, if◌then◌else◌, if_keeps, Option, none, some, List, refl, ◌∙◌, arith,
}
use edgy.Builder.{Header, Builder, publish, freeze_base, set_header, set_open}
use edgy.Engine.Apply.{
  word32, apply_ledger_closed, Output, Number, ClosedMsg, Follower, integral, negative, throws,
  text, other, number_of, fill_seq, fill_header, chain_header, diverges, publish_builder,
  send_closed, set_resync, close_with,
}

number_of-fill_seq :
    (o : Option Number) (n seq : ℕ) → fill_seq o n ≡ some seq → number_of o ≢ 0 → seq ≡ number_of o
unfolding fill_seq number_of
number_of-fill_seq none n seq q h = absurd (h refl)
number_of-fill_seq (some (integral m)) n seq q h = ground (arith, q)
number_of-fill_seq (some (text (some m))) n seq q h = ground (arith, q)
number_of-fill_seq (some negative) n seq q h = absurd (h refl)
number_of-fill_seq (some (text none)) n seq q h = absurd (h refl)
number_of-fill_seq (some other) n seq q h = absurd (h refl)

fill_header-seq :
    (msg : ClosedMsg) (prev h : Header)
    → fill_header msg prev ≡ some h
    → fill_seq msg.ledger_index prev.seq ≡ some h.seq
unfolding fill_header
fill_header-seq msg prev h q = ground (arith, q)

pub publish-header : {I : Type 0} (b : Builder I) → (publish b).0.header ≡ b.header
unfolding publish freeze_base
publish-header {I} b = of_frozen b.frozen
  where
    of_frozen : (f : Bool) → (publish (record b { frozen = f })).0.header ≡ b.header
    of_frozen true = refl
    of_frozen false = refl

-- What the message says of the parent, or what the chain does.
Linked : Header → ℕ → Type 0
Linked prev parent = (prev.hash ≡ 0) ⊎ ((parent ≡ 0) ⊎ (parent ≡ prev.hash))

chain_header-Linked :
    (msg : ClosedMsg) (prev h : Header)
    → prev.seq ≢ 0
    → diverges msg prev h ≡ false
    → Linked prev (chain_header msg prev h).parent_hash
unfolding diverges chain_header Linked
chain_header-Linked msg prev h n d = of_parent msg.parent_hash (ground (arith, d))
  where
    of_parent :
        (o : Option (Option ℕ))
        → (elim o as (λ _. Bool) [
          | none ↦ false
          | some parent ↦
              not (prev.seq == 0)
              && (not (prev.hash == 0)
                  && (not (h.parent_hash == 0) && not (h.parent_hash == prev.hash)))
        ]
            ≡ false)
        → (prev.hash ≡ 0)
          ⊎ (((elim o as (λ _. Header) [
            | some parent ↦ h
            | none ↦ if prev.hash == 0 then h else record h { parent_hash = prev.hash }
          ]).parent_hash
                ≡ 0)
              ⊎ ((elim o as (λ _. Header) [
                | some parent ↦ h
                | none ↦ if prev.hash == 0 then h else record h { parent_hash = prev.hash }
              ]).parent_hash
                  ≡ prev.hash))
    of_parent none e = ground arith
    of_parent (some parent) e = ground (arith, e, n)

in_order :
    (current seq : ℕ)
    → current ≢ 0
    → current + 1 < word32
    → seq ≢ 0
    → (not (seq == 0) && leb seq current) ≡ false
    → (not (seq == 0) && (not (current == 0) && ltb ((current + 1) % word32) seq)) ≡ false
    → seq ≡ current + 1
in_order current seq n l m late gap = ground (arith, n, l, m, late, gap)

chain_header-seq : (msg : ClosedMsg) (prev h : Header) → (chain_header msg prev h).seq ≡ h.seq
unfolding chain_header
chain_header-seq msg prev h = ground arith

module _ {A T D W : Type 0} where
  header_of : Follower A T D W → Header
  header_of s = s.state.builder.header

  send_closed-keeps :
      {X : Type 0} (f : Follower A T D W → X)
      → ((s : Follower A T D W) (sent : List Output) → f (record s { sent = sent }) ≡ f s)
      → (h : Header) (s : Follower A T D W) → f (send_closed h s) ≡ f s
  unfolding send_closed
  send_closed-keeps f k h s = if_keeps (λ r. f r ≡ f s) s.has_handler (λ _. k s _) (λ _. refl)

  close_with-resync :
      (msg : ClosedMsg) (h : Header) (s : Follower A T D W)
      → (close_with msg h s).0.need_resync ≡ s.need_resync
  unfolding close_with publish_builder
  close_with-resync msg h s =
      if_keeps (λ (r : Follower A T D W × Bool). r.0.need_resync ≡ s.need_resync)
        (throws msg.txn_count) (λ _. refl)
        (λ _. send_closed-keeps (λ r. r.need_resync) (λ r sent. refl) h _)

  close_with-seq :
      (msg : ClosedMsg) (h : Header) (s : Follower A T D W)
      → (close_with msg h s).0.current_seq ≡ h.seq
  unfolding close_with publish_builder
  close_with-seq msg h s =
      if_keeps (λ (r : Follower A T D W × Bool). r.0.current_seq ≡ h.seq) (throws msg.txn_count)
        (λ _. refl) (λ _. send_closed-keeps (λ r. r.current_seq) (λ r sent. refl) h _)

  close_with-header :
      (msg : ClosedMsg) (h : Header) (s : Follower A T D W)
      → header_of (close_with msg h s).0 ≡ record h { validated = true; accepted = true }
  unfolding close_with publish_builder header_of set_header set_open
  close_with-header msg h s =
      if_keeps
        (λ (r : Follower A T D W × Bool).
          r.0.state.builder.header ≡ record h { validated = true; accepted = true })
        (throws msg.txn_count) (λ _. publish-header _)
        (λ _.
          send_closed-keeps (λ r. r.state.builder.header) (λ r sent. refl) h _ ∙ publish-header _)

  set_resync-resync :
      (b : Bool) (s : Follower A T D W)
      → (set_resync b s).need_resync ≡ false
      → (b ≡ false) × (set_resync b s ≡ s)
  unfolding set_resync
  set_resync-resync true s h = absurd (ground (arith, h))
  set_resync-resync false s h = (refl, refl)

  -- The next ledger of the chain.
  pub Next : Follower A T D W → Follower A T D W → Type 0
  Next s r =
      (r.current_seq ≡ s.current_seq + 1)
      × (r.state.builder.header.seq ≡ r.current_seq)
      × Linked s.state.builder.header r.state.builder.header.parent_hash

  -- A `ledgerClosed` message with a sequence that calls for no new snapshot either changes nothing or
  -- closes the ledger after the current one, whose parent is the ledger before, as far as both hashes
  -- are known. Before, the header of the builder is that of the current ledger, which is not 0 and not
  -- the last number of 32 bits.
  pub apply_ledger_closed-Next :
      (msg : ClosedMsg) (s : Follower A T D W)
      → s.state.builder.header.seq ≡ s.current_seq
      → s.current_seq ≢ 0
      → s.current_seq + 1 < word32
      → number_of msg.ledger_index ≢ 0
      → (apply_ledger_closed msg s).0.need_resync ≡ false
      → ((apply_ledger_closed msg s).0 ≡ s) ⊎ Next s (apply_ledger_closed msg s).0
  unfolding apply_ledger_closed Next header_of
  apply_ledger_closed-Next msg s synced n l m =
      if_keeps IsNext (not s.ready) (λ _ q. inl refl)
        (λ _.
          if_keeps IsNext (throws msg.ledger_index) (λ _ q. inl refl)
            (λ _.
              if_keeps IsNext
                (not (number_of msg.ledger_index == 0)
                  && leb (number_of msg.ledger_index) s.current_seq)
                (λ _ q. inl refl)
                (λ late. of_header (fill_header msg s.state.builder.header) refl late)))
    where
      prev : Header
      prev = s.state.builder.header

      seq : ℕ
      seq = number_of msg.ledger_index

      gap : Bool
      gap = not (seq == 0) && (not (s.current_seq == 0) && ltb ((s.current_seq + 1) % word32) seq)

      noted : Header → Follower A T D W
      noted h = set_resync (diverges msg prev h) (set_resync gap s)

      IsNext : Follower A T D W × Bool → Type 0
      IsNext r = r.0.need_resync ≡ false → (r.0 ≡ s) ⊎ Next s r.0

      closes :
          (h : Header) (s' : Follower A T D W)
          → fill_header msg prev ≡ some h
          → (not (seq == 0) && leb seq s.current_seq) ≡ false
          → gap ≡ false
          → diverges msg prev h ≡ false
          → Next s (close_with msg (chain_header msg prev h) s').0
      closes h s' q late g d =
          let ch = chain_header msg prev h in
          let is_seq =
            number_of-fill_seq msg.ledger_index prev.seq h.seq (fill_header-seq msg prev h q) m in
          let header = close_with-header msg ch s' in
          (
            close_with-seq msg ch s'
                ∙ chain_header-seq msg prev h
                ∙ is_seq
                ∙ in_order s.current_seq seq n l m late g,
            ap (λ x. x.seq) header ∙ sym (close_with-seq msg ch s'),
            subst (Linked prev) (sym (ap (λ x. x.parent_hash) header))
                (chain_header-Linked msg prev h (λ z. n (sym synced ∙ z)) d),
          )

      of_header :
          (o : Option Header)
          → fill_header msg prev ≡ o
          → (not (seq == 0) && leb seq s.current_seq) ≡ false
          → IsNext (elim o as (λ _. Follower A T D W × Bool) [
            | none ↦ (set_resync gap s, false)
            | some h ↦ close_with msg (chain_header msg prev h) (noted h)
          ])
      of_header none q late e = inl (set_resync-resync gap s e).1
      of_header (some h) q late e =
          let still = sym (close_with-resync msg (chain_header msg prev h) (noted h)) ∙ e in
          let (d, same) = set_resync-resync (diverges msg prev h) (set_resync gap s) still in
          let (g, _) = set_resync-resync gap s (ap (λ r. r.need_resync) (sym same) ∙ still) in
          inr (closes h (noted h) q late g d)
