-- ===== src/Containers/Eq.antt =====
-- The equality that a hash container takes of its keys.
use mathlib.Core.List.{List-discrete}
use edgy.Prelude.{List, arith, ap, ◌≡◌, ℕ, ℕ_discrete}

pub record Eq {ℓ} (A : Type ℓ) : Type ℓ where
  pub dec : Discrete A

instance abbrev pub nat_eq : Eq ℕ
nat_eq = record { dec = ℕ_discrete }

-- `a == b ? x : y`, as the laws of the containers state it.
abbrev pub if_eq {ℓ κ} : {A : Type ℓ} {B : Type κ} ⦃e : Eq A⦄ → A → A → B → B → B
if_eq ⦃e⦄ a b x y = elim (e.dec a b) [ yes _ ↦ x | no _ ↦ y ]

module _ {ℓ κ} {A : Type ℓ} {B : Type κ} ⦃a : Eq A⦄ ⦃b : Eq B⦄ where
  unfoldable pub pair_dec : Discrete (A × B)
  pair_dec p q = elim (a.dec p.0 q.0) [
    | no n ↦ no (λ e. n (ap (λ r. r.0) e))
    | yes x ↦ elim (b.dec p.1 q.1) [
      | no n ↦ no (λ e. n (ap (λ r. r.1) e))
      | yes y ↦ yes (λ i. (x i, y i))
    ]
  ]

  instance abbrev pub pair_eq : Eq (A × B)
  pair_eq = record { dec = pair_dec }

  pub if_eq-pair {ι} :
      {C : Type ι} (p q : A) (r s : B) (x y : C)
      → if_eq {A = A × B} (p, r) (q, s) x y ≡ if_eq p q (if_eq r s x y) y
  unfolding pair_dec
  if_eq-pair p q r s x y = ground arith

module _ {ℓ} {A : Type ℓ} ⦃a : Eq A⦄ where
  unfoldable pub list_dec : Discrete (List A)
  list_dec = List-discrete a.dec

  instance abbrev pub list_eq : Eq (List A)
  list_eq = record { dec = list_dec }
