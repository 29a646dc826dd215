-- ===== src/Dict/Laws.antt =====
-- The operations of a Go map, and what a read returns after each of them.
use blackchain_node.Prelude.{
  ℕ, String, str_eq, str_eq_iff, ◌≡◌, ◌≢◌, refl, ◌↔◌, inl, inr, Bool, true, false, Option, none,
  some, List, [], ◌∷◌, arith, ◌==◌, ==_iff, if◌then◌else◌, ℤ, eqb_ℤ, eqb_ℤ_iff, Bool-cases,
}

pub record Eq {ℓ} (A : Type ℓ) : Type ℓ where
  pub beq : A → A → Bool
  pub beq_iff : (a b : A) → (beq a b ≡ true) ↔ (a ≡ b)

instance abbrev pub string_Eq : Eq String
string_Eq = record { beq = str_eq; beq_iff = str_eq_iff }

instance abbrev pub int_Eq : Eq ℤ
int_Eq = record { beq = eqb_ℤ; beq_iff = eqb_ℤ_iff }

instance abbrev pub nat_Eq : Eq ℕ
nat_Eq = record { beq = ◌==◌; beq_iff = ==_iff }

abbrev pub Map {ℓ κ} : Type ℓ → Type κ → Type (ℓ ⊔ κ)
Map K V = List (K × V)

module _ {ℓ κ} {K : Type ℓ} ⦃e : Eq K⦄ {V : Type κ} where
  -- `v, ok := m[k]`
  unfoldable pub lookup : K → Map K V → Option V
  lookup k [] = none
  lookup k ((j, v) ∷ m) = if e.beq j k then some v else lookup k m

  -- `m[k] = v`
  unfoldable pub insert : K → V → Map K V → Map K V
  insert k v [] = (k, v) ∷ []
  insert k v ((j, w) ∷ m) = if e.beq j k then (k, v) ∷ m else (j, w) ∷ insert k v m

  -- `delete(m, k)`
  unfoldable pub delete : K → Map K V → Map K V
  delete k [] = []
  delete k ((j, w) ∷ m) = let rest = delete k m in if e.beq j k then rest else (j, w) ∷ rest

  -- `_, ok := m[k]`
  unfoldable pub contains : K → Map K V → Bool
  unfolding lookup
  contains k m = elim (lookup k m) [ none ↦ false | some v ↦ true ]

module _ {ℓ} {K : Type ℓ} ⦃e : Eq K⦄ where
  pub beq_self : (k : K) → e.beq k k ≡ true
  beq_self k = (e.beq_iff k k).1 refl

  pub beq_ne : (k j : K) → k ≢ j → e.beq k j ≡ false
  beq_ne k j h = elim (Bool-cases (e.beq k j)) [
    | inl same ↦ absurd (h ((e.beq_iff k j).0 same))
    | inr other ↦ other
  ]

module _ {ℓ κ} {K : Type ℓ} ⦃e : Eq K⦄ {V : Type κ} where
  pub lookup-insert :
      (k j : K) (v : V) (m : Map K V)
      → lookup j (insert k v m) ≡ (if e.beq k j then some v else lookup j m)
  unfolding lookup insert
  lookup-insert k j v [] = refl
  lookup-insert k j v ((i, w) ∷ m) =
      ground (arith, e.beq_iff k j, e.beq_iff i k, e.beq_iff i j, lookup-insert k j v m)

  pub lookup-delete :
      (k j : K) (m : Map K V) → lookup j (delete k m) ≡ (if e.beq k j then none else lookup j m)
  unfolding lookup delete
  lookup-delete k j [] = ground arith
  lookup-delete k j ((i, w) ∷ m) =
      ground (arith, e.beq_iff k j, e.beq_iff i k, e.beq_iff i j, lookup-delete k j m)

  pub lookup-insert_self : (k : K) (v : V) (m : Map K V) → lookup k (insert k v m) ≡ some v
  lookup-insert_self k v m = simp (lookup-insert, beq_self)

  pub lookup-insert_ne :
      (k j : K) (v : V) (m : Map K V) → k ≢ j → lookup j (insert k v m) ≡ lookup j m
  lookup-insert_ne k j v m h = simp (lookup-insert, beq_ne k j h)

  pub lookup-delete_self : (k : K) (m : Map K V) → lookup k (delete k m) ≡ none
  lookup-delete_self k m = simp (lookup-delete, beq_self)

  pub lookup-delete_ne : (k j : K) (m : Map K V) → k ≢ j → lookup j (delete k m) ≡ lookup j m
  lookup-delete_ne k j m h = simp (lookup-delete, beq_ne k j h)

  pub contains-insert :
      (k j : K) (v : V) (m : Map K V)
      → contains j (insert k v m) ≡ (if e.beq k j then true else contains j m)
  unfolding contains
  contains-insert k j v m = ground (arith, lookup-insert k j v m)

module _ {ℓ κ} {K : Type ℓ} ⦃e : Eq K⦄ (V : Type κ) where
  pub lookup-empty : (k : K) → lookup {V = V} k [] ≡ none
  unfolding lookup
  lookup-empty k = refl

  pub contains-empty : (k : K) → contains {V = V} k [] ≡ false
  unfolding contains
  contains-empty k = refl
