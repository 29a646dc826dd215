-- ===== src/Dict/Keys.antt =====
-- A Go map has one entry for each key: writes keep it so.
use blackchain_node.Prelude.{none, [], ◌∷◌, ◌≡◌, refl, sym, ap, ◌∙◌, arith, Bool-cases, inl, inr}
use blackchain_node.Dict.{Eq, Map, lookup, insert, lookup-insert}

module _ {ℓ κ} {K : Type ℓ} ⦃e : Eq K⦄ {V : Type κ} where
  abbrev pub IsKeyed : Map K V → Type κ
  IsKeyed [] = Unit
  IsKeyed ((k, v) ∷ m) = (lookup k m ≡ none) × IsKeyed m

  pub insert-IsKeyed : (k : K) (v : V) (m : Map K V) → IsKeyed m → IsKeyed (insert k v m)
  unfolding insert lookup
  insert-IsKeyed k v [] h = (refl, tt)
  insert-IsKeyed k v ((j, w) ∷ m) h = elim (Bool-cases (e.beq j k)) [
    | inl same ↦
        let here : j ≡ k = (e.beq_iff j k).0 same in
        rw (insert, same) (ap (λ i. lookup i m) (sym here) ∙ h.0, h.1)
    | inr other ↦
        rw (insert, other)
          (
            lookup-insert k j v m ∙ ground (arith, e.beq_iff j k, e.beq_iff k j),
            insert-IsKeyed k v m h.1,
          )
  ]
