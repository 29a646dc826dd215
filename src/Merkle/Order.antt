-- ===== src/Merkle/Order.antt =====
-- The order of Go's strings, by which `merkleBalancesRoot` sorts the addresses.
use Prim.Native.Char.{Char, code}
use Prim.Native.String.compare
use Prim.Native.String.{[], ◌∷◌, compare, then as before}
use Prim.Native.Nat.{Ordering, compare as compare_ℕ}
use text.Mathlib.TextEquality.{codes_equal}
use blackchain_node.Prelude.{
  String, Bool, true, false, ◌≡◌, ◌≢◌, refl, sym, ap, ◌∙◌, arith, ltb, ◌==◌, if◌then◌else◌, ℕ,
}
use blackchain_node.Merkle.{str_lt}

abbrev is_lt : Ordering → Bool
is_lt o = elim o [ Ordering.lt ↦ true | _ ↦ false ]

-- The first characters decide, and the rest where they are equal.
abbrev lexical : ℕ → ℕ → Bool → Bool
lexical m n rest = if ltb m n then true else if m == n then rest else false

is_lt-then : (m n : ℕ) (r : Ordering) → is_lt (before (compare_ℕ m n) r) ≡ lexical m n (is_lt r)
is_lt-then m n r = cases (compare_ℕ m n) r
  where
    cases :
        (o r : Ordering)
        → is_lt (before o r) ≡ (
            if is_lt o
            then true
            else if elim o [ Ordering.eq ↦ true | _ ↦ false ]
            then is_lt r
            else false)
    cases Ordering.lt r = refl
    cases Ordering.eq r = refl
    cases Ordering.gt r = refl

str_lt-cons :
    (c d : Char) (s t : String) → str_lt (c ∷ s) (d ∷ t) ≡ lexical (code c) (code d) (str_lt s t)
str_lt-cons c d s t =
    ap is_lt (compare.cons-cons c d s t) ∙ is_lt-then (code c) (code d) (compare s t)

-- No text is below itself.
pub str_lt_irrefl : (s : String) → str_lt s s ≡ false
str_lt_irrefl [] = ap is_lt compare.nil-nil
str_lt_irrefl (c ∷ s) = str_lt-cons c c s s ∙ ground (arith, str_lt_irrefl s)

pub str_lt_trans : (r s t : String) → str_lt r s ≡ true → str_lt s t ≡ true → str_lt r t ≡ true
str_lt_trans [] [] t h k = k
str_lt_trans [] (d ∷ s) [] h k = absurd (ground (arith, compare.cons-nil d s))
str_lt_trans [] (d ∷ s) (e ∷ t) h k = ap is_lt (compare.nil-cons e t)
str_lt_trans (c ∷ r) [] t h k = absurd (ground (arith, compare.cons-nil c r))
str_lt_trans (c ∷ r) (d ∷ s) [] h k = absurd (ground (arith, compare.cons-nil d s))
str_lt_trans (c ∷ r) (d ∷ s) (e ∷ t) h k =
    let h' = sym (str_lt-cons c d r s) ∙ h in
    let k' = sym (str_lt-cons d e s t) ∙ k in
    str_lt-cons c e r t ∙ ground (arith, str_lt_trans r s t)

-- Of two different texts, one is below the other.
pub str_lt_total : (s t : String) → s ≢ t → str_lt s t ≡ false → str_lt t s ≡ true
str_lt_total [] [] ne h = absurd (ne refl)
str_lt_total [] (d ∷ t) ne h = absurd (ground (arith, compare.nil-cons d t))
str_lt_total (c ∷ s) [] ne h = ap is_lt (compare.nil-cons c s)
str_lt_total (c ∷ s) (d ∷ t) ne h =
    let h' = sym (str_lt-cons c d s t) ∙ h in
    str_lt-cons d c t s
    ∙ ground (
      arith,
      str_lt_total s t,
      (λ (e : compare_ℕ (code c) (code d) ≡ Ordering.eq) (f : s ≡ t).
          ne (λ i. codes_equal c d e i ∷ f i)),
    )
