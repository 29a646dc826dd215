-- ===== src/Gossip/Digits.antt =====
-- `itoa64` of internal/mesh/gossip.go writes the number that it is given.
use blackchain_node.Prelude.{
  ℕ, zero, suc, ◌+◌, ◌*◌, ◌/◌, ◌%◌, ◌^◌, ◌<◌, ◌<>◌, List, [], ◌∷◌, ◌≡◌, ap, ◌∙◌, arith, pos, negsuc,
  pos_part, refl, sub64, ◌⊎◌, String, ◌-ℤ◌, ◌==◌, Bool-cases, inl, inr,
}
use blackchain_node.Gossip.{digit_text, digits, digits_text, itoa64}

-- The number that digits stand for, after a number of digits that come before.
abbrev pub value_from : ℕ → List ℕ → ℕ
value_from a [] = a
value_from a (d ∷ ds) = value_from (a * 10 + d) ds

abbrev pub AreDigits : List ℕ → Type 0
AreDigits [] = Unit
AreDigits (d ∷ ds) = (d < 10) × AreDigits ds

-- There are digits, and the first of them is not zero.
abbrev pub HasLead : List ℕ → Type 0
HasLead [] = ⊥
HasLead (d ∷ ds) = 0 < d

abbrev numeral : ℕ → String
numeral zero = "0"
numeral (suc zero) = "1"
numeral (suc (suc zero)) = "2"
numeral (suc (suc (suc zero))) = "3"
numeral (suc (suc (suc (suc zero)))) = "4"
numeral (suc (suc (suc (suc (suc zero))))) = "5"
numeral (suc (suc (suc (suc (suc (suc zero)))))) = "6"
numeral (suc (suc (suc (suc (suc (suc (suc zero))))))) = "7"
numeral (suc (suc (suc (suc (suc (suc (suc (suc zero)))))))) = "8"
numeral _ = "9"

-- Digits, as they are written.
abbrev pub spelled : List ℕ → String
spelled [] = ""
spelled (d ∷ ds) = numeral d <> spelled ds

digit_text-numeral : (d : ℕ) → d < 10 → digit_text d ≡ numeral d
digit_text-numeral zero h = refl
digit_text-numeral (suc zero) h = refl
digit_text-numeral (suc (suc zero)) h = refl
digit_text-numeral (suc (suc (suc zero))) h = refl
digit_text-numeral (suc (suc (suc (suc zero)))) h = refl
digit_text-numeral (suc (suc (suc (suc (suc zero))))) h = refl
digit_text-numeral (suc (suc (suc (suc (suc (suc zero)))))) h = refl
digit_text-numeral (suc (suc (suc (suc (suc (suc (suc zero))))))) h = refl
digit_text-numeral (suc (suc (suc (suc (suc (suc (suc (suc zero)))))))) h = refl
digit_text-numeral (suc (suc (suc (suc (suc (suc (suc (suc (suc zero))))))))) h = refl
digit_text-numeral (suc (suc (suc (suc (suc (suc (suc (suc (suc (suc d)))))))))) h =
    absurd (omega (arith, h))

digits_text-spelled : (ds : List ℕ) → AreDigits ds → digits_text ds ≡ spelled ds
digits_text-spelled [] h = refl
digits_text-spelled (d ∷ ds) h = λ i. digit_text-numeral d h.0 i <> digits_text-spelled ds h.1 i

abbrev ten_to : ℕ → ℕ
ten_to zero = 1
ten_to (suc n) = 10 * ten_to n

digits-value :
    (fuel v : ℕ) (acc : List ℕ)
    → v < ten_to fuel
    → value_from 0 (digits fuel v acc) ≡ value_from v acc
unfolding digits
digits-value zero v acc h = ap (λ n. value_from n acc) (omega arith)
digits-value (suc fuel) v acc h = elim (Bool-cases (v == 0)) [
  | inl none ↦ rw (digits, none) (ap (λ n. value_from n acc) (ground arith))
  | inr some ↦
      rw (digits, some)
        (digits-value fuel (v / 10) (v % 10 ∷ acc) (omega arith)
          ∙ ap (λ n. value_from n acc) (omega arith))
]

digits-AreDigits : (fuel v : ℕ) (acc : List ℕ) → AreDigits acc → AreDigits (digits fuel v acc)
unfolding digits
digits-AreDigits zero v acc h = h
digits-AreDigits (suc fuel) v acc h = elim (Bool-cases (v == 0)) [
  | inl none ↦ rw (digits, none) h
  | inr some ↦ rw (digits, some) (digits-AreDigits fuel (v / 10) (v % 10 ∷ acc) (omega arith, h))
]

digits-HasLead :
    (fuel v : ℕ) (acc : List ℕ)
    → v < ten_to fuel
    → (0 < v) ⊎ HasLead acc
    → HasLead (digits fuel v acc)
unfolding digits
digits-HasLead zero v acc h (inl positive) = absurd (omega (arith, h, positive))
digits-HasLead zero v acc h (inr lead) = lead
digits-HasLead (suc fuel) v acc h lead = elim (Bool-cases (v == 0)) [
  | inl none ↦ elim lead [
    | inl positive ↦ absurd (ground (arith, none, positive))
    | inr first ↦ rw (digits, none) first
  ]
  | inr some ↦
      let there : (0 < v / 10) ⊎ HasLead (v % 10 ∷ acc) = ground (arith, some) in
      rw (digits, some) (digits-HasLead fuel (v / 10) (v % 10 ∷ acc) (omega (arith, h)) there)
]

opposite : (n : ℕ) → suc n < 2 ^ 63 → sub64 (pos 0) (negsuc n) ≡ pos (suc n)
unfolding sub64 ◌-ℤ◌
opposite n small = ground arith

negative_text :
    (n : ℕ)
    → itoa64 (negsuc n) ≡ "-" <> digits_text (digits 32 (pos_part (sub64 (pos 0) (negsuc n))) [])
unfolding itoa64
negative_text n = ground arith

-- For a number from 1 to 2^63 - 1, `itoa64` writes its decimal digits, the first of which is not zero,
-- and for its opposite a minus sign and the same digits.
pub itoa64_lem :
    (n : ℕ)
    → suc n < 2 ^ 63
    → (ds : List ℕ) × AreDigits ds
      × HasLead ds
      × (value_from 0 ds ≡ suc n)
      × (itoa64 (pos (suc n)) ≡ spelled ds)
      × (itoa64 (negsuc n) ≡ "-" <> spelled ds)
unfolding itoa64
itoa64_lem n small =
    let ds = digits 32 (suc n) [] in
    let are = digits-AreDigits 32 (suc n) [] tt in
    let written = digits_text-spelled ds are in
    let plain : itoa64 (pos (suc n)) ≡ digits_text ds = ground arith in
    let signed : itoa64 (negsuc n) ≡ "-" <> digits_text ds =
      negative_text n
      ∙ ap (λ z. "-" <> digits_text (digits 32 (pos_part z) [])) (opposite n small) in
    (
      ds,
      are,
      digits-HasLead 32 (suc n) [] (omega arith) (inl (omega arith)),
      digits-value 32 (suc n) [] (omega arith),
      plain ∙ written,
      signed ∙ ap (λ s. "-" <> s) written,
    )
