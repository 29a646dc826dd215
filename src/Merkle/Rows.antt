-- ===== src/Merkle/Rows.antt =====
-- Lists of account rows in the order of their addresses (internal/mesh/merkle_balances.go).
use blackchain_node.Prelude.{
  String, str_eq, str_eq_iff, true, false, Option, none, some, List, [], ◌∷◌, ◌≡◌, ◌≢◌, refl, sym,
  ap, ◌∙◌, arith, Bool-cases, inl, inr, ◌⊎◌, if◌then◌else◌,
}
use blackchain_node.Platform.{AccountRow}
use blackchain_node.Dict.{string_Eq}
use blackchain_node.Merkle.{str_lt, insert_row, sort_rows}
use blackchain_node.Merkle.Order.{str_lt_irrefl, str_lt_trans, str_lt_total}

abbrev pub row_at : String → List AccountRow → Option AccountRow
row_at a [] = none
row_at a (r ∷ rows) = if str_eq r.addr a then some r else row_at a rows

-- The addresses of the rows are above `a`.
abbrev IsAbove : String → List AccountRow → Type 0
IsAbove a [] = Unit
IsAbove a (r ∷ rows) = (str_lt a r.addr ≡ true) × IsAbove a rows

abbrev pub IsSorted : List AccountRow → Type 0
IsSorted [] = Unit
IsSorted (r ∷ rows) = IsAbove r.addr rows × IsSorted rows

abbrev pub IsDistinctRows : List AccountRow → Type 0
IsDistinctRows [] = Unit
IsDistinctRows (r ∷ rows) = (row_at r.addr rows ≡ none) × IsDistinctRows rows

lt_ne : (a b : String) → str_lt a b ≡ true → str_eq b a ≡ false
lt_ne a b h = elim (Bool-cases (str_eq b a)) [
  | inr other ↦ other
  | inl same ↦
      let e : b ≡ a = (str_eq_iff b a).0 same in
      absurd (ground (arith, str_lt_irrefl a, ap (λ c. str_lt a c) e))
]

IsAbove-none : (a : String) (rows : List AccountRow) → IsAbove a rows → row_at a rows ≡ none
IsAbove-none a [] h = refl
IsAbove-none a (r ∷ rows) h = rw (lt_ne a r.addr h.0) (IsAbove-none a rows h.1)

IsAbove-trans :
    (a b : String) (rows : List AccountRow) → str_lt a b ≡ true → IsAbove b rows → IsAbove a rows
IsAbove-trans a b [] h k = tt
IsAbove-trans a b (r ∷ rows) h k = (str_lt_trans a b r.addr h k.0, IsAbove-trans a b rows h k.1)

IsAbove-insert :
    (a : String) (r : AccountRow) (rows : List AccountRow)
    → str_lt a r.addr ≡ true
    → IsAbove a rows
    → IsAbove a (insert_row r rows)
unfolding insert_row
IsAbove-insert a r [] h k = (h, tt)
IsAbove-insert a r (s ∷ rows) h k = elim (Bool-cases (str_lt s.addr r.addr)) [
  | inl below ↦ rw (insert_row, below) (k.0, IsAbove-insert a r rows h k.1)
  | inr above ↦ rw (insert_row, above) (h, k)
]

insert_row-at :
    (a : String) (r : AccountRow) (rows : List AccountRow)
    → row_at a (insert_row r rows) ≡ row_at a (r ∷ rows)
unfolding insert_row
insert_row-at a r [] = refl
insert_row-at a r (s ∷ rows) = elim (Bool-cases (str_lt s.addr r.addr)) [
  | inr above ↦ rw (insert_row, above) refl
  | inl below ↦
      let apart = lt_ne s.addr r.addr below in
      rw (insert_row, below)
        (ground (
          arith,
          insert_row-at a r rows,
          str_eq_iff s.addr a,
          str_eq_iff r.addr a,
          str_eq_iff r.addr s.addr,
        ))
]

pub sort_rows-at : (a : String) (rows : List AccountRow) → row_at a (sort_rows rows) ≡ row_at a rows
unfolding sort_rows
sort_rows-at a [] = refl
sort_rows-at a (r ∷ rows) =
    insert_row-at a r (sort_rows rows)
    ∙ ap (λ (o : Option AccountRow). if str_eq r.addr a then some r else o) (sort_rows-at a rows)

insert_row-IsSorted :
    (r : AccountRow) (rows : List AccountRow)
    → row_at r.addr rows ≡ none
    → IsSorted rows
    → IsSorted (insert_row r rows)
unfolding insert_row
insert_row-IsSorted r [] h k = (tt, tt)
insert_row-IsSorted r (s ∷ rows) h k =
    let apart : s.addr ≢ r.addr = λ e. ground (arith, str_eq_iff s.addr r.addr) in
    elim (Bool-cases (str_lt s.addr r.addr)) [
      | inl below ↦
          rw (insert_row, below)
            (
              IsAbove-insert s.addr r rows below k.0,
              insert_row-IsSorted r rows (ground (arith, str_eq_iff s.addr r.addr)) k.1,
            )
      | inr above ↦
          let first = str_lt_total s.addr r.addr apart above in
          rw (insert_row, above) ((first, IsAbove-trans r.addr s.addr rows first k.0), k)
    ]

pub sort_rows-IsSorted : (rows : List AccountRow) → IsDistinctRows rows → IsSorted (sort_rows rows)
unfolding sort_rows
sort_rows-IsSorted [] h = tt
sort_rows-IsSorted (r ∷ rows) h =
    insert_row-IsSorted r (sort_rows rows) (sort_rows-at r.addr rows ∙ h.0)
      (sort_rows-IsSorted rows h.1)

row_at_head : (r : AccountRow) (rows : List AccountRow) → row_at r.addr (r ∷ rows) ≡ some r
row_at_head r rows = rw ((str_eq_iff r.addr r.addr).1 refl) refl

-- A row that is found below a head stands at the head or above it.
found_above :
    (a : String) (r s : AccountRow) (rows : List AccountRow)
    → IsAbove s.addr rows
    → row_at a (s ∷ rows) ≡ some r
    → (s ≡ r) ⊎ (str_lt s.addr a ≡ true)
found_above a r s [] h e = ground (arith, e)
found_above a r s (t ∷ rows) h e = elim (Bool-cases (str_eq s.addr a)) [
  | inl same ↦ ground (arith, e)
  | inr other ↦ elim (Bool-cases (str_eq t.addr a)) [
    | inl here ↦ inr (ap (str_lt s.addr) (sym ((str_eq_iff t.addr a).0 here)) ∙ h.0)
    | inr there ↦ elim (found_above a r s rows h.1 (rw (other) (rw (other, there) at e))) [
      | inl same ↦ inl same
      | inr below ↦ inr below
    ]
  ]
]

heads_agree :
    (r s : AccountRow) (rows rows' : List AccountRow)
    → IsSorted (r ∷ rows)
    → IsSorted (s ∷ rows')
    → ((a : String) → row_at a (r ∷ rows) ≡ row_at a (s ∷ rows'))
    → r ≡ s
heads_agree r s rows rows' h k same =
    elim (found_above r.addr r s rows' k.0 (sym (same r.addr) ∙ row_at_head r rows)) [
      | inl e ↦ sym e
      | inr below ↦ elim (found_above s.addr s r rows h.0 (same s.addr ∙ row_at_head s rows')) [
        | inl e ↦ e
        | inr above ↦
            absurd
              (ground (arith, str_lt_trans r.addr s.addr r.addr above below, str_lt_irrefl r.addr))
      ]
    ]

tails_agree :
    (a : String) (r : AccountRow) (rows rows' : List AccountRow)
    → IsSorted (r ∷ rows)
    → IsSorted (r ∷ rows')
    → row_at a (r ∷ rows) ≡ row_at a (r ∷ rows')
    → row_at a rows ≡ row_at a rows'
tails_agree a r rows rows' h k same = elim (Bool-cases (str_eq r.addr a)) [
  | inr other ↦ rw other at same
  | inl here ↦
      let e : r.addr ≡ a = (str_eq_iff r.addr a).0 here in
      rw (← e) (IsAbove-none r.addr rows h.0 ∙ sym (IsAbove-none r.addr rows' k.0))
]

-- A sorted list of rows is determined by what it has at each address.
pub sorted_unique :
    (rows rows' : List AccountRow)
    → IsSorted rows
    → IsSorted rows'
    → ((a : String) → row_at a rows ≡ row_at a rows')
    → rows ≡ rows'
sorted_unique [] [] h k same = refl
sorted_unique [] (s ∷ rows') h k same = absurd (ground (arith, same s.addr, row_at_head s rows'))
sorted_unique (r ∷ rows) [] h k same = absurd (ground (arith, same r.addr, row_at_head r rows))
sorted_unique (r ∷ rows) (s ∷ rows') h k same =
    let e : r ≡ s = heads_agree r s rows rows' h k same in
    let k' : IsSorted (r ∷ rows') = rw e k in
    let same' : (a : String) → row_at a (r ∷ rows) ≡ row_at a (r ∷ rows') =
      λ a. same a ∙ ap (λ (t : AccountRow). row_at a (t ∷ rows')) (sym e) in
    ap (λ (t : AccountRow). t ∷ rows) e
    ∙ ap (λ (l : List AccountRow). s ∷ l)
        (sorted_unique rows rows' h.1 k.1 (λ a. tails_agree a r rows rows' h k' (same' a)))
