-- ===== src/Reputation/Scores.antt =====
-- The scores of internal/mesh/reputation.go agree with their counts.
use blackchain_node.Prelude.{
  ℕ, ◌≡◌, refl, sym, ap, ◌∙◌, arith, String, str_eq, Bool, true, false, Option, none, some, pos,
  add64, sub64, Bool-cases, inl, inr,
}
use blackchain_node.Signing.{is_empty}
use blackchain_node.Dict.{lookup, insert, string_Eq, lookup-insert}
use blackchain_node.Reputation.{
  Reputation, Trust, reputation_of, mint, rescore, count_message, note_reputation_from_wire,
  note_forward_credit,
}

-- Every entry has the score that is computed from its counts.
abbrev pub IsScored : Trust → Type 0
IsScored m =
    (id : String) (r : Reputation)
    → lookup id m.reputation ≡ some r
    → r.score ≡ sub64 (add64 r.verified_count r.forwarded_count) r.invalid_count

-- A new entry that is scored.
inserted :
    (k : String) (r : Reputation) (m : Trust)
    → r.score ≡ sub64 (add64 r.verified_count r.forwarded_count) r.invalid_count
    → IsScored m
    → IsScored (record m { reputation = insert k r m.reputation })
inserted k r m e h id s found = elim (Bool-cases (str_eq k id)) [
  | inl here ↦
      let same : r ≡ s = ground (arith, lookup-insert k id r m.reputation, here, found) in
      ap (λ (x : Reputation). x.score) (sym same)
      ∙ (e
          ∙ ap
              (λ (x : Reputation). sub64 (add64 x.verified_count x.forwarded_count) x.invalid_count)
              same)
  | inr other ↦ h id s (ground (arith, lookup-insert k id r m.reputation, other, found))
]

minted : (id : String) (m : Trust) → IsScored m → IsScored (mint id m)
unfolding mint
minted id m h = h

-- The two functions, one by one.
wired :
    (now : ℕ) (sender : Option String) (verified : Bool) (m : Trust)
    → IsScored m
    → IsScored (note_reputation_from_wire now sender verified m)
unfolding note_reputation_from_wire
wired now none verified m h = h
wired now (some id) true m h =
    let r = rescore (count_message true (record (reputation_of id m) { last_seen = now })) in
    let m' = record m { reputation = insert id r m.reputation } in
    elim (Bool-cases (is_empty id)) [
      | inl blank ↦ rw (note_reputation_from_wire, blank) h
      | inr named ↦ rw (note_reputation_from_wire, named) (minted id m' (inserted id r m refl h))
    ]
wired now (some id) false m h =
    let r = rescore (count_message false (record (reputation_of id m) { last_seen = now })) in
    elim (Bool-cases (is_empty id)) [
      | inl blank ↦ rw (note_reputation_from_wire, blank) h
      | inr named ↦ rw (note_reputation_from_wire, named) (inserted id r m refl h)
    ]

forwarded : (now : ℕ) (m : Trust) → IsScored m → IsScored (note_forward_credit now m)
unfolding note_forward_credit
forwarded now m h =
    let id = m.node_id in
    let old = reputation_of id m in
    let r =
      rescore
        (record old { forwarded_count = add64 old.forwarded_count (pos 1); last_seen = now }) in
    let m' = record m { reputation = insert id r m.reputation } in
    elim (Bool-cases (is_empty id)) [
      | inl blank ↦ rw (note_forward_credit, blank) h
      | inr named ↦ rw (note_forward_credit, named) (minted id m' (inserted id r m refl h))
    ]

-- `noteReputationFromWire` and `noteForwardCredit` keep every score equal to the verified and the
-- forwarded count less the invalid count, on int64.
pub note-IsScored :
    (now : ℕ) (sender : Option String) (verified : Bool) (m : Trust)
    → IsScored m
    → IsScored (note_reputation_from_wire now sender verified m)
      × IsScored (note_forward_credit now m)
note-IsScored now sender verified m h = (wired now sender verified m h, forwarded now m h)
