-- ===== src/Gossip/Seen.antt =====
-- The cache of seen ids stays within its bound (internal/mesh/seen.go).
use blackchain_node.Prelude.{
  ℕ, zero, suc, ◌+◌, ◌≤◌, String, str_eq, str_eq_iff, false, some, [], ◌∷◌, ◌≡◌, refl, sym, ap, ◌∙◌,
  arith, ltb, leb, length, Bool-cases, inl, inr,
}
use blackchain_node.Signing.{is_empty}
use blackchain_node.Dict.{Map, lookup, insert, delete, string_Eq, lookup-insert, lookup-delete}
use blackchain_node.Dict.Size.{length-delete_lt}
use blackchain_node.Gossip.{
  seen_ttl, seen_max, prune_expired, oldest, prune_oldest, prune_seen, mark_seen,
}

-- No id in the cache is empty.
abbrev pub HasNames : Map String ℕ → Type 0
HasNames seen = (k : String) (t : ℕ) → lookup k seen ≡ some t → is_empty k ≡ false

-- An entry in front hides others, but takes none away.
found_behind :
    (j k : String) (t x : ℕ) (seen : Map String ℕ)
    → lookup j seen ≡ some x
    → (y : ℕ) × (lookup j ((k, t) ∷ seen) ≡ some y)
unfolding lookup
found_behind j k t x seen h = elim (Bool-cases (str_eq k j)) [
  | inl same ↦ (t, rw same refl)
  | inr other ↦ (x, rw other h)
]

found_between :
    (j k k' : String) (t t' x : ℕ) (seen : Map String ℕ)
    → lookup j ((k, t) ∷ seen) ≡ some x
    → (y : ℕ) × (lookup j ((k, t) ∷ (k', t') ∷ seen) ≡ some y)
unfolding lookup
found_between j k k' t t' x seen h = elim (Bool-cases (str_eq k j)) [
  | inl same ↦ (t, rw same refl)
  | inr other ↦ let (y, found) = found_behind j k' t' x seen (rw other at h) in (y, rw other found)
]

own_first : (k : String) (t : ℕ) (seen : Map String ℕ) → lookup k ((k, t) ∷ seen) ≡ some t
unfolding lookup
own_first k t seen = rw ((str_eq_iff k k).1 refl) refl

skip_first :
    (j k : String) (t : ℕ) (seen : Map String ℕ)
    → str_eq k j ≡ false
    → lookup j ((k, t) ∷ seen) ≡ lookup j seen
unfolding lookup
skip_first j k t seen other = rw other refl

oldest_found :
    (k : String) (t : ℕ) (seen : Map String ℕ)
    → (x : ℕ) × (lookup (oldest k t seen) ((k, t) ∷ seen) ≡ some x)
unfolding oldest
oldest_found k t [] = (t, own_first k t [])
oldest_found k t ((k', t') ∷ seen) = elim (Bool-cases (ltb t' t)) [
  | inl below ↦
      let (x, found) = oldest_found k' t' seen in
      rw (oldest, below) (found_behind (oldest k' t' seen) k t x ((k', t') ∷ seen) found)
  | inr above ↦
      let (x, found) = oldest_found k t seen in
      rw (oldest, above) (found_between (oldest k t seen) k k' t t' x seen found)
]

delete-HasNames : (k : String) (seen : Map String ℕ) → HasNames seen → HasNames (delete k seen)
delete-HasNames k seen h j t found = h j t (ground (arith, found, lookup-delete k j seen))

prune_oldest-bounded :
    (fuel : ℕ) (seen : Map String ℕ)
    → length seen ≤ fuel
    → HasNames seen
    → (length (prune_oldest fuel seen) ≤ seen_max) × HasNames (prune_oldest fuel seen)
unfolding prune_oldest
prune_oldest-bounded zero seen h names = (omega arith, names)
prune_oldest-bounded (suc fuel) [] h names = (omega arith, names)
prune_oldest-bounded (suc fuel) ((k, t) ∷ seen) h names =
    let first = oldest k t seen in
    let (x, found) = oldest_found k t seen in
    let named : is_empty first ≡ false = names first x found in
    let less = length-delete_lt first x ((k, t) ∷ seen) found in
    let rest =
      prune_oldest-bounded fuel (delete first ((k, t) ∷ seen)) (omega (arith, less, h))
        (delete-HasNames first ((k, t) ∷ seen) names) in
    elim (Bool-cases (leb (length ((k, t) ∷ seen)) seen_max)) [
      | inl small ↦ rw (prune_oldest, small) (ground arith, names)
      | inr big ↦ rw (prune_oldest, big, named) rest
    ]

kept_front :
    (j k : String) (u t : ℕ) (left seen : Map String ℕ)
    → (lookup j left ≡ some t → (y : ℕ) × (lookup j seen ≡ some y))
    → lookup j ((k, u) ∷ left) ≡ some t
    → (y : ℕ) × (lookup j ((k, u) ∷ seen) ≡ some y)
kept_front j k u t left seen rest h = elim (Bool-cases (str_eq k j)) [
  | inl same ↦
      (u, ap (λ i. lookup i ((k, u) ∷ seen)) (sym ((str_eq_iff k j).0 same)) ∙ own_first k u seen)
  | inr other ↦
      let (y, found) = rest (sym (skip_first j k u left other) ∙ h) in
      found_behind j k u y seen found
]

-- What the expiry keeps was there.
kept_found :
    (now : ℕ) (j : String) (t : ℕ) (seen : Map String ℕ)
    → lookup j (prune_expired now seen) ≡ some t
    → (y : ℕ) × (lookup j seen ≡ some y)
unfolding prune_expired
kept_found now j t [] h = (t, h)
kept_found now j t ((k, u) ∷ seen) h =
    let rest = kept_found now j t seen in
    elim (Bool-cases (ltb (u + seen_ttl) now)) [
      | inl old ↦
          let (y, found) = rest (rw (prune_expired, old) at h) in found_behind j k u y seen found
      | inr fresh ↦
          kept_front j k u t (prune_expired now seen) seen rest (rw (prune_expired, fresh) at h)
    ]

prune_seen-bounded :
    (now : ℕ) (seen : Map String ℕ)
    → HasNames seen
    → (length (prune_seen now seen) ≤ seen_max) × HasNames (prune_seen now seen)
unfolding prune_seen
prune_seen-bounded now seen h =
    let left = prune_expired now seen in
    prune_oldest-bounded (length left) left (omega arith)
      (λ k t found. let (y, there) = kept_found now k t seen found in h k y there)

-- `markSeen` keeps the cache at 5000 ids or fewer, none of them empty: its loop, which deletes one of
-- the oldest ids in each round, comes below that bound.
pub mark_seen-bounded :
    (now : ℕ) (id : String) (seen : Map String ℕ)
    → length seen ≤ seen_max
    → HasNames seen
    → (length (mark_seen now id seen) ≤ seen_max) × HasNames (mark_seen now id seen)
unfolding mark_seen
mark_seen-bounded now id seen small h = elim (Bool-cases (is_empty id)) [
  | inl empty ↦ rw (mark_seen, empty) (small, h)
  | inr named ↦
      rw (mark_seen, named)
        (prune_seen-bounded now (insert id now seen)
          (λ k t found. ground (arith, found, lookup-insert id k now seen, h k t, str_eq_iff id k)))
]
