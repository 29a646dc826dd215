-- ===== src/Snapshot/Loading.antt =====
-- Loading a snapshot (internal/mesh/chain_snapshot.go).
use blackchain_node.Prelude.{
  String, str_eq_iff, ◌≡◌, refl, arith, false, some, [], ◌∷◌, ℤ, pos, Bool-cases, Option-cases, inl,
  inr, All, ◌≤ℤ◌,
}
use blackchain_node.Types.{Account, ok, Result-cases}
use blackchain_node.Platform.{Platform, Bytes, ChainSnapshot, SnapshotRoundTrip}
use blackchain_node.Signing.{is_empty}
use blackchain_node.Dict.{Map}
use blackchain_node.Chain.{Chain}
use blackchain_node.Mempool.{reset_mempool}
use blackchain_node.Snapshot.{
  check_accounts, compute_accounts_hash, compute_snapshot_hash, export_snapshot,
  validate_snapshot_payload, reset_to, load_decoded, load_snapshot_from_bytes,
}

-- An account whose balance and nonce are not negative.
abbrev pub IsNonneg : String × Account → Type 0
IsNonneg (addr, a) = (pos 0 ≤ℤ a.balance) × (pos 0 ≤ℤ a.nonce)

check_accounts-ok : (m : Map String Account) → All IsNonneg m → check_accounts m ≡ ok tt
unfolding check_accounts
check_accounts-ok [] h = refl
check_accounts-ok ((addr, a) ∷ m) (h, hs) =
    let rest = check_accounts-ok m hs in let (u, v) = h in ground (arith, rest, u, v)

check_accounts_sound : (m : Map String Account) → check_accounts m ≡ ok tt → All IsNonneg m
unfolding check_accounts
check_accounts_sound [] h = tt
check_accounts_sound ((addr, a) ∷ m) h = elim (Result-cases (check_accounts m)) [
  | inl (tt, good) ↦ ((ground arith, ground arith), check_accounts_sound m good)
  | inr (e, bad) ↦ absurd (ground (arith, bad, h))
]

module _ ⦃p : Platform⦄ where
  -- What a chain is after the bytes of a snapshot are loaded.
  pub record IsLoaded (snap : ChainSnapshot) (c c' : Chain) : Type 0 where
    pub height : c'.height ≡ snap.height
    pub tip : c'.tip ≡ snap.hash
    pub accounts : c'.accounts ≡ snap.accounts
    pub nonneg : All IsNonneg snap.accounts
    pub accounts_hash : snap.accounts_hash ≡ compute_accounts_hash snap.accounts
    pub snapshot_hash :
        snap.snapshot_hash ≡ compute_snapshot_hash snap.height snap.hash snap.accounts_hash
    pub blocks : c'.blocks ≡ []
    pub mempool : c'.mempool ≡ []
    pub finalized : c'.finalized_height ≡ c.finalized_height

  validate_sound :
      (raw : Bytes) (snap : ChainSnapshot) (accounts : Map String Account) (c : Chain)
      → validate_snapshot_payload raw snap ≡ ok accounts
      → IsLoaded snap c (reset_to snap accounts c)
  unfolding validate_snapshot_payload reset_to reset_mempool
  validate_sound raw snap accounts c h =
      let a = (str_eq_iff (compute_accounts_hash snap.accounts) snap.accounts_hash).0 in
      let s =
        (str_eq_iff (compute_snapshot_hash snap.height snap.hash snap.accounts_hash)
          snap.snapshot_hash).0 in
      elim (Result-cases (check_accounts snap.accounts)) [
        | inr (e, bad) ↦ absurd (ground (arith, bad, h))
        | inl (tt, good) ↦ record {
          height = refl;
          tip = refl;
          accounts = ground (arith, good, h);
          nonneg = check_accounts_sound snap.accounts good;
          accounts_hash = ground (arith, good, h, a);
          snapshot_hash = ground (arith, good, h, s);
          blocks = refl;
          mempool = refl;
          finalized = refl;
        }
      ]

  -- The bytes of a snapshot that `LoadSnapshotFromBytes` accepts decode to a snapshot with accounts
  -- that are not negative and with the two hashes that are computed for it. The chain takes its
  -- height, tip and accounts, and loses blocks and mempool; the finalized height stays what it was.
  pub load_snapshot_from_bytes-IsLoaded :
      (raw : Bytes) (c : Chain)
      → (load_snapshot_from_bytes raw c).0 ≡ ok tt
      → (snap : ChainSnapshot) × (p.json_decode_snapshot raw ≡ some snap)
        × IsLoaded snap c (load_snapshot_from_bytes raw c).1
  unfolding load_snapshot_from_bytes
  load_snapshot_from_bytes-IsLoaded raw c h = elim (Bool-cases (p.is_blank raw)) [
    | inl blank ↦ absurd (ground (arith, blank, h))
    | inr full ↦ elim (Option-cases (p.json_decode_snapshot raw)) [
      | inl bad ↦ absurd (ground (arith, full, bad, h))
      | inr (snap, good) ↦ elim (Result-cases (validate_snapshot_payload raw snap)) [
        | inr (e, wrong) ↦ absurd (ground (arith, full, good, wrong, h))
        | inl (accounts, valid) ↦ (
          snap,
          good,
          rw (load_snapshot_from_bytes, full, good, load_decoded, valid)
              (validate_sound raw snap accounts c valid),
        )
      ]
    ]
  ]

  accounts_hash_named :
      (m : Map String Account)
      → ((b : Bytes) → is_empty (p.hex_encode (p.sha256 b)) ≡ false)
      → is_empty (compute_accounts_hash m) ≡ false
  unfolding compute_accounts_hash
  accounts_hash_named m long = long _

  snapshot_hash_named :
      (height : ℤ) (tip hash : String)
      → ((b : Bytes) → is_empty (p.hex_encode (p.sha256 b)) ≡ false)
      → is_empty (compute_snapshot_hash height tip hash) ≡ false
  unfolding compute_snapshot_hash
  snapshot_hash_named height tip hash long = long _

  validate-export :
      (raw : Bytes) (c : Chain)
      → p.is_blank raw ≡ false
      → ((b : Bytes) → is_empty (p.hex_encode (p.sha256 b)) ≡ false)
      → All IsNonneg c.accounts
      → validate_snapshot_payload raw (export_snapshot c) ≡ ok c.accounts
  unfolding validate_snapshot_payload export_snapshot
  validate-export raw c full long nonneg =
      let snap = export_snapshot c in
      let good = check_accounts-ok c.accounts nonneg in
      let same = (str_eq_iff snap.accounts_hash snap.accounts_hash).1 refl in
      let same' = (str_eq_iff snap.snapshot_hash snap.snapshot_hash).1 refl in
      let named : is_empty snap.accounts_hash ≡ false = accounts_hash_named c.accounts long in
      let named' : is_empty snap.snapshot_hash ≡ false =
        snapshot_hash_named c.height c.tip snap.accounts_hash long in
      rw (full, good, named, same, named', same') refl

  pub load-export_snapshot :
      (c d : Chain)
      → SnapshotRoundTrip p (export_snapshot c)
      → ((b : Bytes) → is_empty (p.hex_encode (p.sha256 b)) ≡ false)
      → All IsNonneg c.accounts
      → load_snapshot_from_bytes (p.json_snapshot (export_snapshot c)) d
        ≡ (ok tt, reset_to (export_snapshot c) c.accounts d)
  unfolding load_snapshot_from_bytes
  load-export_snapshot c d round long nonneg =
      let (decoded, full) = round in
      let valid = validate-export (p.json_snapshot (export_snapshot c)) c full long nonneg in
      rw (full, decoded, load_decoded, valid) refl
