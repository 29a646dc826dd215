-- ===== src/Snapshot.antt =====
-- Snapshots of internal/mesh/chain_snapshot.go: export, the two hashes, validation, and loading the
-- bytes of one.
use blackchain_node.Prelude.{
  String, ◌<>◌, str_eq, Bool, true, false, not, Option, none, some, List, [], ◌∷◌, ℤ, pos, ltb_ℤ,
  if◌then◌else◌,
}
use blackchain_node.Types.{
  Account, Error, Result, ok, err, ◌>>=◌, ◌>>◌, reject_if, empty_payload, decode_failed,
  negative_balance, negative_nonce, missing_accounts_hash, accounts_hash_mismatch,
  missing_snapshot_hash, snapshot_hash_mismatch,
}
use blackchain_node.Platform.{Platform, Bytes, AccountRow, ChainSnapshot}
use blackchain_node.Signing.{is_empty}
use blackchain_node.Dict.{Map}
use blackchain_node.Chain.{Chain}
use blackchain_node.Mempool.{reset_mempool}
use blackchain_node.Merkle.{sort_rows}
pub mod Loading

-- The rows of all accounts, zero ones included.
unfoldable pub all_rows : Map String Account → List AccountRow
all_rows [] = []
all_rows ((addr, a) ∷ m) = record { addr = addr; bal = a.balance; nonce = a.nonce } ∷ all_rows m

-- The loop of `validateSnapshotPayload`. It copies the accounts as they are.
unfoldable pub check_accounts : Map String Account → Result (Unit {0})
check_accounts [] = ok tt
check_accounts ((addr, a) ∷ m) =
    let rest = check_accounts m in
    do
      reject_if (ltb_ℤ a.balance (pos 0)) negative_balance
      reject_if (ltb_ℤ a.nonce (pos 0)) negative_nonce
      rest

module _ ⦃p : Platform⦄ where
  -- `computeAccountsHash`
  unfoldable pub compute_accounts_hash : Map String Account → String
  compute_accounts_hash accounts =
      p.hex_encode (p.sha256 (p.json_accounts (sort_rows (all_rows accounts))))

  -- `computeSnapshotHash`
  unfoldable pub compute_snapshot_hash : ℤ → String → String → String
  compute_snapshot_hash height tip accounts_hash =
      p.hex_encode
        (p.sha256 (p.bytes ((((p.format_int height <> "|") <> tip) <> "|") <> accounts_hash)))

  -- `ExportSnapshotLocked`
  unfoldable pub export_snapshot : Chain → ChainSnapshot
  export_snapshot c =
      let accounts_hash = compute_accounts_hash c.accounts in
      record {
        height = c.height;
        hash = c.tip;
        accounts = c.accounts;
        accounts_hash = accounts_hash;
        snapshot_hash = compute_snapshot_hash c.height c.tip accounts_hash;
      }

  -- `validateSnapshotPayload`: the accounts
  unfoldable pub validate_snapshot_payload : Bytes → ChainSnapshot → Result (Map String Account)
  validate_snapshot_payload raw snap = do
    reject_if (p.is_blank raw) empty_payload
    check_accounts snap.accounts
    reject_if (is_empty snap.accounts_hash) missing_accounts_hash
    reject_if (not (str_eq (compute_accounts_hash snap.accounts) snap.accounts_hash))
        accounts_hash_mismatch
    reject_if (is_empty snap.snapshot_hash) missing_snapshot_hash
    reject_if
        (not (
          str_eq (compute_snapshot_hash snap.height snap.hash snap.accounts_hash)
            snap.snapshot_hash))
        snapshot_hash_mismatch
    ok snap.accounts

  -- The reset to a validated snapshot; the finalized height stays.
  unfoldable pub reset_to : ChainSnapshot → Map String Account → Chain → Chain
  reset_to snap accounts c = reset_mempool (record c {
    height = snap.height;
    tip = snap.hash;
    accounts = accounts;
    blocks = [];
    pending = [];
  })

  abbrev pub load_decoded : Bytes → Option ChainSnapshot → Chain → Result (Unit {0}) × Chain
  load_decoded raw none c = (err decode_failed, c)
  load_decoded raw (some snap) c = elim (validate_snapshot_payload raw snap) [
    | err e ↦ (err e, c)
    | ok accounts ↦ (ok tt, reset_to snap accounts c)
  ]

  -- `LoadSnapshotFromBytes`
  unfoldable pub load_snapshot_from_bytes : Bytes → Chain → Result (Unit {0}) × Chain
  load_snapshot_from_bytes raw c =
      if p.is_blank raw
      then (err empty_payload, c)
      else load_decoded raw (p.json_decode_snapshot raw) c
