-- ===== src/Examples/Peering.antt =====
-- Tests of the peer table (internal/mesh/peer_touch.go), the peer store (internal/store/peers.go) and
-- snapshots (internal/mesh/chain_snapshot.go).
use blackchain_node.Merkle.{
  nonzero_rows, insert_row, sort_rows, leaf, next_level, build, merkle_balances_root,
}
use blackchain_node.Snapshot.{
  all_rows, check_accounts, compute_accounts_hash, compute_snapshot_hash, export_snapshot,
  validate_snapshot_payload, reset_to, load_snapshot_from_bytes,
}
use blackchain_node.Prelude.{
  ℕ, ◌+◌, ◌≤◌, ◌<◌, ◌≡◌, refl, arith, String, Bool, true, false, none, some, [], ◌∷◌, pos, ltb,
  add64, ◌≤ℤ◌, ◌<ℤ◌, ◌==◌, if◌then◌else◌, ◌+ℤ◌, ◌-ℤ◌, ◌*ℤ◌, wrap64, sub64, mul64, div64,
}
use blackchain_node.Types.{ok}
use blackchain_node.Platform.{ChainSnapshot, Bytes}
use blackchain_node.Signing.{is_empty}
use blackchain_node.Dict.{Map, string_Eq}
use blackchain_node.Peers.{
  PeerTable, note_sync_failure, peer_at, should_dial_peer, touch_reachable, dial_suppression,
  add_time, sync_failure_suppress_max, peer_failure_suppress_max, peer_failure_suppress_after,
  fresh_peer,
}
use blackchain_node.Peers.Suppression.{note_sync_failure-should_dial, touch_reachable-should_dial}
use blackchain_node.Peers.Store.{StoredPeer}
use blackchain_node.Snapshot.Loading.{
  IsLoaded, load_snapshot_from_bytes-IsLoaded, load-export_snapshot,
}
use blackchain_node.Examples.{toy, genesis, toy_snapshot, before_split}

-- A peer with two failures to be dialled.
abbrev table : PeerTable
table = record {
  peers = ("n1", record (fresh_peer "n1") { failure_count = pos 2 }) ∷ [];
  peer_failure_count = pos 2;
  last_peer_failure = "";
  peer_suppression_count = pos 0;
  last_peer_suppression = "";
}

note_sync_failure-should_dial_example :
    let d = (note_sync_failure 100 "n1" none table).0 in
    let m' = (note_sync_failure 100 "n1" none table).1 in
    (d ≤ℤ sync_failure_suppress_max)
    × (add_time 100 d ≤ 200 → should_dial_peer "n1" 200 m' ≡ true)
    × (200 < add_time 100 d → should_dial_peer "n1" 200 m' ≡ false)
note_sync_failure-should_dial_example = note_sync_failure-should_dial 100 "n1" none table 200 refl

touch_reachable-should_dial_example :
    let q = peer_at "n1" table in
    let n = add64 q.failure_count (pos 1) in
    let m' = touch_reachable 100 "n1" false table in
    let until = add_time 100 (dial_suppression n) in
    (dial_suppression n ≤ℤ peer_failure_suppress_max)
    × (peer_failure_suppress_after ≤ℤ n → until ≤ 200 → should_dial_peer "n1" 200 m' ≡ true)
    × (peer_failure_suppress_after ≤ℤ n → 200 < until → should_dial_peer "n1" 200 m' ≡ false)
    × (n <ℤ peer_failure_suppress_after → (peer_at "n1" m').suppressed_until ≡ q.suppressed_until)
touch_reachable-should_dial_example = touch_reachable-should_dial 100 "n1" table 200 refl

-- Whole numbers for scores, where every score over 3 counts as too low.
abbrev low : ℕ → Bool
low n = ltb 3 n

abbrev NatPeer : Type 0
NatPeer = StoredPeer ℕ ◌+◌ low

abbrev old_peer : NatPeer
old_peer = record { id = "p1"; address = "n1"; last_seen = pos 3; score = 2 }

abbrev stored : Map String NatPeer
stored = ("n1", old_peer) ∷ []

load_snapshot_from_bytes_runs : (load_snapshot_from_bytes (9 ∷ []) before_split).0 ≡ ok tt
unfolding all_rows check_accounts compute_accounts_hash compute_snapshot_hash export_snapshot
    validate_snapshot_payload reset_to load_snapshot_from_bytes nonzero_rows insert_row sort_rows
    leaf next_level build merkle_balances_root ◌+ℤ◌ ◌-ℤ◌ ◌*ℤ◌ wrap64 add64 sub64 mul64 div64
load_snapshot_from_bytes_runs = refl

load_snapshot_from_bytes-IsLoaded_example :
    (snap : ChainSnapshot) × (some toy_snapshot ≡ some snap)
    × IsLoaded snap before_split (load_snapshot_from_bytes (9 ∷ []) before_split).1
load_snapshot_from_bytes-IsLoaded_example =
    load_snapshot_from_bytes-IsLoaded (9 ∷ []) before_split load_snapshot_from_bytes_runs

choice_named :
    (t : Bool) (a b : String)
    → is_empty a ≡ false
    → is_empty b ≡ false
    → is_empty (if t then a else b) ≡ false
choice_named true a b h k = h
choice_named false a b h k = k

encode_named : (b : Bytes) → is_empty (toy.hex_encode b) ≡ false
encode_named [] = refl
encode_named (x ∷ xs) =
    let rest = choice_named (x == 4) "tx0" _ refl (choice_named (x == 5) "tx1" "tx2" refl refl) in
    choice_named (x == 0) "alice" _ refl (
      choice_named (x == 1) "sig" _ refl
        (choice_named (x == 2) "block" _ refl (choice_named (x == 3) "root" _ refl rest)))

genesis_round : some toy_snapshot ≡ some (export_snapshot genesis)
unfolding all_rows check_accounts compute_accounts_hash compute_snapshot_hash export_snapshot
    validate_snapshot_payload reset_to load_snapshot_from_bytes nonzero_rows insert_row sort_rows
    leaf next_level build merkle_balances_root
genesis_round = refl

load-export_snapshot_example :
    load_snapshot_from_bytes (toy.json_snapshot (export_snapshot genesis)) before_split
    ≡ (ok tt, reset_to (export_snapshot genesis) genesis.accounts before_split)
load-export_snapshot_example =
    load-export_snapshot genesis before_split (genesis_round, refl) encode_named
      ((omega arith, omega arith), tt)
