-- ===== src/Sync.antt =====
-- The bookkeeping of chain sync (internal/mesh/chain_sync.go): retry delays, the peers to ask, and the
-- samples of their heights.
use blackchain_node.Prelude.{
  ℕ, zero, suc, String, str_eq, Bool, true, false, not, ◌&&◌, ◌||◌, Option, none, some, List, [],
  ◌∷◌, ℤ, pos, mul64, ltb_ℤ, leb_ℤ, eqb_ℤ, ltb, ◌==◌, if◌then◌else◌,
}
use blackchain_node.Types.{
  Error, Result, ok, err, ◌>>=◌, ◌>>◌, reject_if, empty_peer_addr, negative_height, missing_tip,
  conflicting_tip, stale_height,
}
use blackchain_node.Platform.{Platform}
use blackchain_node.Signing.{is_empty}
use blackchain_node.Dict.{Map, insert, string_Eq}
use blackchain_node.Merkle.{str_lt}
use blackchain_node.Peers.{Peer, PeerTable, peer_at, set_peer}
pub mod Samples

abbrev pub sync_retry_base_delay : ℤ
sync_retry_base_delay = pos 300_000_000

abbrev pub sync_retry_max_delay : ℤ
sync_retry_max_delay = pos 5_000_000_000

-- `nextRetryDelay`
unfoldable pub next_retry_delay : ℤ → ℤ
next_retry_delay failures =
    let delay = mul64 failures sync_retry_base_delay in
    if leb_ℤ failures (pos 0)
    then sync_retry_base_delay
    else (if ltb_ℤ sync_retry_max_delay delay then sync_retry_max_delay else delay)

unfoldable pub insert_text : String → List String → List String
insert_text s [] = s ∷ []
insert_text s (t ∷ ts) = if str_lt t s then t ∷ insert_text s ts else s ∷ t ∷ ts

-- `sort.Strings`
unfoldable pub sort_texts : List String → List String
unfolding insert_text
sort_texts [] = []
sort_texts (s ∷ ss) = insert_text s (sort_texts ss)

-- The test of the loop of `reachablePeersForSync`.
abbrev pub may_sync : ℕ → Peer → Bool
may_sync now q = q.reachable && not (not (q.suppressed_until == 0) && ltb now q.suppressed_until)

unfoldable pub select_peers : (Peer → Bool) → Map String Peer → List String
select_peers test [] = []
select_peers test ((addr, q) ∷ peers) =
    if test q then addr ∷ select_peers test peers else select_peers test peers

-- `reachablePeers`
unfoldable pub reachable_peers : PeerTable → List String
reachable_peers m = sort_texts (select_peers (λ q. q.reachable) m.peers)

-- `reachablePeersForSync`
unfoldable pub reachable_peers_for_sync : ℕ → PeerTable → List String
reachable_peers_for_sync now m = sort_texts (select_peers (may_sync now) m.peers)

-- The tests of a sample against the last one.
unfoldable pub check_sample : ℤ → String → Peer → Result (Unit {0})
check_sample height tip q = do
  reject_if
      (ltb_ℤ (pos 0) q.last_height
        && eqb_ℤ height q.last_height
        && not (is_empty tip)
        && not (is_empty q.last_tip)
        && not (str_eq q.last_tip tip))
      conflicting_tip
  reject_if (ltb_ℤ (pos 0) q.last_height && ltb_ℤ height q.last_height) stale_height

module _ ⦃p : Platform⦄ where
  -- The tests of a sample by itself.
  unfoldable pub check_report : String → ℤ → String → Result (Unit {0})
  check_report addr height tip = do
    reject_if (is_empty addr) empty_peer_addr
    reject_if (ltb_ℤ height (pos 0)) negative_height
    reject_if (ltb_ℤ (pos 0) height && is_empty tip) missing_tip

  -- The end of `notePeerHeightSample`: a refused sample leaves a peer that was made.
  unfoldable pub take_sample : String → ℤ → String → PeerTable → Result (Unit {0}) × PeerTable
  take_sample addr height tip m =
      let q = peer_at addr m in
      elim (check_sample height tip q) [
        | err e ↦ (err e, set_peer addr q m)
        | ok u ↦ (ok u, set_peer addr (record q { last_height = height; last_tip = tip }) m)
      ]

  -- `notePeerHeightSample`
  unfoldable pub note_peer_height_sample :
      String → ℤ → String → PeerTable → Result (Unit {0}) × PeerTable
  note_peer_height_sample given height reported m =
      let addr = p.trim_space given in
      let tip = p.trim_space reported in
      elim (check_report addr height tip) [
        | err e ↦ (err e, m)
        | ok u ↦ take_sample addr height tip m
      ]
