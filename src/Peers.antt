-- ===== src/Peers.antt =====
-- The peer table of the daemon (internal/mesh/peer_touch.go, with the counters of
-- internal/mesh/daemon_bridge.go that it moves). Times are nanoseconds since Go's zero time, which
-- is 0; durations are int64 nanoseconds.
use blackchain_node.Prelude.{
  ℕ, zero, suc, String, ◌<>◌, str_eq, Bool, true, false, not, ◌&&◌, ◌||◌, Option, none, some, List,
  [], ◌∷◌, ℤ, pos, pos_part, add64, sub64, mul64, ltb_ℤ, leb_ℤ, ◌+ℤ◌, leb, ltb, ◌==◌, if◌then◌else◌,
}
use blackchain_node.Platform.{Platform}
use blackchain_node.Signing.{is_empty}
use blackchain_node.Dict.{Map, lookup, insert, string_Eq}
pub mod Suppression
pub mod Store

abbrev pub peer_failure_suppress_after : ℤ
peer_failure_suppress_after = pos 3

abbrev pub peer_failure_suppress_step : ℤ
peer_failure_suppress_step = pos 15_000_000_000

abbrev pub peer_failure_suppress_max : ℤ
peer_failure_suppress_max = pos 60_000_000_000

abbrev pub sync_failure_suppress_step : ℤ
sync_failure_suppress_step = pos 2_000_000_000

abbrev pub sync_failure_suppress_max : ℤ
sync_failure_suppress_max = pos 30_000_000_000

-- The fields of `Peer` that are not made up for a reply.
pub record Peer : Type 0 where
  pub addr : String
  pub last_seen : ℕ
  pub connected : Bool
  pub reachable : Bool
  pub failure_count : ℤ
  pub sync_failures : ℤ
  pub suppressed_until : ℕ
  pub last_sync_err : String
  pub last_tip : String
  pub last_height : ℤ

-- The peers and the counters of the daemon.
pub record PeerTable : Type 0 where
  pub peers : Map String Peer
  pub peer_failure_count : ℤ
  pub last_peer_failure : String
  pub peer_suppression_count : ℤ
  pub last_peer_suppression : String

-- `&Peer{Addr: addr}`
abbrev pub fresh_peer : String → Peer
fresh_peer addr = record {
  addr = addr;
  last_seen = 0;
  connected = false;
  reachable = false;
  failure_count = pos 0;
  sync_failures = pos 0;
  suppressed_until = 0;
  last_sync_err = "";
  last_tip = "";
  last_height = pos 0;
}

-- The peer of an address, made where it is missing.
unfoldable pub peer_at : String → PeerTable → Peer
peer_at addr m = elim (lookup addr m.peers) [ none ↦ fresh_peer addr | some q ↦ q ]

abbrev pub set_peer : String → Peer → PeerTable → PeerTable
set_peer addr q m = record m { peers = insert addr q m.peers }

-- `now.Add(d)`; a time before the zero time is not reached
abbrev pub add_time : ℕ → ℤ → ℕ
add_time now d = pos_part (pos now +ℤ d)

-- `if d > max { d = max }`
abbrev pub at_most : ℤ → ℤ → ℤ
at_most max d = if ltb_ℤ max d then max else d

-- How long a peer is suppressed after so many failures to dial it.
unfoldable pub dial_suppression : ℤ → ℤ
dial_suppression failures =
    at_most peer_failure_suppress_max (
      mul64 (add64 (sub64 failures peer_failure_suppress_after) (pos 1)) peer_failure_suppress_step)

unfoldable pub sync_suppression : ℤ → ℤ
sync_suppression failures =
    at_most sync_failure_suppress_max (mul64 failures sync_failure_suppress_step)

module _ ⦃p : Platform⦄ where
  -- The text of `recordPeerFailure` and `recordPeerSuppression`.
  abbrev failure_text : String → String → String
  failure_text addr reason =
      if is_empty (p.trim_space addr)
      then p.trim_space reason
      else ((("peer=" <> p.trim_space addr) <> " ") <> p.trim_space reason)

  -- `recordPeerFailure`
  unfoldable pub record_peer_failure : String → String → PeerTable → PeerTable
  record_peer_failure addr reason m = if is_empty (p.trim_space reason) then m else record m {
    peer_failure_count = add64 m.peer_failure_count (pos 1);
    last_peer_failure = failure_text addr reason;
  }

  abbrev suppression_text : String → ℕ → String → String
  suppression_text addr until reason =
      if is_empty (p.trim_space addr)
      then p.trim_space reason
      else ((((("peer=" <> p.trim_space addr) <> " until=") <> p.format_time until) <> " ")
          <> p.trim_space reason)

  -- `recordPeerSuppression`
  unfoldable pub record_peer_suppression : String → ℕ → String → PeerTable → PeerTable
  record_peer_suppression addr until reason m = record m {
    peer_suppression_count = add64 m.peer_suppression_count (pos 1);
    last_peer_suppression = p.trim_space (suppression_text addr until reason);
  }

  -- `TouchPeer`
  unfoldable pub touch_peer : ℕ → String → PeerTable → PeerTable
  touch_peer now given m =
      let addr = p.trim_space given in
      if is_empty addr
      then m
      else set_peer addr
          (record (peer_at addr m) {
            connected = true;
            last_seen = now;
            failure_count = pos 0;
            suppressed_until = 0;
          })
          m

  -- The end of `TouchReachable` after a failure that reaches the limit or not.
  abbrev suppress_dial : ℕ → String → Peer → PeerTable → PeerTable
  suppress_dial now addr q m =
      let until = add_time now (dial_suppression q.failure_count) in
      if leb_ℤ peer_failure_suppress_after q.failure_count
      then record_peer_suppression addr until "dial failure suppression"
          (set_peer addr (record q { suppressed_until = until }) m)
      else m

  -- `TouchReachable` with `ok` false, on a trimmed address.
  unfoldable pub dial_failed : ℕ → String → PeerTable → PeerTable
  dial_failed now addr m =
      let q = peer_at addr m in
      let q' : Peer = record q {
        reachable = false;
        failure_count = add64 q.failure_count (pos 1);
      } in
      suppress_dial now addr q'
        (record_peer_failure addr "dial/connect failure" (set_peer addr q' m))

  -- `TouchReachable` with `ok` true, on a trimmed address.
  unfoldable pub dial_succeeded : String → PeerTable → PeerTable
  dial_succeeded addr m =
      set_peer addr
        (record (peer_at addr m) {
          reachable = true;
          failure_count = pos 0;
          sync_failures = pos 0;
          last_sync_err = "";
          suppressed_until = 0;
        })
        m

  -- `TouchReachable`
  unfoldable pub touch_reachable : ℕ → String → Bool → PeerTable → PeerTable
  touch_reachable now given reached m =
      let addr = p.trim_space given in
      if is_empty addr
      then m
      else (if reached then dial_succeeded addr m else dial_failed now addr m)

  -- `if err != nil { p.LastSyncErr = err.Error() }`
  abbrev sync_error : Option String → String → String
  sync_error none old = old
  sync_error (some e) old = e

  -- `noteSyncFailure`: how long the peer is suppressed
  unfoldable pub note_sync_failure : ℕ → String → Option String → PeerTable → ℤ × PeerTable
  note_sync_failure now given error m =
      let addr = p.trim_space given in
      if is_empty addr
      then (pos 0, m)
      else (let q = peer_at addr m in
          let failures = add64 q.sync_failures (pos 1) in
          let d = sync_suppression failures in
          let until = add_time now d in
          let q' : Peer = record q {
            sync_failures = failures;
            last_sync_err = sync_error error q.last_sync_err;
            suppressed_until = until;
          } in
          (
            d,
            record_peer_suppression addr until "sync suppression"
                (record_peer_failure addr "sync failure" (set_peer addr q' m)),
          ))

  -- `noteSyncSuccess`
  unfoldable pub note_sync_success : String → ℤ → String → PeerTable → PeerTable
  note_sync_success given height tip m =
      let addr = p.trim_space given in
      if is_empty addr
      then m
      else set_peer addr
          (record (peer_at addr m) {
            sync_failures = pos 0;
            last_sync_err = "";
            last_height = height;
            last_tip = p.trim_space tip;
            suppressed_until = 0;
          })
          m

  abbrev may_dial : ℕ → Option Peer → Bool
  may_dial now none = true
  may_dial now (some q) = (q.suppressed_until == 0) || not (ltb now q.suppressed_until)

  -- `shouldDialPeer`
  unfoldable pub should_dial_peer : String → ℕ → PeerTable → Bool
  should_dial_peer given now m =
      let addr = p.trim_space given in
      if is_empty addr then false else may_dial now (lookup addr m.peers)
