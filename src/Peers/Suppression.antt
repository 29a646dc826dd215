-- ===== src/Peers/Suppression.antt =====
-- How long a failing peer is left alone (internal/mesh/peer_touch.go).
use blackchain_node.Prelude.{
  ℕ, ◌+◌, ◌*◌, ◌≤◌, ◌<◌, ◌≡◌, refl, arith, String, true, false, Option, some, ℤ, pos, add64, leb_ℤ,
  ◌≤ℤ◌, ◌<ℤ◌, ◌*ℤ◌, +ℤ_parts, mul64_exact, if◌then◌else◌, Bool-cases, inl, inr,
}
use blackchain_node.Platform.{Platform}
use blackchain_node.Signing.{is_empty}
use blackchain_node.Dict.{lookup, string_Eq, lookup-insert_self}
use blackchain_node.Peers.{
  Peer, PeerTable, peer_at, dial_suppression, sync_suppression, add_time, record_peer_failure,
  record_peer_suppression, touch_peer, dial_failed, dial_succeeded, touch_reachable,
  note_sync_failure, note_sync_success, should_dial_peer, sync_failure_suppress_max,
  sync_failure_suppress_step, sync_error, set_peer, peer_failure_suppress_max,
  peer_failure_suppress_after,
}

-- Neither kind of suppression exceeds its bound, whatever the number of failures.
dial_suppression_le : (n : ℤ) → dial_suppression n ≤ℤ peer_failure_suppress_max
unfolding dial_suppression
dial_suppression_le n = ground arith

sync_suppression_le : (n : ℤ) → sync_suppression n ≤ℤ sync_failure_suppress_max
unfolding sync_suppression
sync_suppression_le n = ground arith

-- At small counts the suppression after `n` sync failures is 2 n seconds, up to 30.
sync_suppression_small : (n : ℕ) → n ≤ 15 → sync_suppression (pos n) ≡ pos (n * 2_000_000_000)
unfolding sync_suppression ◌*ℤ◌
sync_suppression_small n h =
    let e = mul64_exact (pos n) sync_failure_suppress_step in ground (arith, e)

-- A suppression within the bound ends within the bound.
until_le : (now : ℕ) (d : ℤ) (bound : ℕ) → d ≤ℤ pos bound → add_time now d ≤ now + bound
until_le now d bound h = ground (arith, +ℤ_parts (pos now) d)

module _ ⦃p : Platform⦄ where
  recorded_peers :
      (addr reason : String) (m : PeerTable) → (record_peer_failure addr reason m).peers ≡ m.peers
  unfolding record_peer_failure
  recorded_peers addr reason m = ground arith

  suppressed_peers :
      (addr : String) (until : ℕ) (reason : String) (m : PeerTable)
      → (record_peer_suppression addr until reason m).peers ≡ m.peers
  unfolding record_peer_suppression
  suppressed_peers addr until reason m = refl

  note_sync_failure_le :
      (now : ℕ) (given : String) (error : Option String) (m : PeerTable)
      → (note_sync_failure now given error m).0 ≤ℤ sync_failure_suppress_max
  unfolding note_sync_failure
  note_sync_failure_le now given error m = elim (Bool-cases (is_empty (p.trim_space given))) [
    | inl blank ↦ rw (note_sync_failure, blank) (omega arith)
    | inr named ↦
        rw (note_sync_failure, named)
          (sync_suppression_le (add64 (peer_at (p.trim_space given) m).sync_failures (pos 1)))
  ]

  -- The peer that `noteSyncFailure` stores.
  noted_peer :
      (now : ℕ) (given : String) (error : Option String) (m : PeerTable)
      → is_empty (p.trim_space given) ≡ false
      → (q : Peer) × (lookup (p.trim_space given) (note_sync_failure now given error m).1.peers
          ≡ some q)
        × (q.suppressed_until ≡ add_time now (note_sync_failure now given error m).0)
  unfolding note_sync_failure
  noted_peer now given error m named =
      let addr = p.trim_space given in
      let q = peer_at addr m in
      let failures = add64 q.sync_failures (pos 1) in
      let until = add_time now (sync_suppression failures) in
      let q' : Peer = record q {
        sync_failures = failures;
        last_sync_err = sync_error error q.last_sync_err;
        suppressed_until = until;
      } in
      let m1 = set_peer addr q' m in
      (
        q',
        rw
            (
              note_sync_failure,
              named,
              suppressed_peers addr until "sync suppression"
                  (record_peer_failure addr "sync failure" m1),
              recorded_peers addr "sync failure" m1,
            )
            (lookup-insert_self addr q' m.peers),
        rw (note_sync_failure, named) refl,
      )

  -- For an address that is not blank, `noteSyncFailure` at `now` returns at most 30 seconds;
  -- `shouldDialPeer` then answers no until that time is over, and yes from there on.
  pub note_sync_failure-should_dial :
      (now : ℕ) (given : String) (error : Option String) (m : PeerTable) (t : ℕ)
      → is_empty (p.trim_space given) ≡ false
      → let d = (note_sync_failure now given error m).0 in
        let m' = (note_sync_failure now given error m).1 in
        (d ≤ℤ sync_failure_suppress_max)
        × (add_time now d ≤ t → should_dial_peer given t m' ≡ true)
        × (t < add_time now d → should_dial_peer given t m' ≡ false)
  unfolding should_dial_peer
  note_sync_failure-should_dial now given error m t named =
      let (q, stored, until) = noted_peer now given error m named in
      let bound = note_sync_failure_le now given error m in
      (
        bound,
        λ h. rw (named, stored) (ground (arith, until, h)),
        λ h. rw (named, stored) (ground (arith, until, h)),
      )

  -- For an address that is not blank, a dial that succeeds (`TouchReachable`), traffic (`TouchPeer`)
  -- and a sync that succeeds (`noteSyncSuccess`) each end its suppression: `shouldDialPeer` then
  -- answers yes at any time.
  pub should_dial-success :
      (now : ℕ) (given : String) (height : ℤ) (tip : String) (m : PeerTable) (t : ℕ)
      → is_empty (p.trim_space given) ≡ false
      → (should_dial_peer given t (touch_reachable now given true m) ≡ true)
        × (should_dial_peer given t (touch_peer now given m) ≡ true)
        × (should_dial_peer given t (note_sync_success given height tip m) ≡ true)
  unfolding should_dial_peer touch_reachable touch_peer note_sync_success dial_succeeded
  should_dial-success now given height tip m t named =
      let addr = p.trim_space given in
      let stored = λ (q : Peer). lookup-insert_self addr q m.peers in
      (rw (named, stored) refl, rw (named, stored) refl, rw (named, stored) refl)

  -- What a failed dial stores.
  dialled_peer :
      (now : ℕ) (addr : String) (m : PeerTable)
      → let n = add64 (peer_at addr m).failure_count (pos 1) in
        (q : Peer) × (lookup addr (dial_failed now addr m).peers ≡ some q)
        × (q.failure_count ≡ n)
        × (q.suppressed_until ≡ (
            if leb_ℤ peer_failure_suppress_after n
            then add_time now (dial_suppression n)
            else (peer_at addr m).suppressed_until))
  unfolding dial_failed
  dialled_peer now addr m =
      let q = peer_at addr m in
      let n = add64 q.failure_count (pos 1) in
      let q' : Peer = record q { reachable = false; failure_count = n } in
      let until = add_time now (dial_suppression n) in
      let q'' : Peer = record q' { suppressed_until = until } in
      let m1 = record_peer_failure addr "dial/connect failure" (set_peer addr q' m) in
      let kept = recorded_peers addr "dial/connect failure" (set_peer addr q' m) in
      elim (Bool-cases (leb_ℤ peer_failure_suppress_after n)) [
        | inl many ↦ (
          q'',
          rw
              (
                dial_failed,
                many,
                suppressed_peers addr until "dial failure suppression" (set_peer addr q'' m1),
              )
              (lookup-insert_self addr q'' m1.peers),
          refl,
          rw many refl,
        )
        | inr few ↦ (
          q',
          rw (dial_failed, few, kept) (lookup-insert_self addr q' m.peers),
          refl,
          rw few refl,
        )
      ]

  pub touch_reachable-should_dial :
      (now : ℕ) (given : String) (m : PeerTable) (t : ℕ)
      → is_empty (p.trim_space given) ≡ false
      → let q = peer_at (p.trim_space given) m in
        let n = add64 q.failure_count (pos 1) in
        let m' = touch_reachable now given false m in
        let until = add_time now (dial_suppression n) in
        (dial_suppression n ≤ℤ peer_failure_suppress_max)
        × (peer_failure_suppress_after ≤ℤ n → until ≤ t → should_dial_peer given t m' ≡ true)
        × (peer_failure_suppress_after ≤ℤ n → t < until → should_dial_peer given t m' ≡ false)
        × (n <ℤ peer_failure_suppress_after
            → (peer_at (p.trim_space given) m').suppressed_until ≡ q.suppressed_until)
  unfolding touch_reachable should_dial_peer peer_at
  touch_reachable-should_dial now given m t named =
      let addr = p.trim_space given in
      let n = add64 (peer_at addr m).failure_count (pos 1) in
      let (q, stored, count, until) = dialled_peer now addr m in
      (
        dial_suppression_le n,
        λ many h. rw (named, stored) (ground (arith, until, many, h)),
        λ many h. rw (named, stored) (ground (arith, until, many, h)),
        λ few. rw (named, peer_at, stored) (ground (arith, until, few)),
      )
