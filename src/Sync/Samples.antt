-- ===== src/Sync/Samples.antt =====
-- The heights that a peer reports (internal/mesh/chain_sync.go).
use blackchain_node.Prelude.{
  ◌≡◌, arith, String, str_eq_iff, false, some, ℤ, pos, ◌≤ℤ◌, ◌<ℤ◌, eqb_ℤ_iff, inl, inr,
}
use blackchain_node.Types.{ok, Result-cases}
use blackchain_node.Platform.{Platform}
use blackchain_node.Signing.{is_empty}
use blackchain_node.Dict.{lookup, string_Eq, lookup-insert_self}
use blackchain_node.Peers.{PeerTable, peer_at}
use blackchain_node.Sync.{check_report, check_sample, take_sample, note_peer_height_sample}

module _ ⦃p : Platform⦄ where
  -- Where `notePeerHeightSample` accepts the report of a peer, the height is not negative and not
  -- below the peer's last one, at the same positive height two known tips agree, and the peer
  -- is stored with the height and the trimmed tip.
  pub note_peer_height_sample_lem :
      (given : String) (height : ℤ) (reported : String) (m : PeerTable)
      → (note_peer_height_sample given height reported m).0 ≡ ok tt
      → let addr = p.trim_space given in
        let tip = p.trim_space reported in
        let q = peer_at addr m in
        (pos 0 ≤ℤ height)
        × (q.last_height ≤ℤ height)
        × ((pos 0 <ℤ height)
            → (height ≡ q.last_height)
            → (is_empty q.last_tip ≡ false)
            → q.last_tip ≡ tip)
        × (lookup addr (note_peer_height_sample given height reported m).1.peers
            ≡ some (record q { last_height = height; last_tip = tip }))
  unfolding note_peer_height_sample take_sample check_report check_sample
  note_peer_height_sample_lem given height reported m h =
      let addr = p.trim_space given in
      let tip = p.trim_space reported in
      let q = peer_at addr m in
      elim (Result-cases (check_report addr height tip)) [
        | inr (e, bad) ↦ absurd (ground (arith, bad, h))
        | inl (tt, fine) ↦ elim (Result-cases (check_sample height tip q)) [
          | inr (e, bad) ↦ absurd (ground (arith, fine, bad, h))
          | inl (tt, good) ↦
              let same = (str_eq_iff q.last_tip tip).0 in
              let equal = (eqb_ℤ_iff height q.last_height).1 in
              (
                ground (arith, fine),
                ground (arith, fine, good),
                λ high level known. ground (arith, fine, good, same, equal, high, level, known),
                rw (note_peer_height_sample, fine, take_sample, good)
                    (lookup-insert_self addr (record q { last_height = height; last_tip = tip })
                      m.peers),
              )
        ]
      ]
