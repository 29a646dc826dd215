-- ===== src/Gossip/Incoming.antt =====
-- What a node does with a message that comes in: `handleIncoming` and `maybeSyncFromSignedState` of
-- internal/mesh/messages.go.
use blackchain_node.Prelude.{
  ℕ, zero, suc, String, ◌<>◌, str_eq, Bool, true, false, ◌||◌, Option, none, some, [], ◌∷◌, ◌++◌, ℤ,
  pos, pos_part, ◌-ℤ◌, add64, sub64, leb_ℤ, ltb_ℤ, if◌then◌else◌,
}
use blackchain_node.Types.{Block, ok, err}
use blackchain_node.Platform.{Platform, Bytes}
use blackchain_node.Signing.{is_empty}
use blackchain_node.Dict.{contains, string_Eq}
use blackchain_node.Chain.{Chain, Announcement}
use blackchain_node.Proposal.{apply_block_or_buffer}
use blackchain_node.Peers.{touch_peer}
use blackchain_node.Persist.{BlockCodec}
use blackchain_node.Gossip.{Message, WireMessage, Mesh, Remote, mark_seen, gossip_forward}

module _ ⦃p : Platform⦄ ⦃r : Remote⦄ where
  -- One round of the loop of `maybeSyncFromSignedState`: whether the loop goes on, and the chain.
  abbrev pull_decoded : ℕ → Option Block → Chain → Bool × Chain
  pull_decoded now none c = (false, c)
  pull_decoded now (some b) c =
      let (res, c') = apply_block_or_buffer now b c in
      elim res [ err e ↦ (false, c') | ok applied ↦ (true, c') ]

  abbrev pull_reply : ⦃j : BlockCodec⦄ → ℕ → Option Bytes → Chain → Bool × Chain
  pull_reply ⦃j⦄ now none c = (false, c)
  pull_reply ⦃j⦄ now (some raw) c = pull_decoded now (j.json_decode_block raw) c

module _ ⦃p : Platform⦄ ⦃r : Remote⦄ ⦃j : BlockCodec⦄ where
  -- The loop of `maybeSyncFromSignedState`, by the number of heights that are left.
  unfoldable pub pull_blocks : ℕ → ℕ → String → ℤ → Chain → Chain
  pull_blocks now zero base h c = c
  pull_blocks now (suc n) base h c =
      let url = (base <> "/chain/block?h=") <> p.format_int h in
      let (go_on, c') = pull_reply now (r.get url) c in
      let rest = pull_blocks now n base (add64 h (pos 1)) c' in if go_on then rest else c'

  abbrev pull_from : ℕ → Option String → Announcement → Chain → Chain
  pull_from now none ann c = c
  pull_from now (some base) ann c =
      if r.client_works
      then pull_blocks now (pos_part (ann.height -ℤ c.height)) base (add64 c.height (pos 1)) c
      else c

  abbrev sync_announced : ℕ → String → Option Announcement → Chain → Bool × Chain
  sync_announced now via none c = (false, c)
  sync_announced now via (some ann) c =
      if is_empty ann.node_id || leb_ℤ ann.height (pos 0)
      then (false, c)
      else (if leb_ℤ ann.height c.height
          then (true, c)
          else (true, pull_from now (r.peer_api_base via) ann c))

  -- `maybeSyncFromSignedState`: whether the text is an announcement, and the chain
  unfoldable pub maybe_sync_from_signed_state : ℕ → String → String → Chain → Bool × Chain
  unfolding pull_blocks
  maybe_sync_from_signed_state now via body c =
      sync_announced now via (r.json_decode_announcement (p.bytes body)) c

  -- `if wm.TTL > 0 { m.gossipForward(wm) }`
  abbrev forward : WireMessage → Mesh → Mesh
  forward wm m = if ltb_ℤ (pos 0) wm.ttl then gossip_forward wm m else m

  -- A message of the kind "msg", after the bookkeeping.
  unfoldable pub receive_msg : ℕ → String → WireMessage → Mesh → Mesh
  receive_msg now sender wm m =
      let msg : Message = record { from = wm.from; to = wm.to; body = wm.body; time = wm.time } in
      let (known, c) = maybe_sync_from_signed_state now sender wm.body m.chain in
      forward wm (record m { inbox = m.inbox ++ msg ∷ []; chain = c })

  abbrev receive_decoded : ℕ → WireMessage → Option Block → Mesh → Mesh
  receive_decoded now wm none m = m
  receive_decoded now wm (some b) m =
      let (res, c) = apply_block_or_buffer now b m.chain in
      elim res [ err e ↦ record m { chain = c } | ok applied ↦ forward wm (record m { chain = c }) ]

  -- A message of the kind "block", after the bookkeeping.
  unfoldable pub receive_block : ℕ → WireMessage → Mesh → Mesh
  receive_block now wm m = receive_decoded now wm (j.json_decode_block (p.bytes wm.body)) m

  -- An id for a message without one: `now` is in nanoseconds since Go's zero time.
  abbrev named : ℕ → WireMessage → WireMessage
  named now wm =
      if is_empty wm.id
      then record wm {
        id = "auto-" <> p.format_int (sub64 (pos now) (pos 62_135_596_800_000_000_000));
      }
      else wm

  -- The bookkeeping of a message that is new: its id is seen, and the neighbour that sent it is alive.
  abbrev noted : ℕ → WireMessage → Mesh → Mesh
  noted now wm m =
      let sender = p.trim_space wm.via in
      record m {
        seen = mark_seen now wm.id m.seen;
        table = if is_empty sender then m.table else touch_peer now sender m.table;
      }

  unfoldable pub receive_wire : ℕ → WireMessage → Mesh → Mesh
  receive_wire now given m =
      let wm = named now given in
      if contains wm.id m.seen
      then m
      else (if str_eq wm.kind "msg"
          then receive_msg now (p.trim_space wm.via) wm (noted now wm m)
          else receive_block now wm (noted now wm m))

  abbrev incoming : ℕ → Option WireMessage → Mesh → Bool × Mesh
  incoming now none m = (true, m)
  incoming now (some wm) m =
      if str_eq wm.kind "msg" || str_eq wm.kind "block"
      then (false, receive_wire now wm m)
      else (true, m)

  -- `handleIncoming`, for the trimmed line that was read, if one was: whether the greeting is sent
  -- back, and the daemon
  unfoldable pub handle_incoming : ℕ → Option Bytes → Mesh → Bool × Mesh
  unfolding receive_wire
  handle_incoming now none m = (false, m)
  handle_incoming now (some line) m = incoming now (r.json_decode_wire line) m
