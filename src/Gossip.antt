-- ===== src/Gossip.antt =====
-- Messages between nodes: internal/mesh/gossip.go, internal/mesh/messages.go and the cache of seen
-- ids in internal/mesh/seen.go. Each send runs on its own; here the sent messages are a list in the
-- order of the loop that starts them. All calls of one run read one clock, `now`, in nanoseconds.
use blackchain_node.Prelude.{
  ℕ, zero, suc, ◌+◌, ◌/◌, ◌%◌, String, slice, ◌<>◌, str_eq, Bool, true, false, not, ◌&&◌, ◌||◌,
  Option, none, some, List, [], ◌∷◌, ◌++◌, ℤ, pos, negsuc, pos_part, neg_part, ◌-ℤ◌, add64, sub64,
  leb_ℤ, ltb_ℤ, eqb_ℤ, ltb, leb, length, ◌==◌, if◌then◌else◌,
}
use blackchain_node.Types.{Block, Result, ok, err}
use blackchain_node.Platform.{Platform, Bytes}
use blackchain_node.Signing.{is_empty}
use blackchain_node.Dict.{Map, lookup, insert, delete, contains, string_Eq}
use blackchain_node.Chain.{Chain, Announcement}
use blackchain_node.Proposal.{apply_block_or_buffer}
use blackchain_node.Peers.{PeerTable, touch_peer}
use blackchain_node.Persist.{BlockCodec}
pub mod Incoming
pub mod Seen
pub mod Forward
pub mod Digits

-- two minutes
abbrev pub seen_ttl : ℕ
seen_ttl = 120_000_000_000

abbrev pub seen_max : ℕ
seen_max = 5000

-- `Message`, with its time in seconds
pub record Message : Type 0 where
  pub from : String
  pub to : String
  pub body : String
  pub time : ℤ

-- `wireMessage`
pub record WireMessage : Type 0 where
  pub id : String
  pub kind : String
  pub from : String
  pub via : String
  pub to : String
  pub body : String
  pub topic : String
  pub time : ℤ
  pub ttl : ℤ
  pub pub_key : String

-- What the handlers of messages use of `meshDaemon`.
pub record Mesh : Type 0 where
  pub id : String
  pub bootstrap_peers : List String
  pub chain : Chain
  pub table : PeerTable
  pub seen : Map String ℕ
  pub inbox : List Message
  pub sent : List WireMessage

-- `encoding/json` on messages, and the requests to a peer's API: its base address, and the body of
-- a reply with status 200.
pub record Remote : Type 0 where
  pub json_decode_wire : Bytes → Option WireMessage
  pub json_decode_announcement : Bytes → Option Announcement
  pub json_block_text : Block → Option String
  pub peer_api_base : String → Option String
  pub client_works : Bool
  pub get : String → Option Bytes
  -- `strings.ReplaceAll` of a text by another one, and a time in the format of block ids
  pub replace_all : String → String → String → String
  pub format_block_time : ℕ → String

-- The first loop of `pruneSeenLocked`: what is older than two minutes.
unfoldable pub prune_expired : ℕ → Map String ℕ → Map String ℕ
prune_expired now [] = []
prune_expired now ((k, t) ∷ seen) =
    if ltb (t + seen_ttl) now then prune_expired now seen else (k, t) ∷ prune_expired now seen

-- The inner loop: the oldest id so far, with its time. A Go map has no order; among several oldest
-- ids, this is the first.
unfoldable pub oldest : String → ℕ → Map String ℕ → String
oldest k t [] = k
oldest k t ((k', t') ∷ seen) = if ltb t' t then oldest k' t' seen else oldest k t seen

-- The second loop, by a bound on its rounds.
unfoldable pub prune_oldest : ℕ → Map String ℕ → Map String ℕ
unfolding oldest
prune_oldest zero seen = seen
prune_oldest (suc fuel) [] = []
prune_oldest (suc fuel) ((k, t) ∷ seen) =
    let first = oldest k t seen in
    let rest = prune_oldest fuel (delete first ((k, t) ∷ seen)) in
    if leb (length ((k, t) ∷ seen)) seen_max || is_empty first then (k, t) ∷ seen else rest

-- `pruneSeenLocked`
unfoldable pub prune_seen : ℕ → Map String ℕ → Map String ℕ
unfolding prune_expired prune_oldest
prune_seen now seen = let left = prune_expired now seen in prune_oldest (length left) left

-- `markSeen`
unfoldable pub mark_seen : ℕ → String → Map String ℕ → Map String ℕ
mark_seen now id seen = if is_empty id then seen else prune_seen now (insert id now seen)

-- The loop of `itoa64`: the digits, in front of those that there are. The buffer has 32 places.
unfoldable pub digits : ℕ → ℕ → List ℕ → List ℕ
digits zero v acc = acc
digits (suc fuel) v acc =
    let rest = digits fuel (v / 10) (v % 10 ∷ acc) in if v == 0 then acc else rest

-- `byte('0' + d)`
abbrev pub digit_text : ℕ → String
digit_text d = slice "0123456789" d (suc d)

abbrev pub digits_text : List ℕ → String
digits_text [] = ""
digits_text (d ∷ ds) = digit_text d <> digits_text ds

-- `itoa64`: the smallest int64 stays negative when its sign is changed, and has no digits.
unfoldable pub itoa64 : ℤ → String
itoa64 v =
    if eqb_ℤ v (pos 0)
    then "0"
    else (if ltb_ℤ v (pos 0)
        then "-" <> digits_text (digits 32 (pos_part (sub64 (pos 0) v)) [])
        else digits_text (digits 32 (pos_part v) []))

module _ ⦃p : Platform⦄ ⦃r : Remote⦄ where
  -- The loop that all senders share: a copy for each configured peer but this node and `skip`.
  unfoldable pub fan_out : String → WireMessage → List String → String → List WireMessage
  fan_out self wm [] skip = []
  fan_out self wm (peer ∷ peers) skip =
      let addr = p.trim_space peer in
      let rest = fan_out self wm peers skip in
      if is_empty addr || str_eq addr self || (not (is_empty skip) && str_eq addr skip)
      then rest
      else record wm { to = addr } ∷ rest

  -- `gossipOrigin`: the number of sends, and the daemon
  unfoldable pub gossip_origin : ℕ → ℤ → String → String → String → ℤ → Mesh → ℕ × Mesh
  gossip_origin now unix body topic id ttl m =
      let wm : WireMessage = record {
        id = id;
        kind = "msg";
        from = m.id;
        via = m.id;
        to = "";
        body = body;
        topic = topic;
        time = unix;
        ttl = ttl;
        pub_key = "";
      } in
      let out = fan_out m.id wm m.bootstrap_peers "" in
      if leb_ℤ ttl (pos 0)
      then (0, m)
      else (length out, record m { seen = mark_seen now id m.seen; sent = m.sent ++ out })

  -- `fmtBlockID`, with the text of the height
  unfoldable pub fmt_block_id : ℕ → String → ℤ → String
  fmt_block_id now node height =
      let name = r.replace_all (r.replace_all (p.trim_space node) ":" "_") "/" "_" in
      ((("blk-" <> name) <> "-") <> r.format_block_time now) <> ("-" <> itoa64 height)

  abbrev gossip_encoded : ℕ → ℤ → Option String → ℤ → ℤ → Mesh → ℕ × Mesh
  gossip_encoded now unix none height ttl m = (0, m)
  gossip_encoded now unix (some raw) height ttl m =
      let id = fmt_block_id now m.id height in
      let wm : WireMessage = record {
        id = id;
        kind = "block";
        from = m.id;
        via = m.id;
        to = "";
        body = raw;
        topic = "block";
        time = unix;
        ttl = ttl;
        pub_key = "";
      } in
      let out = fan_out m.id wm m.bootstrap_peers "" in
      (length out, record m { seen = mark_seen now id m.seen; sent = m.sent ++ out })

  -- `gossipBlock`
  unfoldable pub gossip_block : ℕ → ℤ → Block → ℤ → Mesh → ℕ × Mesh
  gossip_block now unix b ttl m =
      if leb_ℤ ttl (pos 0)
      then (0, m)
      else gossip_encoded now unix (r.json_block_text b) b.height ttl m

  -- `gossipForward`
  unfoldable pub gossip_forward : WireMessage → Mesh → Mesh
  gossip_forward wm m =
      let ttl = sub64 wm.ttl (pos 1) in
      if leb_ℤ ttl (pos 0) then m else record m {
        sent =
            m.sent
            ++ fan_out m.id (record wm { ttl = ttl; via = m.id }) m.bootstrap_peers
                (p.trim_space wm.via);
      }
