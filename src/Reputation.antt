-- ===== src/Reputation.antt =====
-- Trust metrics and utility credits of internal/mesh/reputation.go. `now` is the time of the call.
use blackchain_node.Prelude.{
  ℕ, ◌≡◌, refl, arith, String, str_eq, Bool, true, false, not, Option, none, some, List, [], ◌∷◌, ℤ,
  pos, add64, sub64, if◌then◌else◌,
}
use blackchain_node.Signing.{is_empty}
use blackchain_node.Dict.{Map, lookup, insert, string_Eq}
pub mod Scores

pub record Reputation : Type 0 where
  pub node_id : String
  pub pub_key : String
  pub verified_count : ℤ
  pub invalid_count : ℤ
  pub forwarded_count : ℤ
  pub score : ℤ
  pub last_seen : ℕ

pub record UcRecord : Type 0 where
  pub node_id : String
  pub pub_key : String
  pub uc : ℤ

-- What the daemon keeps: its own identity and the two tables.
pub record Trust : Type 0 where
  pub node_id : String
  pub reputation : Map String Reputation
  pub credits : Map String UcRecord

abbrev pub new_reputation : String → Reputation
new_reputation id = record {
  node_id = id;
  pub_key = id;
  verified_count = pos 0;
  invalid_count = pos 0;
  forwarded_count = pos 0;
  score = pos 0;
  last_seen = 0;
}

-- The entry of a node, made where it is missing.
unfoldable pub reputation_of : String → Trust → Reputation
reputation_of id m = elim (lookup id m.reputation) [ none ↦ new_reputation id | some r ↦ r ]

unfoldable pub credit_of : String → Trust → UcRecord
credit_of id m = elim (lookup id m.credits) [
  | none ↦ record { node_id = id; pub_key = id; uc = pos 0 }
  | some r ↦ r
]

-- `rep.Score = rep.VerifiedCount + rep.ForwardedCount - rep.InvalidCount`
abbrev pub rescore : Reputation → Reputation
rescore r = record r { score = sub64 (add64 r.verified_count r.forwarded_count) r.invalid_count }

-- `uc.UC++`
unfoldable pub mint : String → Trust → Trust
mint id m =
    let r = credit_of id m in
    record m { credits = insert id (record r { uc = add64 r.uc (pos 1) }) m.credits }

abbrev pub count_message : Bool → Reputation → Reputation
count_message true r = record r { verified_count = add64 r.verified_count (pos 1) }
count_message false r = record r { invalid_count = add64 r.invalid_count (pos 1) }

-- `noteReputationFromWire`, with the public key of the message, if there is a message
unfoldable pub note_reputation_from_wire : ℕ → Option String → Bool → Trust → Trust
note_reputation_from_wire now none verified m = m
note_reputation_from_wire now (some id) verified m =
    let r = rescore (count_message verified (record (reputation_of id m) { last_seen = now })) in
    let m' = record m { reputation = insert id r m.reputation } in
    if is_empty id then m else (if verified then mint id m' else m')

-- `noteForwardCredit`
unfoldable pub note_forward_credit : ℕ → Trust → Trust
note_forward_credit now m =
    let id = m.node_id in
    let old = reputation_of id m in
    let r =
      rescore
        (record old { forwarded_count = add64 old.forwarded_count (pos 1); last_seen = now }) in
    if is_empty id then m else mint id (record m { reputation = insert id r m.reputation })

-- `snapshotReputation`: a copy of the entries
unfoldable pub snapshot_reputation : Map String Reputation → List Reputation
snapshot_reputation [] = []
snapshot_reputation ((id, r) ∷ m) = r ∷ snapshot_reputation m

-- `snapshotUC`
unfoldable pub snapshot_uc : Map String UcRecord → List UcRecord
snapshot_uc [] = []
snapshot_uc ((id, r) ∷ m) = r ∷ snapshot_uc m
