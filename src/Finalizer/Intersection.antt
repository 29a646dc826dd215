-- ===== src/Finalizer/Intersection.antt =====
-- The invariant of `Finalizer` (internal/consensus/finalizer.go) and the intersection of quorums.
use mathlib.Core.Path.{subst}
use blackchain_node.Prelude.{
  ℕ, ◌+◌, ◌*◌, ◌/◌, ◌≤◌, ◌<◌, ◌≡◌, refl, ap, arith, String, str_eq, Bool, true, false, ◌&&◌, Option,
  List, [], ◌∷◌, length, if◌then◌else◌, Bool-cases, inl, inr, ◌==◌, ==_iff,
}
use blackchain_node.Types.{ok}
use blackchain_node.Dict.{
  Map, lookup, insert, contains, string_Eq, nat_Eq, lookup-insert, lookup-empty,
}
use blackchain_node.Finalizer.{
  FinalityState, ConsensusVote, Finalizer, Names, new_finalizer, collect, voters, inner,
  record_vote, tally, add_consensus_vote, load, no_state,
}
use blackchain_node.Finalizer.Safety.{add_votes}
use blackchain_node.Finalizer.Quorum.{
  shared, members-shared_le, IsDistinct, IsFull, IsFull-insert, collect-IsDistinct,
}

-- The validators differ, power and threshold are computed from them, and only validators are counted
-- as voters.
pub record IsCounted (f : Finalizer) : Type 0 where
  pub distinct : IsDistinct f.validators
  pub power : f.total_power ≡ length f.validators
  pub threshold : f.threshold ≡ (2 * length f.validators) / 3 + 1
  pub full : (height : ℕ) (hash : String) → IsFull f.validators (voters height hash f.votes)

voters-record_vote :
    (v : ConsensusVote) (votes : Map ℕ (Map String Names)) (height : ℕ) (hash : String)
    → voters height hash (record_vote v votes) ≡ (
        if (v.height == height) && str_eq v.block_hash hash
        then insert v.validator_id tt (voters v.height v.block_hash votes)
        else voters height hash votes)
unfolding record_vote voters
voters-record_vote v votes height hash =
    let set = insert v.validator_id tt (voters v.height v.block_hash votes) in
    let hashes = inner (lookup v.height votes) in
    let outer = lookup-insert v.height height (insert v.block_hash set hashes) votes in
    elim (Bool-cases (v.height == height)) [
      | inr other ↦ rw (voters, record_vote, outer, other) refl
      | inl here ↦ elim (Bool-cases (str_eq v.block_hash hash)) [
        | inl same ↦
            rw (voters, record_vote, outer, here, lookup-insert v.block_hash hash set hashes, same)
              refl
        | inr differ ↦
            rw
              (voters, record_vote, outer, here, lookup-insert v.block_hash hash set hashes, differ)
              (ap (λ (h : ℕ). inner (lookup hash (inner (lookup h votes))))
                ((==_iff v.height height).0 here))
      ]
    ]

empty-IsFull : (validators : Names) → IsFull validators []
unfolding contains lookup
empty-IsFull [] = refl
empty-IsFull ((id, u) ∷ validators) = empty-IsFull validators

if-IsFull :
    (t : Bool) (validators a b : Names)
    → IsFull validators a
    → IsFull validators b
    → IsFull validators (if t then a else b)
if-IsFull true validators a b h k = h
if-IsFull false validators a b h k = k

-- `NewFinalizer` makes a finalizer whose validators differ, with the threshold that is computed from
-- their number, and with no votes.
pub new_finalizer-IsCounted :
    (data_dir : String) (ids : List String) (file : Option FinalityState) (fault : Bool)
    (f : Finalizer)
    → new_finalizer data_dir ids file fault ≡ ok f
    → IsCounted f
unfolding new_finalizer voters collect
new_finalizer-IsCounted data_dir ids file fault f h =
    let set = collect ids [] in
    let g : Finalizer = record {
      validators = set;
      total_power = length set;
      threshold = (2 * length set) / 3 + 1;
      blocks = [];
      votes = [];
      state = load file no_state;
      file = file;
      write_fault = fault;
    } in
    let same : g ≡ f = ground (arith, h) in
    subst (λ (x : Finalizer). IsCounted x) same
      (record {
        distinct = collect-IsDistinct ids [] (λ id. omega arith);
        power = refl;
        threshold = refl;
        full = λ height hash.
            rw (voters, lookup-empty (Map String Names) height, lookup-empty Names hash)
              (empty-IsFull set);
      })

tally-votes :
    (now : String) (v : ConsensusVote) (f : Finalizer)
    → let f' = (tally now v f).1 in
      (f'.votes ≡ f.votes)
      × (f'.validators ≡ f.validators)
      × (f'.threshold ≡ f.threshold)
      × (f'.total_power ≡ f.total_power)
unfolding tally
tally-votes now v f = (ground arith, ground arith, ground arith, ground arith)

-- `AddVote` keeps the invariant `IsCounted`: the validators differ, power and threshold are computed
-- from them, and only validators are counted as voters of a block, each once.
pub add_consensus_vote-IsCounted :
    (now : String) (v : ConsensusVote) (f : Finalizer)
    → IsCounted f
    → IsCounted (add_consensus_vote now v f).1
unfolding add_consensus_vote
add_consensus_vote-IsCounted now v f h = elim (Bool-cases (contains v.validator_id f.validators)) [
  | inr stranger ↦ rw (add_consensus_vote, stranger) h
  | inl member ↦
      let f1 = record f { votes = record_vote v f.votes } in
      let (votes, validators, threshold, power) = tally-votes now v f1 in
      rw (add_consensus_vote, member)
        (record {
          distinct = rw validators h.distinct;
          power = rw (validators, power) h.power;
          threshold = rw (validators, threshold) h.threshold;
          full = λ height hash.
              rw (validators, votes, voters-record_vote v f.votes height hash)
                (if-IsFull ((v.height == height) && str_eq v.block_hash hash) f.validators _ _
                  (IsFull-insert v.validator_id (voters v.height v.block_hash f.votes) f.validators
                    h.distinct member (h.full v.height v.block_hash))
                  (h.full height hash));
        })
]

pub add_votes-IsCounted :
    (votes : List (String × ConsensusVote)) (f : Finalizer)
    → IsCounted f
    → IsCounted (add_votes votes f)
add_votes-IsCounted [] f h = h
add_votes-IsCounted ((now, v) ∷ votes) f h =
    add_votes-IsCounted votes (add_consensus_vote now v f).1
      (add_consensus_vote-IsCounted now v f h)

-- Any two sets of recorded voters that reach the threshold share more than a third of the
-- validators, in every state that `NewFinalizer` and any run of `AddVote` lead to. The two sets are
-- those for two hashes at one height.
pub threshold-shared :
    (data_dir : String) (ids : List String) (file : Option FinalityState) (fault : Bool)
    (f : Finalizer) (votes : List (String × ConsensusVote)) (height : ℕ) (hash hash' : String)
    → new_finalizer data_dir ids file fault ≡ ok f
    → let f' = add_votes votes f in
      let a = voters height hash f'.votes in
      let b = voters height hash' f'.votes in
      f'.threshold ≤ length a
      → f'.threshold ≤ length b
      → f'.total_power < 3 * shared a b f'.validators
threshold-shared data_dir ids file fault f votes height hash hash' made =
    let f' = add_votes votes f in
    let h = add_votes-IsCounted votes f (new_finalizer-IsCounted data_dir ids file fault f made) in
    let a = h.full height hash in
    let b = h.full height hash' in
    let both =
      members-shared_le (voters height hash f'.votes) (voters height hash' f'.votes)
        f'.validators in
    let power = h.power in
    let threshold = h.threshold in λ u v. omega (arith, a, b, both, power, threshold, u, v)
