-- ===== src/Proposal/Progress.antt =====
-- When `applyBlockOrBufferLocked` of internal/mesh/chain_core.go extends the chain by a good block.
use mathlib.Core.Path.{subst}
use blackchain_node.Prelude.{
  ℕ, suc, ◌+◌, ◌^◌, ◌<◌, ◌≤◌, String, str_eq, str_eq_iff, Bool, true, false, Option, none, some, [],
  ◌≡◌, refl, sym, ap, ◌∙◌, arith, ltb, leb, ℤ, pos, add64, leb_ℤ, ltb_ℤ, eqb_ℤ, eqb_ℤ_iff,
}
use blackchain_node.Types.{Block, Result, ok, err}
use blackchain_node.Platform.{Platform}
use blackchain_node.Signing.{calc_block_hash}
use blackchain_node.Dict.{Map, lookup, int_Eq}
use blackchain_node.Chain.{KeyFile, Chain, Daemon, observe_validator, has_quorum}
use blackchain_node.Chain.Identity.{validator_id}
use blackchain_node.Chain.Untouched.{HasKeysOnly, validator_id-HasKeysOnly}
use blackchain_node.Finality.Depth.{add64_one}
use blackchain_node.Execution.{apply_block, calc_state_hash_with_block}
use blackchain_node.Execution.Atomicity.{observe_rest}
use blackchain_node.Proposal.{
  with_block, set_tip, drain, drain_pending, check_finalized, check_quorum, check_proposal,
  place_block, quorum_stage, judge_block, report_failure, apply_block_or_buffer,
  max_proposal_future_skew,
}
use blackchain_node.Proposal.Drain.{apply_block-pending}
use blackchain_node.Proposal.Scan.{fit-malformed}
use blackchain_node.Proposal.Complete.{IsGood, apply_block_complete}

-- A chain at height `n`, not finalized above it, whose clock is past its last block, without buffered
-- blocks or announced states of peers.
pub record IsReady (now n : ℕ) (c : Chain) : Type 0 where
  pub height : c.height ≡ pos n
  pub room : suc n < 2 ^ 63
  pub open_height : ltb_ℤ c.finalized_height (pos (suc n)) ≡ true
  pub later : with_block (lookup c.height c.blocks) (λ prev. leb now prev.time_utc) ≡ false
  pub alone : c.pending ≡ []
  pub silent : (d : Daemon) → c.daemon ≡ some d → d.peer_state ≡ []

module _ ⦃p : Platform⦄ where
  drain_pending-none : (c : Chain) → c.pending ≡ [] → drain_pending c ≡ (0, c)
  unfolding drain_pending drain lookup
  drain_pending-none c h = rw h refl

  place_block-good :
      (b : Block) (c : Chain)
      → IsGood b c
      → c.pending ≡ []
      → let (r, c') = place_block b c in (r ≡ ok true) × (c'.height ≡ b.height) × (c'.tip ≡ b.hash)
  unfolding place_block
  place_block-good b c g alone =
      let next : eqb_ℤ b.height (add64 c.height (pos 1)) ≡ true =
        (eqb_ℤ_iff b.height (add64 c.height (pos 1))).1 g.next_height in
      let good = apply_block_complete b c g in
      let c' = set_tip b (apply_block b c).1 in
      let drained = drain_pending-none c' (apply_block-pending b c ∙ alone) in
      let placed : place_block b c ≡ (ok true, (drain_pending c').1) =
        rw (place_block, next, good) refl in
      rw (placed, drained) (refl, refl, refl)

  -- Keys and observed validators do not matter to a good block.
  moved-IsGood :
      (b : Block) (c : Chain) (x y : String) (k : KeyFile) (s : Map String (Unit {0}))
      → IsGood b c
      → IsGood b (record c {
        validator_pub_hex = x;
        validator_priv_hex = y;
        key_file = k;
        validator_set = s;
      })
  unfolding calc_state_hash_with_block
  moved-IsGood b c x y k s g = record {
    few = g.few;
    fit = g.fit;
    distinct_ids = g.distinct_ids;
    distinct_nonces = g.distinct_nonces;
    covered = g.covered;
    gain = g.gain;
    next_height = g.next_height;
    on_tip = g.on_tip;
    timed = g.timed;
    named = g.named;
    hash = g.hash;
    signed = g.signed;
    reward = g.reward;
    rooted = g.rooted;
    root = g.root;
    writes = g.writes;
  }

  keys-IsGood : (b : Block) (c c' : Chain) → HasKeysOnly c c' → IsGood b c → IsGood b c'
  keys-IsGood b c c' same g =
      subst (IsGood b) (sym same)
        (moved-IsGood b c c'.validator_pub_hex c'.validator_priv_hex c'.key_file c.validator_set g)

  observed-IsGood :
      (b : Block) (id : String) (c : Chain) → IsGood b c → IsGood b (observe_validator id c)
  observed-IsGood b id c g = subst (IsGood b) (sym (observe_rest id c)) (
      moved-IsGood b c c.validator_pub_hex c.validator_priv_hex c.key_file
        (observe_validator id c).validator_set g)

  has_quorum-silent :
      (height : ℤ) (hash : String) (d : Daemon)
      → d.peer_state ≡ []
      → has_quorum height hash d ≡ true
  unfolding has_quorum
  has_quorum-silent height hash d h = rw h refl

  quorum_stage-silent :
      (b : Block) (d : Option Daemon) (c : Chain)
      → ((x : Daemon) → d ≡ some x → x.peer_state ≡ [])
      → let (r, c') = quorum_stage b d c in (r ≡ ok tt) × HasKeysOnly c c'
  unfolding quorum_stage check_quorum
  quorum_stage-silent b none c h = (refl, refl)
  quorum_stage-silent b (some d) c h =
      let (pub_hex, c') = validator_id c in
      (
        ground (arith, has_quorum-silent b.height (calc_state_hash_with_block b c') d (h d refl)),
        validator_id-HasKeysOnly c,
      )

  next_height :
      (b : Block) (c : Chain) (n : ℕ) → IsGood b c → IsReady b.time_utc n c → b.height ≡ pos (suc n)
  next_height b c n g r =
      g.next_height
      ∙ (ap (λ z. add64 z (pos 1)) r.height
          ∙ (add64_one n (omega (arith, r.room)) ∙ ap pos (omega arith)))

  -- A good block passes the checks of a proposal.
  check_proposal-good :
      (now : ℕ) (b : Block) (c : Chain) (n : ℕ)
      → IsGood b c
      → IsReady b.time_utc n c
      → b.time_utc ≤ now + max_proposal_future_skew
      → check_proposal now b c ≡ ok tt
  unfolding check_proposal
  check_proposal-good now b c n g r h =
      let height : b.height ≡ pos (suc n) = next_height b c n g r in
      let above : leb_ℤ b.height (pos 0) ≡ false = rw height (ground arith) in
      let new : leb_ℤ b.height c.height ≡ false = rw (height, r.height) (ground arith) in
      let hash : str_eq b.hash (calc_block_hash b) ≡ true =
        (str_eq_iff b.hash (calc_block_hash b)).1 g.hash in
      let early : ltb (now + max_proposal_future_skew) b.time_utc ≡ false = ground (arith, h) in
      ground (
        arith,
        above,
        new,
        g.timed,
        early,
        r.later,
        g.named,
        hash,
        g.signed,
        fit-malformed b.txs g.fit,
      )

  moved-IsReady :
      (now n : ℕ) (c : Chain) (x y : String) (k : KeyFile) (s : Map String (Unit {0}))
      → IsReady now n c
      → IsReady now n (record c {
        validator_pub_hex = x;
        validator_priv_hex = y;
        key_file = k;
        validator_set = s;
      })
  moved-IsReady now n c x y k s r = record {
    height = r.height;
    room = r.room;
    open_height = r.open_height;
    later = r.later;
    alone = r.alone;
    silent = r.silent;
  }

  keys-IsReady : (now n : ℕ) (c c' : Chain) → HasKeysOnly c c' → IsReady now n c → IsReady now n c'
  keys-IsReady now n c c' same r = subst (IsReady now n) (sym same) (
      moved-IsReady now n c c'.validator_pub_hex c'.validator_priv_hex c'.key_file c.validator_set
        r)

  observed-IsReady :
      (now n : ℕ) (id : String) (c : Chain)
      → IsReady now n c
      → IsReady now n (observe_validator id c)
  observed-IsReady now n id c r = subst (IsReady now n) (sym (observe_rest id c)) (
      moved-IsReady now n c c.validator_pub_hex c.validator_priv_hex c.key_file
        (observe_validator id c).validator_set r)

  check_finalized-ready :
      (b : Block) (c : Chain) (n : ℕ)
      → IsGood b c
      → IsReady b.time_utc n c
      → check_finalized b c ≡ ok tt
  unfolding check_finalized
  check_finalized-ready b c n g r =
      let below : leb_ℤ b.height c.finalized_height ≡ false =
        rw (next_height b c n g r) (ground (arith, r.open_height)) in
      rw (check_finalized, below) (ground arith)

  judge_block-good :
      (now : ℕ) (b : Block) (c : Chain) (n : ℕ)
      → IsGood b c
      → IsReady b.time_utc n c
      → b.time_utc ≤ now + max_proposal_future_skew
      → let (r, c') = judge_block now b c in
        (r ≡ ok true) × (c'.height ≡ pos (suc n)) × (c'.tip ≡ b.hash)
  unfolding judge_block
  judge_block-good now b c n g r h =
      let height = next_height b c n g r in
      let (quorate, same) = quorum_stage-silent b c.daemon c r.silent in
      let c' = (quorum_stage b c.daemon c).1 in
      let g' = keys-IsGood b c c' same g in
      let r' = keys-IsReady b.time_utc n c c' same r in
      let fine = check_proposal-good now b c' n g' r' h in
      let final = check_finalized-ready b c n g r in
      let judged : judge_block now b c ≡ place_block b c' =
        rw (judge_block, final, quorate, fine) refl in
      let (placed, there, tip) = place_block-good b c' g' r'.alone in
      rw judged (placed, there ∙ height, tip)

  report-good : (r : Result Bool × Chain) → r.0 ≡ ok true → report_failure r ≡ r
  unfolding report_failure
  report-good (ok applied, c) h = refl
  report-good (err e, c) h = absurd (ground (arith, h))

  -- `applyBlockOrBufferLocked` applies a good block that is at most two minutes ahead of the clock to a
  -- chain that is ready for it.
  pub apply_block_or_buffer-good :
      (now : ℕ) (b : Block) (c : Chain) (n : ℕ)
      → IsGood b c
      → IsReady b.time_utc n c
      → b.time_utc ≤ now + max_proposal_future_skew
      → let (r, c') = apply_block_or_buffer now b c in
        (r ≡ ok true) × (c'.height ≡ pos (suc n)) × (c'.tip ≡ b.hash)
  unfolding apply_block_or_buffer
  apply_block_or_buffer-good now b c n g r h =
      let c1 = observe_validator b.producer c in
      let (judged, height, tip) =
        judge_block-good now b c1 n (observed-IsGood b b.producer c g)
          (observed-IsReady b.time_utc n b.producer c r) h in
      let same = report-good (judge_block now b c1) judged in
      rw (apply_block_or_buffer, same) (judged, height, tip)
