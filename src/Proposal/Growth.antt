-- ===== src/Proposal/Growth.antt =====
-- `proposeBlock` of internal/mesh/chain_core.go extends the chain, whatever is in its mempool.
use mathlib.Core.Path.{subst}
use blackchain_node.Prelude.{
  ℕ, suc, String, str_eq, Bool, true, false, some, List, [], ◌≡◌, refl, sym, ap, arith, take, drop,
  pos, add64, ltb_ℤ, ◌==◌,
}
use blackchain_node.Types.{Tx, Block, Result, ok, err}
use blackchain_node.Platform.{Platform, Bytes}
use blackchain_node.Signing.{is_empty, sign_block}
use blackchain_node.Dict.{Map, lookup, int_Eq}
use blackchain_node.Chain.{Chain}
use blackchain_node.Fees.{max_block_txs}
use blackchain_node.Merkle.Text.{HasHashTexts}
use blackchain_node.Mempool.{compact_mempool, rebuild_mempool_index}
use blackchain_node.Mempool.Compaction.{compact_mempool_rest}
use blackchain_node.Execution.{expected_reward}
use blackchain_node.Execution.Loop.{sum_fees}
use blackchain_node.Chain.Identity.{ensure_validator_identity, validator_priv_hex, err_no_validator}
use blackchain_node.Proposal.{
  daemon_wallet, proposal_safety_check, propose_with, propose_block, make_block, offer_block,
  apply_block_or_buffer,
}
use blackchain_node.Proposal.Progress.{IsReady, apply_block_or_buffer-good}
use blackchain_node.Proposal.Made.{IsSigner, IsOffer, take-IsOffer, make_block-IsGood}

module _ ⦃p : Platform⦄ where
  -- What a proposal needs beyond a chain that is ready: a key pair, hashes that have a text, a time, a
  -- reward that is not negative, and a file system that takes a block.
  pub record CanOffer (now n : ℕ) (pub_raw priv : Bytes) (c : Chain) : Type 0 where
    pub signer : IsSigner pub_raw priv
    pub texts : HasHashTexts
    pub timed : (now == 0) ≡ false
    pub gain :
        ltb_ℤ
          (expected_reward
            (add64 c.height (pos 1))
            (sum_fees (take max_block_txs (compact_mempool c).1.mempool) (pos 0)))
          (pos 0)
        ≡ false
    pub writes : (b : Block) → c.disk_faults b ≡ false
    pub ready : IsReady now n c

  moved-IsReady :
      (now n : ℕ) (c : Chain) (pool : List Tx) (ids : Map String (Unit {0}))
      (nonces : Map String String)
      → IsReady now n c
      → IsReady now n
          (record c { mempool = pool; mempool_ids = ids; mempool_sender_nonce = nonces })
  moved-IsReady now n c pool ids nonces r = record {
    height = r.height;
    room = r.room;
    open_height = r.open_height;
    later = r.later;
    alone = r.alone;
    silent = r.silent;
  }

  -- The chain from whose mempool the transactions of a block are taken.
  unfoldable split_pool : Chain → Chain
  unfolding rebuild_mempool_index
  split_pool c = rebuild_mempool_index (record c { mempool = drop max_block_txs c.mempool })

  -- The outcome of a proposal that succeeds: the chain is higher by one block.
  abbrev pub HasGrown : ℕ → Result Bool × Chain → Type 0
  HasGrown n r = (r.0 ≡ ok true) × (r.1.height ≡ pos (suc n))

  moved-HasGrown :
      (now n : ℕ) (producer_addr : String) (pub_raw priv : Bytes) (c : Chain) (pool : List Tx)
      (ids : Map String (Unit {0})) (nonces : Map String String)
      → CanOffer now n pub_raw priv c
      → let txs = take max_block_txs (compact_mempool c).1.mempool in
        let d = record c { mempool = pool; mempool_ids = ids; mempool_sender_nonce = nonces } in
        HasGrown n (
          apply_block_or_buffer now
            (make_block now producer_addr (p.hex_encode pub_raw) priv txs d)
            d)
  unfolding make_block sign_block
  moved-HasGrown now n producer_addr pub_raw priv c pool ids nonces can =
      let txs = take max_block_txs (compact_mempool c).1.mempool in
      let d = record c { mempool = pool; mempool_ids = ids; mempool_sender_nonce = nonces } in
      let taken = take-IsOffer c in
      let offer : IsOffer txs d = record {
        few = taken.few;
        fit = taken.fit;
        distinct_ids = taken.distinct_ids;
        distinct_nonces = taken.distinct_nonces;
        covered = taken.covered;
      } in
      let good =
        make_block-IsGood now producer_addr pub_raw priv txs d can.signer can.texts offer can.timed
          can.gain can.writes in
      let ready = moved-IsReady now n c pool ids nonces can.ready in
      let (applied, height, tip) =
        apply_block_or_buffer-good now
          (make_block now producer_addr (p.hex_encode pub_raw) priv txs d) d n good ready
          (omega arith) in
      (applied, height)

  split_pool-rest :
      (c : Chain)
      → let e = split_pool (compact_mempool c).1 in
        e ≡ record c {
          mempool = e.mempool;
          mempool_ids = e.mempool_ids;
          mempool_sender_nonce = e.mempool_sender_nonce;
        }
  unfolding split_pool rebuild_mempool_index
  split_pool-rest c =
      let e = split_pool (compact_mempool c).1 in
      ap
        (λ (d : Chain). record d {
          mempool = e.mempool;
          mempool_ids = e.mempool_ids;
          mempool_sender_nonce = e.mempool_sender_nonce;
        })
        (compact_mempool_rest c)

  -- The end of `proposeBlock`.
  offer_block-grows :
      (now n : ℕ) (producer_addr : String) (pub_raw priv : Bytes) (c : Chain)
      → CanOffer now n pub_raw priv c
      → let (r, c') =
          offer_block now producer_addr (p.hex_encode pub_raw) priv (compact_mempool c).1 in
        (r ≡ ok tt) × (c'.height ≡ pos (suc n))
  unfolding offer_block split_pool rebuild_mempool_index
  offer_block-grows now n producer_addr pub_raw priv c can =
      let txs = take max_block_txs (compact_mempool c).1.mempool in
      let e = split_pool (compact_mempool c).1 in
      let (applied, height) =
        subst
          (λ (d : Chain). HasGrown n (
            apply_block_or_buffer now
              (make_block now producer_addr (p.hex_encode pub_raw) priv txs d) d))
          (sym (split_pool-rest c))
          (moved-HasGrown now n producer_addr pub_raw priv c e.mempool e.mempool_ids
            e.mempool_sender_nonce can) in
      rw (offer_block, applied) (refl, height)

  -- A node whose identity is loaded and who knows where its rewards go.
  pub record HasIdentity (pub_raw priv : Bytes) (c : Chain) : Type 0 where
    pub payout : is_empty (daemon_wallet c.daemon) ≡ false
    pub loaded : ensure_validator_identity c ≡ (ok (p.hex_encode pub_raw), c)
    pub key : p.hex_decode c.validator_priv_hex ≡ some priv
    pub named : is_empty (p.hex_encode pub_raw) ≡ false
    pub keyed : is_empty c.validator_priv_hex ≡ false
    pub known : str_eq (p.hex_encode pub_raw) err_no_validator ≡ false

  proposal_safety_check-alone :
      (id : String) (c : Chain) → c.pending ≡ [] → proposal_safety_check id c ≡ ok tt
  unfolding proposal_safety_check lookup
  proposal_safety_check-alone id c h = rw (proposal_safety_check, h) refl

  validator_priv_hex-loaded :
      (c : Chain) (pub_hex : String)
      → ensure_validator_identity c ≡ (ok pub_hex, c)
      → validator_priv_hex c ≡ (ok c.validator_priv_hex, c)
  unfolding validator_priv_hex
  validator_priv_hex-loaded c pub_hex h =
      ap
        (λ (q : Result String × Chain). elim q.0 as (λ r. Result String × Chain) [
          | ok id ↦ (ok q.1.validator_priv_hex, q.1)
          | err e ↦ (err e, q.1)
        ])
        h

  propose_with-runs :
      (now : ℕ) (payout pub_hex priv_hex : String) (priv : Bytes) (c : Chain)
      → is_empty pub_hex ≡ false
      → is_empty priv_hex ≡ false
      → str_eq pub_hex err_no_validator ≡ false
      → p.hex_decode priv_hex ≡ some priv
      → c.pending ≡ []
      → propose_with now payout pub_hex priv_hex c
        ≡ offer_block now payout pub_hex priv (compact_mempool c).1
  unfolding propose_with
  propose_with-runs now payout pub_hex priv_hex priv c named keyed known key alone =
      rw (propose_with, named, keyed, known, proposal_safety_check-alone pub_hex c alone, key) refl

  -- `proposeBlock` extends the chain by one block whenever the validator's identity is loaded, a wallet
  -- address is set, no peer has announced a state, no block is buffered, the clock is past the last
  -- block, the height fits in 63 bits, the finalized height is not above it, the expected reward is
  -- not negative, the file system takes the block, no hash is written as the empty text, and the keys
  -- are a pair whose signatures verify: whatever stands in the mempool, what its compaction leaves
  -- makes a block that the node itself accepts.
  pub propose_block_grows :
      (now n : ℕ) (pub_raw priv : Bytes) (c : Chain)
      → HasIdentity pub_raw priv c
      → CanOffer now n pub_raw priv c
      → let (r, c') = propose_block now c in (r ≡ ok tt) × (c'.height ≡ pos (suc n))
  unfolding propose_block
  propose_block_grows now n pub_raw priv c id can =
      let payout = daemon_wallet c.daemon in
      let pub_hex = p.hex_encode pub_raw in
      let runs =
        propose_with-runs now payout pub_hex c.validator_priv_hex priv c id.named id.keyed id.known
          id.key can.ready.alone in
      let opened = validator_priv_hex-loaded c pub_hex id.loaded in
      let same : propose_block now c ≡ offer_block now payout pub_hex priv (compact_mempool c).1 =
        rw
          (
            propose_block,
            id.payout,
            ap (λ r. r.0) id.loaded,
            ap (λ r. r.1) id.loaded,
            ap (λ r. r.0) opened,
            ap (λ r. r.1) id.loaded,
            ap (λ r. r.1) opened,
          )
          runs in
      rw same (offer_block-grows now n payout pub_raw priv c can)
