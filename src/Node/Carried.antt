-- ===== src/Node/Carried.antt =====
-- The elementary changes carry a property through every call of a node (internal/mesh/chain_core.go).
use mathlib.Core.Path.{subst}
use blackchain_node.Prelude.{
  ℕ, zero, suc, ◌≡◌, refl, sym, ap, ◌∙◌, arith, ℤ, pos, add64, leb_ℤ, eqb_ℤ, eqb_ℤ_iff, Bool-cases,
  Option-cases, inl, inr, String, Bool, false, not, str_eq, leb, take, drop, Option, none, some,
  List, length, ◌||◌,
}
use blackchain_node.Types.{Tx, Block, Result, ok, err, Result-cases}
use blackchain_node.Platform.{Platform, Bytes}
use blackchain_node.Signing.{is_empty}
use blackchain_node.Dict.{
  Map, lookup, insert, delete, int_Eq, string_Eq, lookup-insert, lookup-delete,
}
use blackchain_node.Chain.{Chain, Daemon, observe_validator}
use blackchain_node.Chain.Untouched.{
  HasKeysOnly, validator_id-HasKeysOnly, ensure-HasKeysOnly, validator_priv_hex-HasKeysOnly,
}
use blackchain_node.Chain.Identity.{
  err_no_validator, validator_id, ensure_validator_identity, validator_priv_hex,
}
use blackchain_node.Fees.{max_block_txs}
use blackchain_node.Mempool.{
  check_admission, add_tx_to_mempool, compact_mempool, rebuild_mempool_index,
}
use blackchain_node.Mempool.Compaction.{compact_mempool_rest}
use blackchain_node.Node.{
  Event, submit, receive, drain_buffer, propose, handle, Reach, begin, after,
}
use blackchain_node.Execution.{apply_block}
use blackchain_node.Execution.Atomicity.{observe_rest}
use blackchain_node.Execution.Applied.{apply_block-IsApplied}
use blackchain_node.Proposal.{
  with_block, set_tip, drain_step, drain, drain_pending, check_finalized, check_proposal,
  check_buffer, place_block, quorum_stage, judge_block, report_failure, apply_block_or_buffer,
  make_block, restore, offer_block, propose_with, propose_block, daemon_wallet,
  proposal_safety_check,
}
use blackchain_node.Proposal.Offer.{apply_block_or_buffer-err}
use blackchain_node.Proposal.Drain.{apply_block-pending, drain_step-pending}
use blackchain_node.Node.Invariant.{HasSameCore, HasNext, HasPositiveBuffer, IsInvariant}

-- After an accepted block, `c.height = b.Height; c.tip = b.Hash` changes nothing.
set_tip_same : (b : Block) (d : Chain) → d.height ≡ b.height → d.tip ≡ b.hash → set_tip b d ≡ d
set_tip_same b d h t = λ i. record d { height = sym h i; tip = sym t i }

module _ ⦃p : Platform⦄ where
  rebuilt-buffer :
      (n : ℕ) (c : Chain)
      → HasPositiveBuffer c
      → HasPositiveBuffer (rebuild_mempool_index (record c { mempool = drop n c.mempool }))
  unfolding rebuild_mempool_index
  rebuilt-buffer n c h = h

  rebuilt-mempool :
      (n : ℕ) (c : Chain)
      → (rebuild_mempool_index (record c { mempool = drop n c.mempool })).mempool ≡ drop n c.mempool
  unfolding rebuild_mempool_index
  rebuilt-mempool n c = refl

  restored-buffer :
      (txs : List Tx) (c : Chain) → HasPositiveBuffer c → HasPositiveBuffer (restore txs c)
  unfolding restore rebuild_mempool_index
  restored-buffer txs c h = h

module _ ⦃p : Platform⦄ {P : Chain → Type 0} (inv : IsInvariant P) where
  abbrev Both : Chain → Type 0
  Both c = HasPositiveBuffer c × P c

  drain_step-invariant :
      (b : Block) (c : Chain)
      → lookup (add64 c.height (pos 1)) c.pending ≡ some b
      → Both c
      → Both (drain_step (add64 c.height (pos 1)) b c).1
  unfolding drain_step
  drain_step-invariant b c found (buffer, h) =
      let k = add64 c.height (pos 1) in
      let dropped = record c { pending = delete k c.pending } in
      let left : HasPositiveBuffer (drain_step k b c).1 = λ j a there. buffer j a (
        ground (
          arith,
          lookup-delete k j c.pending,
          ap (λ (m : Map ℤ Block). lookup j m) (drain_step-pending k b c),
        )) in
      let base : P dropped = inv.frame c dropped refl h in
      let tried : P (apply_block b dropped).1 = inv.apply b dropped (buffer k b found) base in
      (
        left,
        elim (Bool-cases (not (str_eq b.prev_hash c.tip))) [
          | inl other ↦ rw (drain_step, other) base
          | inr here ↦
              elim (Bool-cases
                (with_block (lookup c.height c.blocks) (λ prev. leb b.time_utc prev.time_utc))) [
                  | inl old ↦ rw (drain_step, here, old) base
                  | inr new ↦ elim (Result-cases (apply_block b dropped).0) [
                    | inr (e, bad) ↦ rw (drain_step, here, new, bad) tried
                    | inl (u, good) ↦
                        let a = apply_block-IsApplied b dropped good in
                        rw (drain_step, here, new, good)
                          (subst P (sym (set_tip_same b (apply_block b dropped).1 a.height a.tip))
                            tried)
                  ]
                ]
        ],
      )

  apply_block-buffer :
      (b : Block) (c : Chain) → HasPositiveBuffer c → HasPositiveBuffer (apply_block b c).1
  apply_block-buffer b c buffer k a found =
      buffer k a (ap (λ (m : Map ℤ Block). lookup k m) (sym (apply_block-pending b c)) ∙ found)

  drain-invariant : (fuel : ℕ) (c : Chain) → Both c → Both (drain fuel c).1
  unfolding drain
  drain-invariant zero c h = h
  drain-invariant (suc fuel) c h = elim (Option-cases (lookup (add64 c.height (pos 1)) c.pending)) [
    | inl missing ↦ rw (missing, drain) h
    | inr (b, found) ↦
        rw (found, drain)
          (drain-invariant fuel (drain_step (add64 c.height (pos 1)) b c).1
            (drain_step-invariant b c found h))
  ]

  drain_pending-invariant : (c : Chain) → Both c → Both (drain_pending c).1
  unfolding drain_pending
  drain_pending-invariant c h = drain-invariant (suc (length c.pending)) c h

  place_block-invariant :
      (b : Block) (c : Chain) → leb_ℤ b.height (pos 0) ≡ false → Both c → Both (place_block b c).1
  unfolding place_block
  place_block-invariant b c positive (buffer, h) =
      let tried = λ (k : HasNext c). inv.apply b c k h in
      elim (Bool-cases (eqb_ℤ b.height (add64 c.height (pos 1)))) [
        | inr ahead ↦ elim (Result-cases (check_buffer b c)) [
          | inr (e, full) ↦ rw (place_block, ahead, full) (buffer, h)
          | inl (u, free) ↦
              rw (place_block, ahead, free)
                (
                  (λ k a found. ground (
                    arith,
                    lookup-insert b.height k b c.pending,
                    buffer k a,
                    eqb_ℤ_iff b.height k,
                  )),
                  inv.frame c (record c { pending = insert b.height b c.pending }) refl h,
                )
        ]
        | inl next ↦
            let height : b.height ≡ add64 c.height (pos 1) =
              (eqb_ℤ_iff b.height (add64 c.height (pos 1))).0 next in
            let room : HasNext c = ap (λ z. leb_ℤ z (pos 0)) (sym height) ∙ positive in
            elim (Result-cases (apply_block b c).0) [
              | inr (e, bad) ↦
                  rw (place_block, next, bad) (apply_block-buffer b c buffer, tried room)
              | inl (u, good) ↦
                  let a = apply_block-IsApplied b c good in
                  let c1 = (apply_block b c).1 in
                  rw (place_block, next, good)
                    (drain_pending-invariant (set_tip b c1) (
                      apply_block-buffer b c buffer,
                      subst P (sym (set_tip_same b c1 a.height a.tip)) (tried room),
                    ))
            ]
      ]

  -- Steps that change the keys, the daemon and the observed validators only.
  frame_buffer : (c d : Chain) → HasSameCore c d → d.pending ≡ c.pending → Both c → Both d
  frame_buffer c d same left (buffer, h) = (
    λ k a found. buffer k a (ap (λ (m : Map ℤ Block). lookup k m) (sym left) ∙ found),
    inv.frame c d same h,
  )

  keys-Both : (c d : Chain) → HasKeysOnly c d → Both c → Both d
  keys-Both c d same h = frame_buffer c d (rw same refl) (ap (λ (k : Chain). k.pending) same) h

  quorum_stage-invariant :
      (b : Block) (d : Option Daemon) (c : Chain) → Both c → Both (quorum_stage b d c).1
  unfolding quorum_stage
  quorum_stage-invariant b none c h = h
  quorum_stage-invariant b (some d) c h =
      keys-Both c (validator_id c).1 (validator_id-HasKeysOnly c) h

  check_proposal_positive :
      (now : ℕ) (b : Block) (c : Chain)
      → check_proposal now b c ≡ ok tt
      → leb_ℤ b.height (pos 0) ≡ false
  unfolding check_proposal
  check_proposal_positive now b c h = ground arith

  judge_block-invariant : (now : ℕ) (b : Block) (c : Chain) → Both c → Both (judge_block now b c).1
  unfolding judge_block
  judge_block-invariant now b c h = elim (Result-cases (check_finalized b c)) [
    | inr (e, final) ↦ rw (judge_block, final) h
    | inl (u, free) ↦
        let c1 = (quorum_stage b c.daemon c).1 in
        let h1 = quorum_stage-invariant b c.daemon c h in
        elim (Result-cases (quorum_stage b c.daemon c).0) [
          | inr (e, few) ↦ rw (judge_block, free, few) h1
          | inl (v, many) ↦ elim (Result-cases (check_proposal now b c1)) [
            | inr (e, bad) ↦ rw (judge_block, free, many, bad) h1
            | inl (w, fine) ↦
                rw (judge_block, free, many, fine)
                  (place_block-invariant b c1 (check_proposal_positive now b c1 fine) h1)
          ]
        ]
  ]

  report-invariant : (r : Result Bool × Chain) → Both r.1 → Both (report_failure r).1
  unfolding report_failure
  report-invariant (ok applied, c) h = h
  report-invariant (err e, c) h = frame_buffer c (report_failure (err e, c)).1 refl refl h

  apply_block_or_buffer-invariant :
      (now : ℕ) (b : Block) (c : Chain) → Both c → Both (apply_block_or_buffer now b c).1
  unfolding apply_block_or_buffer
  apply_block_or_buffer-invariant now b c h =
      let c1 = observe_validator b.producer c in
      let seen = observe_rest b.producer c in
      report-invariant (judge_block now b c1) (
        judge_block-invariant now b c1
          (frame_buffer c c1 (rw seen refl) (ap (λ (k : Chain). k.pending) seen) h))

  offer_block-invariant :
      (now : ℕ) (addr pub_hex : String) (priv : Bytes) (c : Chain)
      → Both c
      → Both (offer_block now addr pub_hex priv c).1
  unfolding offer_block
  offer_block-invariant now addr pub_hex priv c (buffer, h) =
      let c1 = rebuild_mempool_index (record c { mempool = drop max_block_txs c.mempool }) in
      let b = make_block now addr pub_hex priv (take max_block_txs c.mempool) c1 in
      let (buffer', h') =
        apply_block_or_buffer-invariant now b c1
          (rebuilt-buffer max_block_txs c buffer, inv.split max_block_txs c h) in
      elim (Result-cases (apply_block_or_buffer now b c1).0) [
        | inl (u, good) ↦ rw (offer_block, good) (buffer', h')
        | inr (e, bad) ↦
            let c2 = (apply_block_or_buffer now b c1).1 in
            let kept = apply_block_or_buffer-err now b c1 e bad ∙ rebuilt-mempool max_block_txs c in
            rw (offer_block, bad)
              (
                restored-buffer (take max_block_txs c.mempool) c2 buffer',
                inv.rejoin max_block_txs c c2 h h' kept,
              )
      ]

  compact-Both : (c : Chain) → Both c → Both (compact_mempool c).1
  compact-Both c (buffer, h) = (
    (λ k a found.
        buffer k a (ap (λ (d : Chain). lookup k d.pending) (sym (compact_mempool_rest c)) ∙ found)),
    inv.compact c h,
  )

  propose_with-invariant :
      (now : ℕ) (addr pub_hex priv_hex : String) (c : Chain)
      → Both c
      → Both (propose_with now addr pub_hex priv_hex c).1
  unfolding propose_with
  propose_with-invariant now addr pub_hex priv_hex c h =
      elim (Bool-cases (is_empty pub_hex || is_empty priv_hex || str_eq pub_hex err_no_validator)) [
        | inl unset ↦ rw (propose_with, unset) h
        | inr set ↦ elim (Result-cases (proposal_safety_check pub_hex c)) [
          | inr (e, unsafe) ↦ rw (propose_with, set, unsafe) h
          | inl (u, safe) ↦
              let c1 = (compact_mempool c).1 in
              let h1 = compact-Both c h in
              elim (Option-cases (p.hex_decode priv_hex)) [
                | inl bad ↦ rw (propose_with, set, safe, bad) h1
                | inr (priv, good) ↦
                    rw (propose_with, set, safe, good)
                      (offer_block-invariant now addr pub_hex priv c1 h1)
              ]
        ]
      ]

  propose_block-invariant : (now : ℕ) (c : Chain) → Both c → Both (propose_block now c).1
  unfolding propose_block
  propose_block-invariant now c h = elim (Bool-cases (is_empty (daemon_wallet c.daemon))) [
    | inl unset ↦ rw (propose_block, unset) h
    | inr set ↦
        let c1 = (ensure_validator_identity c).1 in
        let h1 = keys-Both c c1 (ensure-HasKeysOnly c) h in
        elim (Result-cases (ensure_validator_identity c).0) [
          | inr (e, bad) ↦ rw (propose_block, set, bad) h1
          | inl (pub_hex, good) ↦
              let c2 = (validator_priv_hex c1).1 in
              let h2 = keys-Both c1 c2 (validator_priv_hex-HasKeysOnly c1) h1 in
              elim (Result-cases (validator_priv_hex c1).0) [
                | inr (e, missing) ↦ rw (propose_block, set, good, missing) h2
                | inl (priv_hex, found) ↦
                    rw (propose_block, set, good, found)
                      (propose_with-invariant now (daemon_wallet c.daemon) pub_hex priv_hex c2 h2)
              ]
        ]
  ]

  admit-buffer :
      (tx : Tx) (c : Chain) → HasPositiveBuffer c → HasPositiveBuffer (add_tx_to_mempool tx c).1
  unfolding add_tx_to_mempool
  admit-buffer tx c h = elim (Result-cases (check_admission tx c)) [
    | inl (u, good) ↦ rw (add_tx_to_mempool, good) h
    | inr (e, bad) ↦ rw (add_tx_to_mempool, bad) h
  ]

  handle-invariant : (e : Event) (c : Chain) → Both c → Both (handle e c)
  handle-invariant (submit tx) c (buffer, h) = (admit-buffer tx c buffer, inv.admit tx c h)
  handle-invariant (receive now b) c h = apply_block_or_buffer-invariant now b c h
  handle-invariant drain_buffer c h = drain_pending-invariant c h
  handle-invariant (propose now) c h = propose_block-invariant now c h

  -- What the elementary changes preserve holds in every state that calls lead to, from a chain that
  -- buffers blocks at positive heights only.
  pub Reach-invariant :
      (c d : Chain) → Reach c d → HasPositiveBuffer c → P c → HasPositiveBuffer d × P d
  Reach-invariant c d begin buffer h = (buffer, h)
  Reach-invariant c _ (after e d r) buffer h = handle-invariant e d (Reach-invariant c d r buffer h)
