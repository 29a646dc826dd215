-- ===== src/Execution/Outcome.antt =====
-- The two outcomes of `applyBlockLocked` (internal/mesh/chain_core.go), for the whole state of the
-- chain: which parts an error leaves alone, and from where an accepted block takes the mempool.
use blackchain_node.Prelude.{
  ◌≡◌, refl, sym, ap, ◌∙◌, arith, ℤ, pos, add64, Bool-cases, ◌⊎◌, inl, inr, [],
}
use blackchain_node.Types.{Block, Error, ok, err, Result-cases}
use blackchain_node.Platform.{Platform}
use blackchain_node.Dict.{insert, int_Eq, string_Eq}
use blackchain_node.Dict.Keys.{IsKeyed}
use blackchain_node.Chain.{Chain, observe_validator}
use blackchain_node.Mempool.{compact_mempool}
use blackchain_node.Mempool.Compaction.{compact_mempool_rest}
use blackchain_node.Finality.Depth.{advance_finality_rest}
use blackchain_node.Execution.{
  Exec, exec_txs, check_block, check_seal, execute_block, persist_and_execute, seal_and_execute,
  apply_block, commit_block, pay_rewards, write_back,
}
use blackchain_node.Execution.Keyed.{exec_txs-IsKeyed, write_back-IsKeyed, pay_rewards-IsKeyed}
use blackchain_node.Execution.Applied.{
  observed_rest, apply_block-ok, seal_and_execute-ok, execute_block-ok,
}
use blackchain_node.Execution.Success.{check_block-IsSound}

module _ ⦃p : Platform⦄ where
  -- What an error leaves: the accounts keep one entry for each address, and the file of the block,
  -- which extends the height, may be there.
  pub record IsRejected (b : Block) (c c' : Chain) : Type 0 where
    pub rest :
        c' ≡ record c { validator_set = c'.validator_set; accounts = c'.accounts; disk = c'.disk }
    pub keyed : IsKeyed c.accounts → IsKeyed c'.accounts
    pub disk :
        (c'.disk ≡ c.disk)
        ⊎ ((c'.disk ≡ insert b.height b c.disk) × (b.height ≡ add64 c.height (pos 1)))

  execute_block-accounts :
      (b : Block) (total : ℤ) (c : Chain) (e : Error)
      → (execute_block b total c).0 ≡ err e
      → let st : Exec = record { accounts = c.accounts; snaps = []; total_fees = total } in
        (execute_block b total c).1 ≡ record c { accounts = (exec_txs b.txs st).1.accounts }
  unfolding execute_block
  execute_block-accounts b total c e h = ground arith

  seal_and_execute-IsRejected :
      (b : Block) (total : ℤ) (c d : Chain) (e : Error)
      → d ≡ record c { validator_set = d.validator_set }
      → b.height ≡ add64 c.height (pos 1)
      → (seal_and_execute b total d).0 ≡ err e
      → IsRejected b c (seal_and_execute b total d).1
  unfolding seal_and_execute persist_and_execute
  seal_and_execute-IsRejected b total c d e same next h =
      let st : Exec = record { accounts = d.accounts; snaps = []; total_fees = total } in
      let early : IsRejected b c d = record {
        rest =
            same
            ∙ ap
                (λ (k : Chain). record c {
                  validator_set = d.validator_set;
                  accounts = k.accounts;
                  disk = k.disk;
                })
                (sym same);
        keyed = λ k. rw same k;
        disk = inl (ap (λ (k : Chain). k.disk) same);
      } in
      let c1 = record d { disk = insert b.height b d.disk } in
      elim (Result-cases (check_seal b total d)) [
        | inr (x, bad) ↦ rw (bad, seal_and_execute) early
        | inl (u, good) ↦ elim (Bool-cases (d.disk_faults b)) [
          | inl fault ↦ elim (Bool-cases (d.kept_faults b)) [
            | inr lost ↦ rw (good, seal_and_execute, fault, lost) early
            | inl kept ↦
                rw (good, seal_and_execute, fault, kept)
                  (record {
                    rest =
                        ap
                          (λ (k : Chain). record k {
                            accounts = d.accounts;
                            disk = insert b.height b d.disk;
                          })
                          same;
                    keyed = λ k. rw same k;
                    disk = inr (ap (λ (k : Chain). insert b.height b k.disk) same, next);
                  })
          ]
          | inr fine ↦
              let failed : (execute_block b total c1).0 ≡ err e = ground arith in
              let left = execute_block-accounts b total c1 e failed in
              rw (good, seal_and_execute, fine, left)
                (record {
                  rest =
                      ap
                        (λ (k : Chain). record k {
                          accounts = (exec_txs b.txs st).1.accounts;
                          disk = insert b.height b d.disk;
                        })
                        same;
                  keyed = λ k. exec_txs-IsKeyed b.txs st (rw same k);
                  disk = inr (ap (λ (k : Chain). insert b.height b k.disk) same, next);
                })
        ]
      ]

  pub apply_block-IsRejected :
      (b : Block) (c : Chain) (e : Error)
      → (apply_block b c).0 ≡ err e
      → IsRejected b c (apply_block b c).1
  unfolding apply_block
  apply_block-IsRejected b c e h = elim (Result-cases (check_block b c)) [
    | inr (x, bad) ↦ rw (bad, apply_block) (record { rest = refl; keyed = λ k. k; disk = inl refl })
    | inl (total, good) ↦
        rw (good, apply_block)
          (seal_and_execute-IsRejected b total c _ e (observed_rest b.producer b.validator_id c)
            (check_block-IsSound b c total good).next_height (ground arith))
  ]

  -- What an accepted block leaves besides what `IsApplied` states: the mempool and its indices are
  -- those of a compaction, and most of the rest is what it was.
  pub record IsCommitted (c c' : Chain) : Type 0 where
    pub keyed : IsKeyed c.accounts → IsKeyed c'.accounts
    pub pooled :
        (m : Chain) × (m.mempool ≡ c.mempool)
        × (c'.mempool ≡ (compact_mempool m).1.mempool)
        × (c'.mempool_ids ≡ (compact_mempool m).1.mempool_ids)
        × (c'.mempool_sender_nonce ≡ (compact_mempool m).1.mempool_sender_nonce)
    pub votes : c'.votes ≡ c.votes
    pub vote_counts : c'.vote_counts ≡ c.vote_counts
    pub disk_faults : c'.disk_faults ≡ c.disk_faults

  commit_block-IsCommitted :
      (b : Block) (st : Exec) (c : Chain)
      → (IsKeyed c.accounts → IsKeyed st.accounts)
      → IsCommitted c (commit_block b st c)
  unfolding commit_block
  commit_block-IsCommitted b st c keyed =
      let c1 = record c {
        accounts = pay_rewards b st.total_fees (write_back st.snaps st.accounts);
        blocks = insert b.height b c.blocks;
        height = b.height;
        tip = b.hash;
      } in
      let c2 = (compact_mempool c1).1 in
      let final = advance_finality_rest c2 in
      let pool = compact_mempool_rest c1 in
      let kept = λ (k : IsKeyed c.accounts).
        pay_rewards-IsKeyed b st.total_fees (write_back st.snaps st.accounts)
          (write_back-IsKeyed st.snaps st.accounts (keyed k)) in
      record {
        keyed = λ k. rw final (rw pool (kept k));
        pooled = (
          c1,
          refl,
          ap (λ (k : Chain). k.mempool) final,
          ap (λ (k : Chain). k.mempool_ids) final,
          ap (λ (k : Chain). k.mempool_sender_nonce) final,
        );
        votes = ap (λ (k : Chain). k.votes) final ∙ ap (λ (k : Chain). k.votes) pool;
        vote_counts =
            ap (λ (k : Chain). k.vote_counts) final ∙ ap (λ (k : Chain). k.vote_counts) pool;
        disk_faults =
            ap (λ (k : Chain). k.disk_faults) final ∙ ap (λ (k : Chain). k.disk_faults) pool;
      }

  pub apply_block-IsCommitted :
      (b : Block) (c : Chain) → (apply_block b c).0 ≡ ok tt → IsCommitted c (apply_block b c).1
  apply_block-IsCommitted b c h =
      let (total, checked, same) = apply_block-ok b c h in
      let observed =
        (observe_validator b.producer (observe_validator b.validator_id c)).validator_set in
      let d = record c { validator_set = observed } in
      let there : apply_block b c ≡ seal_and_execute b total d =
        same ∙ ap (seal_and_execute b total) (observed_rest b.producer b.validator_id c) in
      let (sealed, ran, same') = seal_and_execute-ok b total d (ap (λ r. r.0) (sym there) ∙ h) in
      let c1 = record d { disk = insert b.height b d.disk } in
      let (done, committed) = execute_block-ok b total c1 ran in
      let st : Exec = record { accounts = c.accounts; snaps = []; total_fees = total } in
      let here = commit_block-IsCommitted b (exec_txs b.txs st).1 c1 (exec_txs-IsKeyed b.txs st) in
      rw (there, same', committed)
        (record {
          keyed = here.keyed;
          pooled = here.pooled;
          votes = here.votes;
          vote_counts = here.vote_counts;
          disk_faults = here.disk_faults;
        })
