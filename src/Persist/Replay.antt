-- ===== src/Persist/Replay.antt =====
-- A replay of the block files (`loadFromDisk` of internal/mesh/chain_persist.go) leads to the chain
-- whose blocks they are.
use mathlib.Core.List.{append_assoc, append-nil}
use blackchain_node.Prelude.{
  Bool, true, false, Option, none, some, List, All, Bool-cases, inl, inr, arith, eqb_ℤ_iff, [], ◌∷◌,
  ◌++◌, ◌≡◌, refl, sym, ap, ◌∙◌, ℤ, pos, eqb_ℤ, String, if◌then◌else◌,
}
use blackchain_node.Types.{Block, ok, err, dir_unreadable}
use blackchain_node.Platform.{Platform, Bytes}
use blackchain_node.Dict.{Map, lookup, insert, delete, int_Eq, string_Eq}
use blackchain_node.Dict.Keys.{IsKeyed}
use blackchain_node.Chain.{Chain, observe_validator}
use blackchain_node.Ledger.{Ledger, pay_all}
use blackchain_node.Execution.{apply_block, reaches_disk}
use blackchain_node.Execution.Loop.{sum_fees}
use blackchain_node.Execution.Success.{reward_ledger}
use blackchain_node.Execution.Applied.{apply_block-IsApplied, apply_block-ok, seal_and_execute-ok}
use blackchain_node.Execution.Outcome.{apply_block-IsCommitted}
use blackchain_node.Node.History.{Shows, Extends, IsHistory}
use blackchain_node.Persist.{
  BlockCodec, FileContent, content, BlockDir, decode_persisted_block, sort_files, max_height,
  load_recovered, and_then, recover_tmps, replay_file, replay_block, replay_files, write_file,
  rewrite_file, recover_interrupted_block_writes, load_from_disk,
}

insert_same :
    (k : ℤ) (v : FileContent) (m : Map ℤ FileContent) → lookup k m ≡ some v → insert k v m ≡ m
unfolding lookup insert
insert_same k v [] h = absurd (ground arith)
insert_same k v ((i, w) ∷ m) h = elim (Bool-cases (eqb_ℤ i k)) [
  | inr other ↦
      rw other
        (ap (λ (n : Map ℤ FileContent). (i, w) ∷ n) (insert_same k v m (ground (arith, other))))
  | inl same ↦
      let found : some w ≡ some v = ground (arith, same) in
      let value = ap (λ (o : Option FileContent). elim o [ none ↦ w | some x ↦ x ]) found in
      let key = (eqb_ℤ_iff i k).0 same in rw same (λ t. (sym key t, sym value t) ∷ m)
]

module _ ⦃p : Platform⦄ ⦃j : BlockCodec⦄ where
  -- The files of a history, newest first, are a listing: one for each block, which decodes to it.
  pub data IsListing : List Block → Map ℤ FileContent → Type 0 where
    empty : IsListing [] []
    file :
        (b : Block) (bs : List Block) (files : Map ℤ FileContent) (raw : Bytes)
        → IsListing bs files
        → decode_persisted_block raw b.height ≡ ok b
        → IsListing (b ∷ bs) (files ++ (b.height, content raw) ∷ [])

  -- The chain shows the history, its accounts have one entry for each address, and it can write.
  pub record IsReady (l : Ledger) (t : String) (bs : List Block) (c : Chain) : Type 0 where
    pub shown : Shows l t bs c
    pub keyed : IsKeyed c.accounts
    pub writes : (b : Block) → c.disk_faults b ≡ false

  apply-IsReady :
      (l : Ledger) (t : String) (b : Block) (bs : List Block) (c : Chain)
      → Extends l t b bs
      → IsReady l t bs c
      → ((apply_block b c).0 ≡ ok tt) × IsReady l t (b ∷ bs) (apply_block b c).1
  apply-IsReady l t b bs c e h =
      let good = e.accepted c h.shown h.keyed (h.writes b) in
      let a = apply_block-IsApplied b c good in
      let k = apply_block-IsCommitted b c good in
      (
        good,
        record {
          shown = record {
            height = a.height ∙ e.height;
            tip = a.tip;
            ledger =
                a.ledger
                ∙ ap
                    (λ (x : Ledger).
                      reward_ledger b (sum_fees b.txs (sum_fees b.txs (pos 0))) (pay_all b.txs x))
                    (h.shown).ledger;
          };
          keyed = k.keyed h.keyed;
          writes = λ x. ap (λ (f : Block → Bool). f x) k.disk_faults ∙ h.writes x;
        },
      )

  -- The directory has no interrupted writes, and holds each of the blocks as `persistBlockLocked`
  -- writes it.
  pub record IsWritten (bs : List Block) (d : BlockDir) : Type 0 where
    pub settled : d.tmps ≡ []
    pub texts : All (λ (b : Block). lookup b.height d.blocks ≡ some (content (j.json_block b))) bs

  reaches_disk-applied :
      (b : Block) (c : Chain) → (apply_block b c).0 ≡ ok tt → reaches_disk b c ≡ true
  unfolding reaches_disk
  reaches_disk-applied b c ran =
      let (total, checked, same) = apply_block-ok b c ran in
      let d = observe_validator b.producer (observe_validator b.validator_id c) in
      let sealed = (seal_and_execute-ok b total d (ap (λ r. r.0) (sym same) ∙ ran)).0 in
      rw (checked, reaches_disk) (rw sealed refl)

  -- Writing a file again that holds the block changes nothing.
  rewrite_file-same :
      (b : Block) (c : Chain) (d : BlockDir)
      → (apply_block b c).0 ≡ ok tt
      → c.disk_faults b ≡ false
      → d.tmps ≡ []
      → lookup b.height d.blocks ≡ some (content (j.json_block b))
      → rewrite_file b c d ≡ d
  unfolding rewrite_file write_file delete
  rewrite_file-same b c d ran fine settled text =
      let tmps : delete b.height d.tmps ≡ d.tmps = ap (delete b.height) settled ∙ sym settled in
      let blocks = insert_same b.height (content (j.json_block b)) d.blocks text in
      rw (rewrite_file, reaches_disk-applied b c ran, write_file, fine)
        (λ i. record d { blocks = blocks i; tmps = tmps i })

  replay_file-good :
      (best is_last : Bool) (b : Block) (raw : Bytes) (d : BlockDir) (c : Chain)
      → decode_persisted_block raw b.height ≡ ok b
      → (apply_block b c).0 ≡ ok tt
      → rewrite_file b c d ≡ d
      → replay_file best is_last b.height (content raw) d c
        ≡ ((ok tt, d), (apply_block b c).1, true)
  unfolding replay_file replay_block
  replay_file-good best is_last b raw d c good ran same =
      rw (good, replay_file)
        (rw (ran, replay_block)
          (ap (λ (e : BlockDir). ((ok tt, e), (apply_block b c).1, true)) same))

  replay_files-step :
      (best : Bool) (max : ℤ) (b : Block) (raw : Bytes) (rest : Map ℤ FileContent) (d : BlockDir)
      (c : Chain)
      → decode_persisted_block raw b.height ≡ ok b
      → (apply_block b c).0 ≡ ok tt
      → rewrite_file b c d ≡ d
      → replay_files best max ((b.height, content raw) ∷ rest) d c
        ≡ replay_files best max rest d (apply_block b c).1
  unfolding replay_files
  replay_files-step best max b raw rest d c good ran same =
      ap (λ o. and_then o (replay_files best max rest))
        (replay_file-good best (eqb_ℤ b.height max) b raw d c good ran same)

  -- The loop goes through the files of a history, whatever files follow.
  pub replay_files-listing :
      (best : Bool) (max : ℤ) (l : Ledger) (t : String) (bs : List Block)
      (files rest : Map ℤ FileContent) (d : BlockDir) (c : Chain)
      → IsListing bs files
      → IsHistory l t bs
      → IsReady l t [] c
      → IsWritten bs d
      → (c' : Chain) × IsReady l t bs c'
        × (replay_files best max (files ++ rest) d c ≡ replay_files best max rest d c')
  unfolding replay_files
  replay_files-listing best max l t [] _ rest d c empty h ready w = (c, ready, refl)
  replay_files-listing best max l t (b ∷ bs) _ rest d c (file _ _ files raw listed good) h ready w =
      let (c1, ready1, same) =
        replay_files-listing best max l t bs files ((b.height, content raw) ∷ rest) d c listed h.1
          ready (record { settled = w.settled; texts = (w.texts).1 }) in
      let (ran, ready2) = apply-IsReady l t b bs c1 h.0 ready1 in
      let kept = rewrite_file-same b c1 d ran (ready1.writes b) w.settled (w.texts).0 in
      let step = replay_files-step best max b raw rest d c1 good ran kept in
      (
        (apply_block b c1).1,
        ready2,
        ap (λ (x : Map ℤ FileContent). replay_files best max x d c)
              (append_assoc files ((b.height, content raw) ∷ []) rest)
            ∙ (same ∙ step),
      )

  -- A directory that lists the files of a history: it can be read, has no interrupted writes, and its
  -- files in the order of their heights decode to the blocks of the history, and are written as
  -- `persistBlockLocked` writes these.
  pub record IsStored (bs : List Block) (d : BlockDir) : Type 0 where
    pub present : d.is_missing ≡ false
    pub listed : d.list_fault ≡ false
    pub written : IsWritten bs d
    pub files : IsListing bs (sort_files d.blocks)

  recover-settled :
      (d : BlockDir)
      → d.is_missing ≡ false
      → d.list_fault ≡ false
      → d.tmps ≡ []
      → recover_interrupted_block_writes d ≡ (ok tt, d)
  unfolding recover_interrupted_block_writes recover_tmps
  recover-settled d present listed settled =
      ap
        (λ x.
          if x
          then (ok tt, d)
          else (if d.list_fault then (err dir_unreadable, d) else recover_tmps d.tmps d))
        present
      ∙ (ap (λ x. if x then (err dir_unreadable, d) else recover_tmps d.tmps d) listed
          ∙ ap (λ x. recover_tmps x d) settled)

  pub load_from_disk-settled :
      (best : Bool) (d : BlockDir) (c : Chain)
      → d.is_missing ≡ false
      → d.list_fault ≡ false
      → d.tmps ≡ []
      → load_from_disk best d c
        ≡ replay_files best (max_height (sort_files d.blocks)) (sort_files d.blocks) d c
  unfolding load_from_disk
  load_from_disk-settled best d c present listed settled =
      let replayed =
        replay_files best (max_height (sort_files d.blocks)) (sort_files d.blocks) d c in
      ap (λ o. load_recovered best o c) (recover-settled d present listed settled)
      ∙ (ap
            (λ x.
              if x
              then ((ok tt, d), c)
              else (if d.list_fault then ((err dir_unreadable, d), c) else replayed))
            present
          ∙ ap (λ x. if x then ((err dir_unreadable, d), c) else replayed) listed)

  pub load_from_disk-stored :
      (best : Bool) (l : Ledger) (t : String) (bs : List Block) (d : BlockDir) (c : Chain)
      → IsStored bs d
      → IsHistory l t bs
      → IsReady l t [] c
      → (c' : Chain) × IsReady l t bs c' × (load_from_disk best d c ≡ ((ok tt, d), c'))
  unfolding replay_files
  load_from_disk-stored best l t bs d c stored h ready =
      let max = max_height (sort_files d.blocks) in
      let (c', ready', same) =
        replay_files-listing best max l t bs (sort_files d.blocks) [] d c stored.files h ready
          stored.written in
      let whole =
        ap (λ (x : Map ℤ FileContent). replay_files best max x d c)
          (sym (append-nil (sort_files d.blocks)))
        ∙ same in
      (
        c',
        ready',
        load_from_disk-settled best d c stored.present stored.listed (stored.written).settled
            ∙ whole,
      )
