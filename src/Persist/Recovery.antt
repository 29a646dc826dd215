-- ===== src/Persist/Recovery.antt =====
-- A crash in the middle of a block write, and a corrupt last block file (internal/mesh/chain_persist.go).
use mathlib.Core.Path.{subst}
use blackchain_node.Prelude.{
  [], ◌∷◌, ◌≡◌, ◌⊎◌, inl, inr, refl, sym, ap, ◌∙◌, arith, ℤ, Bool-cases, is_some,
}
use blackchain_node.Types.{Block, Error, Result, ok, err, Result-cases}
use blackchain_node.Platform.{Platform, Bytes}
use blackchain_node.Dict.{Map, lookup, insert, delete, int_Eq}
use blackchain_node.Persist.{
  BlockCodec, FileContent, content, BlockDir, WriteStage, unwritten, torn, complete, renamed,
  crash_in_write, decode_persisted_block, handle_tmp_corruption, promote, recover_content,
  recover_tmp, recover_tmps, recover_interrupted_block_writes,
}

-- The block files are those before the write, or those after it.
abbrev pub IsAtomic : ℤ → Bytes → BlockDir → BlockDir → Type 0
IsAtomic h raw d d' = (d'.blocks ≡ d.blocks) ⊎ (d'.blocks ≡ insert h (content raw) d.blocks)

module _ ⦃p : Platform⦄ ⦃j : BlockCodec⦄ where
  tmp_corruption-blocks : (h : ℤ) (d : BlockDir) → (handle_tmp_corruption h d).1.blocks ≡ d.blocks
  unfolding handle_tmp_corruption
  tmp_corruption-blocks h d = ground arith

  promote-blocks : (h : ℤ) (raw : Bytes) (d : BlockDir) → IsAtomic h raw d (promote h raw d).1
  unfolding promote
  promote-blocks h raw d = ground arith

  recover_content-blocks :
      (h : ℤ) (raw part : Bytes) (d : BlockDir) (r : Result Block)
      → decode_persisted_block part h ≡ r
      → (part ≡ raw) ⊎ ((e : Error) × (decode_persisted_block part h ≡ err e))
      → IsAtomic h raw d (recover_content h (content part) d).1
  recover_content-blocks h raw part d (err x) bad readable =
      rw (bad, recover_content) (inl (tmp_corruption-blocks h d))
  recover_content-blocks h raw part d (ok b) good (inr (e, bad)) =
      absurd (ground (arith, good, bad))
  recover_content-blocks h raw part d (ok b) good (inl same) =
      rw (good, recover_content)
        (subst (λ x. IsAtomic h x d (promote h part d).1) same (promote-blocks h part d))

  -- The round over the temporary file of the height.
  recover_tmp-blocks :
      (h : ℤ) (raw part : Bytes) (d : BlockDir)
      → (part ≡ raw) ⊎ ((e : Error) × (decode_persisted_block part h ≡ err e))
      → IsAtomic h raw d (recover_tmp h (content part) d).1
  unfolding recover_tmp
  recover_tmp-blocks h raw part d readable = elim (Bool-cases (d.stat_fault h)) [
    | inl fault ↦ rw (recover_tmp, fault) (inl refl)
    | inr found ↦ elim (Bool-cases (is_some (lookup h d.blocks))) [
      | inl final ↦ rw (recover_tmp, found, final) (inl refl)
      | inr missing ↦
          rw (recover_tmp, found, missing)
            (recover_content-blocks h raw part d (decode_persisted_block part h) refl readable)
    ]
  ]

  recover_one :
      (h : ℤ) (f : FileContent) (d : BlockDir)
      → (recover_tmps ((h, f) ∷ []) d).1 ≡ (recover_tmp h f d).1
  unfolding recover_tmps
  recover_one h f d = elim (Result-cases (recover_tmp h f d).0) [
    | inl (u, good) ↦ rw (good, recover_tmps) refl
    | inr (e, bad) ↦ rw (bad, recover_tmps) refl
  ]

  recover-blocks :
      (d : BlockDir)
      → ((recover_interrupted_block_writes d).1 ≡ d)
        ⊎ ((recover_interrupted_block_writes d).1 ≡ (recover_tmps d.tmps d).1)
  unfolding recover_interrupted_block_writes
  recover-blocks d = ground arith

  recover-tmp :
      (h : ℤ) (raw part : Bytes) (d : BlockDir)
      → (part ≡ raw) ⊎ ((e : Error) × (decode_persisted_block part h ≡ err e))
      → d.tmps ≡ []
      → let torn_dir = record d { tmps = insert h (content part) d.tmps } in
        IsAtomic h raw d (recover_interrupted_block_writes torn_dir).1
  unfolding insert
  recover-tmp h raw part d readable settled =
      let one = record d { tmps = (h, content part) ∷ [] } in
      let same : record d { tmps = insert h (content part) d.tmps } ≡ one =
        ap (λ (m : Map ℤ FileContent). record d { tmps = insert h (content part) m }) settled in
      let step = recover_tmp-blocks h raw part one readable in
      subst (λ x. IsAtomic h raw d (recover_interrupted_block_writes x).1) (sym same)
        (elim (recover-blocks one) [
          | inl kept ↦ rw kept (inl refl)
          | inr tried ↦ rw (tried, recover_one h (content part) one) step
        ])

  recover-settled :
      (d : BlockDir) → d.tmps ≡ [] → (recover_interrupted_block_writes d).1.blocks ≡ d.blocks
  unfolding recover_interrupted_block_writes recover_tmps
  recover-settled d settled = elim (recover-blocks d) [
    | inl kept ↦ ap (λ (e : BlockDir). e.blocks) kept
    | inr tried ↦
        ap (λ (e : BlockDir). e.blocks) tried
        ∙ ap (λ (m : Map ℤ FileContent). (recover_tmps m d).1.blocks) settled
  ]

  -- A block write is atomic: if the process ends at any stage of it, in a directory without other
  -- interrupted writes, then after `recoverInterruptedBlockWrites`, whether it succeeds or not, the
  -- block files are those before the write or those after it, provided that a part of the file which
  -- is torn off does not decode as a block of that height.
  pub crash_in_write-IsAtomic :
      (stage : WriteStage) (h : ℤ) (raw : Bytes) (d : BlockDir)
      → d.tmps ≡ []
      → ((part : Bytes) → stage ≡ torn part → (e : Error) × (decode_persisted_block part h ≡ err e))
      → IsAtomic h raw d (recover_interrupted_block_writes (crash_in_write stage h raw d)).1
  unfolding crash_in_write delete
  crash_in_write-IsAtomic unwritten h raw d settled unreadable = inl (recover-settled d settled)
  crash_in_write-IsAtomic (torn part) h raw d settled unreadable =
      recover-tmp h raw part d (inr (unreadable part refl)) settled
  crash_in_write-IsAtomic complete h raw d settled unreadable =
      recover-tmp h raw raw d (inl refl) settled
  crash_in_write-IsAtomic renamed h raw d settled unreadable = inr (
      recover-settled
        (record d { blocks = insert h (content raw) d.blocks; tmps = delete h d.tmps })
        (ap (λ (m : Map ℤ FileContent). delete h m) settled))
