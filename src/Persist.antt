-- ===== src/Persist.antt =====
-- The block files of internal/mesh/chain_persist.go: promotion of interrupted writes, replay at
-- startup, and what happens to a corrupt file.
-- A directory holds a file `<height>.json` for a block and a file `<height>.json.tmp` for an
-- interrupted write. Other names are skipped by the code; a second name for one height, with leading
-- zeros, is not modelled.
use blackchain_node.Prelude.{
  ℕ, Bool, true, false, not, ◌&&◌, Option, none, some, List, [], ◌∷◌, ◌++◌, ℤ, pos, negsuc, ltb_ℤ,
  eqb_ℤ, if◌then◌else◌, is_some,
}
use blackchain_node.Types.{
  Block, Error, Result, ok, err, ◌>>=◌, ◌>>◌, reject_if, empty_payload, decode_failed,
  dir_unreadable, file_unreadable, file_corrupt, quarantine_failed, promotion_failed,
  height_mismatch,
}
use blackchain_node.Platform.{Platform, Bytes}
use blackchain_node.Dict.{Map, lookup, insert, delete, int_Eq}
use blackchain_node.Chain.{Chain}
use blackchain_node.Execution.{apply_block, reaches_disk}
pub mod Replay
pub mod Restart
pub mod Recovery
pub mod Corruption

-- `encoding/json` on blocks: `json.MarshalIndent` and `json.Unmarshal`.
pub record BlockCodec : Type 0 where
  pub json_block : Block → Bytes
  pub json_decode_block : Bytes → Option Block

-- What a read of a file returns.
pub data FileContent : Type 0 where
  unreadable : FileContent
  content : Bytes → FileContent

-- What becomes of a file that is to be moved to the quarantine: it stays, it is moved but the
-- directory is not synced, or all is well.
pub data Quarantine : Type 0 where
  unmoved unsynced moved : Quarantine

pub record BlockDir : Type 0 where
  pub is_missing : Bool
  pub list_fault : Bool
  pub blocks : Map ℤ FileContent
  pub tmps : Map ℤ FileContent
  -- of which heights the stat of the final file fails, and of which the promotion
  pub stat_fault : ℤ → Bool
  pub promotion_fault : ℤ → Bool
  -- of which heights the temporary file cannot be removed
  pub remove_fault : ℤ → Bool
  -- what a write that fails leaves of the temporary file
  pub leftover : ℤ → Option FileContent
  pub quarantine : Quarantine
  -- the recovery events that the daemon is told of
  pub promoted : List ℤ

-- How far `writeFileAtomicDurable` has come when the process ends: nothing is written, a part of the
-- temporary file, all of it, or the file is renamed.
pub data WriteStage : Type 0 where
  unwritten : WriteStage
  torn : Bytes → WriteStage
  complete renamed : WriteStage

-- The directory when the process ends in the middle of `persistBlockLocked`, at the file of a height.
unfoldable pub crash_in_write : WriteStage → ℤ → Bytes → BlockDir → BlockDir
crash_in_write unwritten h raw d = d
crash_in_write (torn part) h raw d = record d { tmps = insert h (content part) d.tmps }
crash_in_write complete h raw d = record d { tmps = insert h (content raw) d.tmps }
crash_in_write renamed h raw d = record d {
  blocks = insert h (content raw) d.blocks;
  tmps = delete h d.tmps;
}

-- `handleReplayCorruption`: the error, if the caller may not go on, and the directory
abbrev pub corrupt : Bool → Quarantine → BlockDir → BlockDir → Result (Unit {0}) × BlockDir
corrupt lenient unmoved before after = (err quarantine_failed, before)
corrupt lenient unsynced before after = (err quarantine_failed, after)
corrupt true moved before after = (ok tt, after)
corrupt false moved before after = (err file_corrupt, after)

-- A corrupt block file; `best_effort` is BLACKCHAIN_ALLOW_CORRUPT_RECOVERY.
unfoldable pub handle_block_corruption : Bool → Bool → ℤ → BlockDir → Result (Unit {0}) × BlockDir
handle_block_corruption best_effort allow h d =
    corrupt (allow && best_effort) d.quarantine d (record d { blocks = delete h d.blocks })

-- A corrupt temporary file.
unfoldable pub handle_tmp_corruption : ℤ → BlockDir → Result (Unit {0}) × BlockDir
handle_tmp_corruption h d = corrupt false d.quarantine d (record d { tmps = delete h d.tmps })

unfoldable pub insert_file : ℤ → FileContent → Map ℤ FileContent → Map ℤ FileContent
insert_file h f [] = (h, f) ∷ []
insert_file h f ((k, g) ∷ files) =
    if ltb_ℤ k h then (k, g) ∷ insert_file h f files else (h, f) ∷ (k, g) ∷ files

-- `sort.Slice` by height
unfoldable pub sort_files : Map ℤ FileContent → Map ℤ FileContent
unfolding insert_file
sort_files [] = []
sort_files ((h, f) ∷ files) = insert_file h f (sort_files files)

-- The height of the last file, or -1.
unfoldable pub max_height : Map ℤ FileContent → ℤ
max_height [] = negsuc 0
max_height ((h, f) ∷ []) = h
max_height ((h, f) ∷ (k, g) ∷ files) = max_height ((k, g) ∷ files)

-- The end of a round of the replay loop: an error, a return, or the next round.
abbrev pub and_then :
    (Result (Unit {0}) × BlockDir) × Chain × Bool
    → (BlockDir → Chain → (Result (Unit {0}) × BlockDir) × Chain)
    → (Result (Unit {0}) × BlockDir) × Chain
and_then ((err e, d), c, go_on) next = ((err e, d), c)
and_then ((ok u, d), c, true) next = next d c
and_then ((ok u, d), c, false) next = ((ok tt, d), c)

module _ ⦃p : Platform⦄ ⦃j : BlockCodec⦄ where
  abbrev pub decoded_block : Option Block → Result Block
  decoded_block none = err decode_failed
  decoded_block (some b) = ok b

  -- `decodePersistedBlock`
  unfoldable pub decode_persisted_block : Bytes → ℤ → Result Block
  decode_persisted_block raw expected_height = do
    reject_if (p.is_blank raw) empty_payload
    b ← decoded_block (j.json_decode_block raw)
    reject_if (not (eqb_ℤ b.height expected_height)) height_mismatch
    ok b

  -- The end of a round of `recoverInterruptedBlockWrites`: the rename and the sync.
  unfoldable pub promote : ℤ → Bytes → BlockDir → Result (Unit {0}) × BlockDir
  promote h raw d = if d.promotion_fault h then (err promotion_failed, d) else (
    ok tt,
    record d {
      blocks = insert h (content raw) d.blocks;
      tmps = delete h d.tmps;
      promoted = h ∷ d.promoted;
    },
  )

  abbrev pub recover_content : ℤ → FileContent → BlockDir → Result (Unit {0}) × BlockDir
  recover_content h unreadable d = (err file_unreadable, d)
  recover_content h (content raw) d = elim (decode_persisted_block raw h) [
    | err e ↦ handle_tmp_corruption h d
    | ok b ↦ promote h raw d
  ]

  -- A round: a temporary file beside a final one is removed, where an error of the removal is ignored.
  unfoldable pub recover_tmp : ℤ → FileContent → BlockDir → Result (Unit {0}) × BlockDir
  recover_tmp h f d =
      if d.stat_fault h
      then (err file_unreadable, d)
      else (if is_some (lookup h d.blocks)
          then (ok tt, record d { tmps = if d.remove_fault h then d.tmps else delete h d.tmps })
          else recover_content h f d)

  unfoldable pub recover_tmps : Map ℤ FileContent → BlockDir → Result (Unit {0}) × BlockDir
  recover_tmps [] d = (ok tt, d)
  recover_tmps ((h, f) ∷ tmps) d =
      let (r, d') = recover_tmp h f d in
      elim r [ err e ↦ (err e, d') | ok u ↦ recover_tmps tmps d' ]

  -- `recoverInterruptedBlockWrites`, over the entries that the directory has at the start
  unfoldable pub recover_interrupted_block_writes : BlockDir → Result (Unit {0}) × BlockDir
  recover_interrupted_block_writes d =
      if d.is_missing
      then (ok tt, d)
      else (if d.list_fault then (err dir_unreadable, d) else recover_tmps d.tmps d)

  -- `persistBlockLocked` on the directory: the file is written, or the write fails and leaves the
  -- temporary file as far as it has come.
  unfoldable pub write_file : Block → Chain → BlockDir → BlockDir
  write_file b c d =
      if c.disk_faults b && not (c.kept_faults b)
      then record d {
        tmps = elim (d.leftover b.height) [ none ↦ d.tmps | some f ↦ insert b.height f d.tmps ];
      }
      else record d {
        blocks = insert b.height (content (j.json_block b)) d.blocks;
        tmps = delete b.height d.tmps;
      }

  -- `applyBlockLocked` writes the file of the block that it is given again.
  unfoldable pub rewrite_file : Block → Chain → BlockDir → BlockDir
  unfolding write_file
  rewrite_file b c d = if reaches_disk b c then write_file b c d else d

  -- The block of a file is applied; a failure ends the replay, without an error for the last file
  -- where corrupt files may be skipped.
  unfoldable pub replay_block :
      Bool → Bool → ℤ → Block → BlockDir → Chain → (Result (Unit {0}) × BlockDir) × Chain × Bool
  replay_block best_effort is_last h b d c =
      let (r, c') = apply_block b c in
      let d' = rewrite_file b c d in
      elim r [
        | ok u ↦ ((ok tt, d'), c', true)
        | err e ↦ (handle_block_corruption best_effort is_last h d', c', false)
      ]

  -- One file: the error or not, the directory, the chain, and whether the loop goes on.
  unfoldable pub replay_file :
      Bool
      → Bool
      → ℤ
      → FileContent
      → BlockDir
      → Chain
      → (Result (Unit {0}) × BlockDir) × Chain × Bool
  replay_file best_effort is_last h unreadable d c = ((err file_unreadable, d), c, false)
  replay_file best_effort is_last h (content raw) d c = elim (decode_persisted_block raw h) [
    | err e ↦ (handle_block_corruption best_effort is_last h d, c, true)
    | ok b ↦ replay_block best_effort is_last h b d c
  ]

  -- The loop over the sorted files.
  unfoldable pub replay_files :
      Bool → ℤ → Map ℤ FileContent → BlockDir → Chain → (Result (Unit {0}) × BlockDir) × Chain
  replay_files best_effort max [] d c = ((ok tt, d), c)
  replay_files best_effort max ((h, f) ∷ files) d c =
      and_then (replay_file best_effort (eqb_ℤ h max) h f d c) (replay_files best_effort max files)

  -- `loadFromDisk`, after the interrupted writes
  abbrev pub load_recovered :
      Bool → Result (Unit {0}) × BlockDir → Chain → (Result (Unit {0}) × BlockDir) × Chain
  load_recovered best_effort (err e, d) c = ((err e, d), c)
  load_recovered best_effort (ok u, d) c =
      if d.is_missing
      then ((ok tt, d), c)
      else (if d.list_fault
          then ((err dir_unreadable, d), c)
          else (let files = sort_files d.blocks in
              replay_files best_effort (max_height files) files d c))

  -- `loadFromDisk`
  unfoldable pub load_from_disk : Bool → BlockDir → Chain → (Result (Unit {0}) × BlockDir) × Chain
  load_from_disk best_effort d c = load_recovered best_effort (recover_interrupted_block_writes d) c
