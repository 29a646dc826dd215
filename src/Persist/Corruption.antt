-- ===== src/Persist/Corruption.antt =====
-- A corrupt last block file at startup (`loadFromDisk` and `handleReplayCorruption` of
-- internal/mesh/chain_persist.go).
use blackchain_node.Prelude.{
  Bool, true, false, [], ◌∷◌, ◌++◌, List, ◌≡◌, refl, ap, ◌∙◌, ℤ, String, eqb_ℤ, eqb_ℤ_iff,
  if◌then◌else◌,
}
use blackchain_node.Types.{Block, Error, Result, ok, err, file_corrupt}
use blackchain_node.Platform.{Platform, Bytes}
use blackchain_node.Dict.{Map, delete, int_Eq}
use blackchain_node.Chain.{Chain}
use blackchain_node.Ledger.{Ledger}
use blackchain_node.Node.History.{Shows, IsHistory}
use blackchain_node.Persist.{
  BlockCodec, FileContent, content, BlockDir, moved, corrupt, decode_persisted_block, sort_files,
  max_height, handle_block_corruption, and_then, replay_file, replay_files, load_from_disk,
}
use blackchain_node.Persist.Replay.{
  IsListing, IsWritten, IsReady, replay_files-listing, load_from_disk-settled,
}

max_height-last :
    (files : Map ℤ FileContent) (h : ℤ) (f : FileContent) → max_height (files ++ (h, f) ∷ []) ≡ h
unfolding max_height
max_height-last [] h f = refl
max_height-last (x ∷ []) h f = refl
max_height-last (x ∷ y ∷ files) h f = max_height-last (y ∷ files) h f

module _ ⦃p : Platform⦄ ⦃j : BlockCodec⦄ where
  -- A directory that lists the files of a history, as `persistBlockLocked` writes them, and after them
  -- one more file.
  pub record IsFollowed (bs : List Block) (h : ℤ) (f : FileContent) (d : BlockDir) : Type 0 where
    pub present : d.is_missing ≡ false
    pub listed : d.list_fault ≡ false
    pub written : IsWritten bs d
    pub earlier : Map ℤ FileContent
    pub files : IsListing bs earlier
    pub sorted : sort_files d.blocks ≡ earlier ++ (h, f) ∷ []

  -- What is left of the replay at the corrupt file.
  abbrev outcome : Bool → ℤ → BlockDir → Chain → (Result (Unit {0}) × BlockDir) × Chain
  outcome best h d c =
      (((if best then ok tt else err file_corrupt), record d { blocks = delete h d.blocks }), c)

  handle-moved :
      (best : Bool) (h : ℤ) (d : BlockDir)
      → d.quarantine ≡ moved
      → handle_block_corruption best true h d
        ≡ ((if best then ok tt else err file_corrupt), record d { blocks = delete h d.blocks })
  unfolding handle_block_corruption
  handle-moved true h d e = ap (λ q. corrupt true q d (record d { blocks = delete h d.blocks })) e
  handle-moved false h d e = ap (λ q. corrupt false q d (record d { blocks = delete h d.blocks })) e

  replay_file-corrupt :
      (best : Bool) (h : ℤ) (raw : Bytes) (e : Error) (d : BlockDir) (c : Chain)
      → decode_persisted_block raw h ≡ err e
      → d.quarantine ≡ moved
      → replay_file best true h (content raw) d c ≡ (
        ((if best then ok tt else err file_corrupt), record d { blocks = delete h d.blocks }),
        c,
        true,
      )
  unfolding replay_file
  replay_file-corrupt best h raw e d c bad works =
      rw (bad, replay_file) (ap (λ o. (o, c, true)) (handle-moved best h d works))

  and_then-outcome :
      (best : Bool) (h : ℤ) (d : BlockDir) (c : Chain)
      → and_then
          (
            ((if best then ok tt else err file_corrupt), record d { blocks = delete h d.blocks }),
            c,
            true,
          )
          (replay_files best h [])
        ≡ outcome best h d c
  unfolding replay_files
  and_then-outcome true h d c = refl
  and_then-outcome false h d c = refl

  corrupt_file-outcome :
      (best : Bool) (h : ℤ) (raw : Bytes) (e : Error) (d : BlockDir) (c : Chain)
      → decode_persisted_block raw h ≡ err e
      → d.quarantine ≡ moved
      → replay_files best h ((h, content raw) ∷ []) d c ≡ outcome best h d c
  unfolding replay_files
  corrupt_file-outcome best h raw e d c bad works =
      let here : eqb_ℤ h h ≡ true = (eqb_ℤ_iff h h).1 refl in
      ap (λ t. and_then (replay_file best t h (content raw) d c) (replay_files best h [])) here
      ∙ (ap (λ o. and_then o (replay_files best h []))
            (replay_file-corrupt best h raw e d c bad works)
          ∙ and_then-outcome best h d c)

  -- If the files of a history, as `persistBlockLocked` writes them, are followed by a last file that does not decode, then the file is
  -- moved to the quarantine, where the quarantine works, and the chain shows the history. The replay
  -- succeeds exactly if best-effort recovery is allowed.
  pub load_from_disk-corrupt :
      (best : Bool) (l : Ledger) (t : String) (bs : List Block) (h : ℤ) (raw : Bytes) (e : Error)
      (d : BlockDir) (c : Chain)
      → IsFollowed bs h (content raw) d
      → IsHistory l t bs
      → IsReady l t [] c
      → decode_persisted_block raw h ≡ err e
      → d.quarantine ≡ moved
      → let ((out, d'), c') = load_from_disk best d c in
        (out ≡ (if best then ok tt else err file_corrupt))
        × (d'.blocks ≡ delete h d.blocks)
        × Shows l t bs c'
  load_from_disk-corrupt best l t bs h raw e d c followed linked ready bad works =
      let (c', ready', same) =
        replay_files-listing best h l t bs followed.earlier ((h, content raw) ∷ []) d c
          followed.files linked ready followed.written in
      let last = ap max_height followed.sorted ∙ max_height-last followed.earlier h (content raw) in
      let loaded : load_from_disk best d c ≡ outcome best h d c' =
        load_from_disk-settled best d c followed.present followed.listed (followed.written).settled
        ∙ (ap (λ (m : ℤ). replay_files best m (sort_files d.blocks) d c) last
            ∙ (ap (λ (x : Map ℤ FileContent). replay_files best h x d c) followed.sorted
                ∙ (same ∙ corrupt_file-outcome best h raw e d c' bad works))) in
      rw loaded (refl, refl, ready'.shown)
