-- ===== src/Persist/Restart.antt =====
-- A restart of a node (`loadFromDisk` of internal/mesh/chain_persist.go): the block files of a node
-- lead back to its chain.
use mathlib.Core.Path.{subst}
use blackchain_node.Prelude.{
  ℕ, suc, Bool, false, Option, none, some, List, [], ◌∷◌, ◌++◌, ◌≡◌, sym, ap, ◌∙◌, ◌≤◌, All, arith,
  ℤ, pos, length, String,
}
use blackchain_node.Types.{Block, ok}
use blackchain_node.Platform.{Platform, Bytes}
use blackchain_node.Dict.{Map, lookup, int_Eq, string_Eq}
use blackchain_node.Chain.{Chain}
use blackchain_node.Ledger.{Ledger, ledger_of}
use blackchain_node.Node.History.{block_at, IsHistory}
use blackchain_node.Execution.Agreement.{IsSameView}
use blackchain_node.Node.{Reach}
use blackchain_node.Node.Live.{block_at_le, IsFresh, Reach-IsLive}
use blackchain_node.Persist.{
  BlockCodec, FileContent, content, BlockDir, decode_persisted_block, sort_files, load_from_disk,
}
use blackchain_node.Persist.Replay.{
  IsListing, empty, file, IsStored, IsReady, load_from_disk-stored,
}

module _ ⦃p : Platform⦄ ⦃j : BlockCodec⦄ where
  -- The first files of a directory are those of the blocks that a chain has on disk, from height 1
  -- up to a height.
  pub data AreFilesOf (m : Map ℤ Block) : ℕ → Map ℤ FileContent → Type 0 where
    none_yet : AreFilesOf m 0 []
    one_more :
        (n : ℕ) (b : Block) (files : Map ℤ FileContent) (raw : Bytes)
        → AreFilesOf m n files
        → lookup (pos (suc n)) m ≡ some b
        → decode_persisted_block raw (pos (suc n)) ≡ ok b
        → AreFilesOf m (suc n) (files ++ (pos (suc n), content raw) ∷ [])

  some_injective : {A : Type 0} (a b : A) → some a ≡ some b → a ≡ b
  some_injective {A = A} a b e = ap (λ (o : Option A). elim o [ none ↦ a | some x ↦ x ]) e

  older_at :
      (i : ℕ) (a : Block) (bs : List Block) (x : Block)
      → block_at i bs ≡ some x
      → block_at i (a ∷ bs) ≡ some x
  older_at i a bs x h = ground (arith, block_at_le i bs x h)

  IsListing-of :
      (l : Ledger) (t : String) (m : Map ℤ Block) (bs : List Block) (n : ℕ)
      (files : Map ℤ FileContent)
      → n ≡ length bs
      → IsHistory l t bs
      → ((i : ℕ) (b : Block) → block_at i bs ≡ some b → lookup (pos i) m ≡ some b)
      → AreFilesOf m n files
      → IsListing bs files
  IsListing-of l t m [] _ _ e h on_disk none_yet = empty
  IsListing-of l t m [] _ _ e h on_disk (one_more n b files raw rest found good) =
      absurd (omega arith)
  IsListing-of l t m (a ∷ bs) _ _ e h on_disk none_yet = absurd (omega arith)
  IsListing-of l t m (a ∷ bs) _ _ e h on_disk (one_more n b files raw rest found good) =
      let same : n ≡ length bs = omega arith in
      let own : block_at (suc n) (a ∷ bs) ≡ some a = ground arith in
      let here : a ≡ b = some_injective a b (sym (on_disk (suc n) a own) ∙ found) in
      let height : a.height ≡ pos (suc n) = (h.0).height ∙ ap (λ k. pos (suc k)) (sym same) in
      let older =
        λ (i : ℕ) (x : Block) (k : block_at i bs ≡ some x). on_disk i x (older_at i a bs x k) in
      let decodes : decode_persisted_block raw a.height ≡ ok a =
        ap (λ k. decode_persisted_block raw k) height ∙ (good ∙ ap (λ x. ok x) (sym here)) in
      subst (λ k. IsListing (a ∷ bs) (files ++ (k, content raw) ∷ [])) height
        (file a bs files raw (IsListing-of l t m bs n files same h.1 older rest) decodes)

  texts-of :
      (l : Ledger) (t : String) (d : BlockDir) (bs : List Block)
      → IsHistory l t bs
      → ((i : ℕ) (b : Block)
          → block_at i bs ≡ some b
          → lookup (pos i) d.blocks ≡ some (content (j.json_block b)))
      → All (λ (b : Block). lookup b.height d.blocks ≡ some (content (j.json_block b))) bs
  texts-of l t d [] h there = tt
  texts-of l t d (b ∷ bs) h there = (
    ap (λ (k : ℤ). lookup k d.blocks) (h.0).height ∙ there (suc (length bs)) b (ground arith),
    texts-of l t d bs h.1 (λ i x k. there i x (older_at i b bs x k)),
  )

  -- A directory that can be read, has no interrupted writes, and whose files, in the order of their
  -- heights, are those of the blocks that a chain has on disk up to its height, each as
  -- `persistBlockLocked` writes it.
  pub record IsSaved (c : Chain) (d : BlockDir) : Type 0 where
    pub present : d.is_missing ≡ false
    pub listed : d.list_fault ≡ false
    pub settled : d.tmps ≡ []
    pub count : ℕ
    pub whole : c.height ≡ pos count
    pub files : AreFilesOf c.disk count (sort_files d.blocks)
    pub written :
        (i : ℕ) (b : Block)
        → i ≤ count
        → lookup (pos i) c.disk ≡ some b
        → lookup (pos i) d.blocks ≡ some (content (j.json_block b))

  -- A restart after any run of a node from a fresh chain: where the directory has the files of the
  -- node's blocks up to its height, as `persistBlockLocked` writes them, and no other, `loadFromDisk` on a fresh chain with the same tip and
  -- balances as the node started with, which can write, succeeds, leaves the directory as it is, and
  -- leads to the height, the tip and the balances that the node has.
  pub load_from_disk-Reach :
      (best : Bool) (s c r : Chain) (d : BlockDir)
      → Reach s c
      → IsFresh s
      → IsFresh r
      → IsSameView s r
      → ((b : Block) → r.disk_faults b ≡ false)
      → IsSaved c d
      → let (out, r') = load_from_disk best d r in (out ≡ (ok tt, d)) × IsSameView c r'
  load_from_disk-Reach best s c r d run h fresh same writes saved =
      let live = Reach-IsLive s c run h in
      let bs = live.history in
      let size : saved.count ≡ length bs = ground (arith, saved.whole, (live.shown).height) in
      let stored : IsStored bs d = record {
        present = saved.present;
        listed = saved.listed;
        written = record {
          settled = saved.settled;
          texts = texts-of (ledger_of s.accounts) s.tip d bs live.linked (λ i b at.
              saved.written i b (omega (arith, size, block_at_le i bs b at)) (live.disk i b at));
        };
        files =
            IsListing-of (ledger_of s.accounts) s.tip c.disk bs saved.count (sort_files d.blocks)
              size live.linked live.disk saved.files;
      } in
      let ready : IsReady (ledger_of s.accounts) s.tip [] r = record {
        shown = record { height = fresh.height; tip = sym same.tip; ledger = sym same.ledger };
        keyed = fresh.keyed;
        writes = writes;
      } in
      let (c', ready', loaded) =
        load_from_disk-stored best (ledger_of s.accounts) s.tip bs d r stored live.linked ready in
      (
        ap (λ o. o.0) loaded,
        subst (λ (e : Chain). IsSameView c e) (ap (λ o. o.1) (sym loaded))
            (record {
              height = (live.shown).height ∙ sym (ready'.shown).height;
              tip = (live.shown).tip ∙ sym (ready'.shown).tip;
              ledger = (live.shown).ledger ∙ sym (ready'.shown).ledger;
            }),
      )
