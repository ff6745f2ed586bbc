-- ===== src/Store/Writes/Looping.antt =====
-- block_store.py: the loop of `ensure_prepared_blocks` over the blocks, each given once.
use ztierfs.Common.{
  ℕ, ◌≡◌, ◌≢◌, refl, sym, ◌∙◌, ap, true, false, not, none, some, List, [], ◌∷◌, if◌then◌else◌, map,
  keep, All, contains, Distinct, ok, is_some, arith, Bool-cases, Option-cases, inl, inr,
}
use ztierfs.Common.Dict.{Dict, lookup}
use ztierfs.Common.Bytes.{Bytes}
use ztierfs.Metadata.Schema.{Block}
use ztierfs.Metadata.Blocks.{BlockInsert}
use ztierfs.Metadata.Settle.{RowsOk}
use ztierfs.Store.Disk.{answers}
use ztierfs.Store.Codec.{Config, Zstd, PreparedBlock, prepared_insert}
use ztierfs.Store.Writes.{StoreState, ensure_existing, ensure_payload, ensure_each}
use ztierfs.Store.Writes.Backing.{IsBackedStore, IsEncoded, needs_hot}
use ztierfs.Store.Writes.HotFiles.{Kept, Kept-refl, Kept-trans, Step}
use ztierfs.Store.Writes.Ensuring.{Matches, IsPlaced, by_storage, ensure_payload_lem}

-- A block of the list has the digest.
abbrev pub digests_of : List PreparedBlock → List ℕ
digests_of = map (λ b. b.digest)

-- The blocks without a row.
abbrev pub new_blocks : Dict Block → List PreparedBlock → List PreparedBlock
new_blocks rows = keep (λ b. not (is_some (lookup b.digest rows)))

-- No file is left on the hot tier under the digest of a block that is to be written there.
abbrev pub IsUnstored : Dict Block → Dict Bytes → PreparedBlock → Type 0
IsUnstored rows hot b = needs_hot (lookup b.digest rows) ≡ true → lookup b.digest hot ≡ none

-- What the loop has done: the digests with a row are the same, it returns the new blocks, the payloads
-- of these are on the hot tier, and the payload of every row is where it says.
pub record Ensured (zstd : Zstd) (content : ℕ → Bytes) (rows : Dict Block)
    (blocks : List PreparedBlock) (s s' : StoreState) (new : List BlockInsert) : Type 0 where
  pub kept : Kept s.db s'.db
  pub up : answers 1 s'.disk ≡ answers 1 s.disk
  pub keys : (d : ℕ) → is_some (lookup d s'.db.blocks) ≡ is_some (lookup d s.db.blocks)
  pub collected : new ≡ map prepared_insert (new_blocks rows blocks)
  pub hot :
      (d : ℕ) → contains d (digests_of blocks) ≡ false → lookup d s'.disk.hot ≡ lookup d s.disk.hot
  pub placed : All (IsPlaced s'.disk.hot) (new_blocks rows blocks)
  pub backed : IsBackedStore zstd content s'.db s'.disk

then_Ensured :
    (zstd : Zstd) (content : ℕ → Bytes) (rows : Dict Block) (b : PreparedBlock)
    (blocks : List PreparedBlock) (s s1 s' : StoreState) (new new' : List BlockInsert)
    → Step zstd content b.digest s s1
    → Ensured zstd content rows blocks s1 s' new
    → contains b.digest (digests_of blocks) ≡ false
    → (is_some (lookup b.digest rows) ≡ false → IsPlaced s1.disk.hot b)
    → new' ≡ (if is_some (lookup b.digest rows) then new else prepared_insert b ∷ new)
    → Ensured zstd content rows (b ∷ blocks) s s' new'
then_Ensured zstd content rows b blocks s s1 s' new new' one rest u placed e = record {
  kept = Kept-trans s.db s1.db s'.db one.kept rest.kept;
  up = rest.up ∙ one.up;
  keys = λ d. rest.keys d ∙ one.keys d;
  collected = ground (arith, e, rest.collected);
  hot = λ d out. rest.hot d (ground (arith, out)) ∙ one.hot d (λ p. ground (arith, out, p));
  placed = elim (Bool-cases (is_some (lookup b.digest rows))) [
    | inl there ↦ rw (there, new_blocks) rest.placed
    | inr fresh ↦ rw (fresh, new_blocks) (λ x. rest.hot b.digest u ∙ placed fresh x, rest.placed)
  ];
  backed = rest.backed;
}

each_existing :
    (zstd : Zstd) (config : Config) (rows : Dict Block) (now : ℕ) (b : PreparedBlock)
    (blocks : List PreparedBlock) (row : Block) (s s1 : StoreState)
    → lookup b.digest rows ≡ some row
    → ensure_existing zstd config b row now s ≡ ok s1
    → ensure_each zstd config rows now (b ∷ blocks) s ≡ ensure_each zstd config rows now blocks s1
unfolding ensure_each
each_existing zstd config rows now b blocks row s s1 found done = rw (ensure_each, found, done) refl

each_new :
    (zstd : Zstd) (config : Config) (rows : Dict Block) (now : ℕ) (b : PreparedBlock)
    (blocks : List PreparedBlock) (s s1 s' : StoreState) (new : List BlockInsert)
    → lookup b.digest rows ≡ none
    → ensure_payload config b s ≡ ok s1
    → ensure_each zstd config rows now blocks s1 ≡ ok (s', new)
    → ensure_each zstd config rows now (b ∷ blocks) s ≡ ok (s', prepared_insert b ∷ new)
unfolding ensure_each
each_new zstd config rows now b blocks s s1 s' new fresh done rest =
    ground (arith, fresh, done, rest)

-- What is known of a block before the loop comes to it.
abbrev pub Awaits : Zstd → (ℕ → Bytes) → Dict Block → Dict Bytes → PreparedBlock → Type 0
Awaits zstd content rows hot b =
    Matches zstd rows b × (IsUnstored rows hot b × IsEncoded zstd content b)

-- The rows and files of the digests are those that were there before the loop.
abbrev pub IsUntouched : Dict Block → Dict Bytes → List PreparedBlock → StoreState → Type 0
IsUntouched rows hot blocks s =
    (d : ℕ)
    → contains d (digests_of blocks) ≡ true
    → (lookup d s.db.blocks ≡ lookup d rows) × (lookup d s.disk.hot ≡ lookup d hot)

still-IsUntouched :
    (zstd : Zstd) (content : ℕ → Bytes) (rows : Dict Block) (hot : Dict Bytes) (b : PreparedBlock)
    (blocks : List PreparedBlock) (s s1 : StoreState)
    → Step zstd content b.digest s s1
    → contains b.digest (digests_of blocks) ≡ false
    → IsUntouched rows hot (b ∷ blocks) s
    → IsUntouched rows hot blocks s1
still-IsUntouched zstd content rows hot b blocks s s1 step u same d h =
    let ne : d ≢ b.digest =
      (λ p. ground (arith, u, h, ap (λ x. contains x (digests_of blocks)) p)) in
    let before = same d (ground (arith, h)) in
    (step.others d ne ∙ before.0, step.hot d ne ∙ before.1)

-- The loop succeeds while the hot tier is up and the payloads fit the rows.
pub ensure_each_lem :
    (zstd : Zstd) (config : Config) (content : ℕ → Bytes) (rows : Dict Block) (hot : Dict Bytes)
    (now : ℕ) (blocks : List PreparedBlock) (s : StoreState)
    → RowsOk s.db.blocks
    → IsBackedStore zstd content s.db s.disk
    → answers 1 s.disk ≡ true
    → Distinct (digests_of blocks)
    → IsUntouched rows hot blocks s
    → All (Awaits zstd content rows hot) blocks
    → (s' : StoreState) × (new : List BlockInsert) × (ensure_each zstd config rows now blocks s
        ≡ ok (s', new))
      × Ensured zstd content rows blocks s s' new
unfolding ensure_each
ensure_each_lem zstd config content rows hot now [] s r k up u same m = (
  s,
  [],
  refl,
  record {
    kept = Kept-refl s.db r;
    up = refl;
    keys = λ d. refl;
    collected = refl;
    hot = λ d out. refl;
    placed = tt;
    backed = k;
  },
)
ensure_each_lem zstd config content rows hot now (b ∷ blocks) s r k up u same m =
    let still = (λ (s1 : StoreState) (step : Step zstd content b.digest s s1).
      still-IsUntouched zstd content rows hot b blocks s s1 step u.0 same) in
    let mine = same b.digest (ground arith) in
    elim (Option-cases (lookup b.digest rows)) [
      | inr (row, found) ↦
          let (s1, done, step) =
            by_storage zstd config content b row now s row.storage r k up (mine.0 ∙ found) refl
              (λ x f t h. m.0.0 x (sym mine.0 ∙ f) t h)
              (λ x. mine.1 ∙ m.0.1.0 (ap needs_hot found ∙ x)) m.0.1.1 in
          let (s', new, rest, e) =
            ensure_each_lem zstd config content rows hot now blocks s1 step.kept.rows step.backed
              (step.up ∙ up) u.1 (still s1 step) m.1 in
          (
            s',
            new,
            each_existing zstd config rows now b blocks row s s1 found done ∙ rest,
            then_Ensured zstd content rows b blocks s s1 s' new new step e u.0
                (λ x. ground (arith, x, found))
                (sym (ap (λ o. if is_some o then new else prepared_insert b ∷ new) found)),
          )
      | inl fresh ↦
          let (s1, done, step, placed) =
            ensure_payload_lem zstd config content b s r k up (mine.0 ∙ fresh)
              (mine.1 ∙ m.0.1.0 (ap needs_hot fresh)) in
          let (s', new, rest, e) =
            ensure_each_lem zstd config content rows hot now blocks s1 step.kept.rows step.backed
              (step.up ∙ up) u.1 (still s1 step) m.1 in
          (
            s',
            prepared_insert b ∷ new,
            each_new zstd config rows now b blocks s s1 s' new fresh done rest,
            then_Ensured zstd content rows b blocks s s1 s' new (prepared_insert b ∷ new) step e u.0
                (λ x. placed)
                (sym (ap (λ o. if is_some o then new else prepared_insert b ∷ new) fresh)),
          )
    ]
