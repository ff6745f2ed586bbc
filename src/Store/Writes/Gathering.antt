-- ===== src/Store/Writes/Gathering.antt =====
-- block_store.py: `ensure_prepared_blocks` takes each block once.
use ztierfs.Common.{
  ℕ, ◌≡◌, refl, sym, ◌∙◌, ap, true, false, ◌||◌, none, some, List, [], ◌∷◌, ◌++◌, ◌==◌, All,
  contains, Distinct, ok, is_some, arith, Bool-cases, Option-cases, inl, inr,
}
use ztierfs.Common.Bytes.{same_bytes_refl}
use ztierfs.Store.Codec.{PreparedBlock}
use ztierfs.Store.Writes.{is_matching, find_prepared, unique_blocks}
use ztierfs.Store.Writes.Looping.{digests_of}

-- Each block is the one for its digest, as SHA-256 promises.
abbrev pub IsCanonical : (ℕ → PreparedBlock) → PreparedBlock → Type 0
IsCanonical canon b = b ≡ canon b.digest

is_matching_refl : (b : PreparedBlock) → is_matching b b ≡ true
unfolding is_matching
is_matching_refl b = elim (Option-cases b.inline_payload) [
  | inl tier ↦ ground (arith, tier, same_bytes_refl b.payload)
  | inr (p, within) ↦ ground (arith, within, same_bytes_refl b.payload, same_bytes_refl p)
]

-- What the loop that fills `unique` makes of the blocks.
pub record Unique (P : PreparedBlock → Type 0) (blocks unique unique' : List PreparedBlock)
    : Type 0 where
  pub distinct : Distinct (digests_of unique')
  pub all : All P unique'
  pub digests :
      (d : ℕ)
      → contains d (digests_of unique')
        ≡ contains d (digests_of unique) || contains d (digests_of blocks)

find_prepared-contains :
    (d : ℕ) (bs : List PreparedBlock) → is_some (find_prepared d bs) ≡ contains d (digests_of bs)
find_prepared-contains d [] = refl
find_prepared-contains d (b ∷ bs) = ground (arith, find_prepared-contains d bs)

find_prepared-canon :
    (canon : ℕ → PreparedBlock) (d : ℕ) (b : PreparedBlock) (bs : List PreparedBlock)
    → All (IsCanonical canon) bs
    → find_prepared d bs ≡ some b
    → b ≡ canon d
find_prepared-canon canon d b [] c h = cc
find_prepared-canon canon d b (x ∷ bs) c h = elim (Bool-cases (d == x.digest)) [
  | inl here ↦
      let p : d ≡ x.digest = ground arith in
      let q : x ≡ b = ground (arith, here, h) in sym q ∙ c.0 ∙ ap canon (sym p)
  | inr later ↦ find_prepared-canon canon d b bs c.1 (ground (arith, later, h))
]

contains-snoc :
    (d : ℕ) (bs : List PreparedBlock) (b : PreparedBlock)
    → contains d (digests_of (bs ++ b ∷ [])) ≡ contains d (digests_of bs) || d == b.digest
contains-snoc d [] b = ground arith
contains-snoc d (x ∷ bs) b = ground (arith, contains-snoc d bs b)

Distinct-snoc :
    (bs : List PreparedBlock) (b : PreparedBlock)
    → Distinct (digests_of bs)
    → contains b.digest (digests_of bs) ≡ false
    → Distinct (digests_of (bs ++ b ∷ []))
Distinct-snoc [] b u h = (refl, tt)
Distinct-snoc (x ∷ bs) b u h = (
  ground (arith, u.0, h, contains-snoc x.digest bs b),
  Distinct-snoc bs b u.1 (ground (arith, h)),
)

All-snoc :
    (P : PreparedBlock → Type 0) (bs : List PreparedBlock) (b : PreparedBlock)
    → All P bs
    → P b
    → All P (bs ++ b ∷ [])
All-snoc P [] b hs h = (h, tt)
All-snoc P (x ∷ bs) b hs h = (hs.0, All-snoc P bs b hs.1 h)

pub All-weaken :
    (P Q : PreparedBlock → Type 0) (bs : List PreparedBlock)
    → ((b : PreparedBlock) → P b → Q b)
    → All P bs
    → All Q bs
All-weaken P Q [] f hs = tt
All-weaken P Q (b ∷ bs) f hs = (f b hs.0, All-weaken P Q bs f hs.1)

unique_new :
    (b : PreparedBlock) (bs unique : List PreparedBlock)
    → find_prepared b.digest unique ≡ none
    → unique_blocks (b ∷ bs) unique ≡ unique_blocks bs (unique ++ b ∷ [])
unfolding unique_blocks
unique_new b bs unique new = rw (unique_blocks, new) refl

unique_known :
    (b e : PreparedBlock) (bs unique : List PreparedBlock)
    → find_prepared b.digest unique ≡ some e
    → is_matching e b ≡ true
    → unique_blocks (b ∷ bs) unique ≡ unique_blocks bs unique
unfolding unique_blocks
unique_known b e bs unique found matching = rw (unique_blocks, found, matching) refl

known_digest :
    (d : ℕ) (b : PreparedBlock) (bs unique unique' : List PreparedBlock)
    → contains b.digest (digests_of unique) ≡ true
    → contains d (digests_of unique') ≡ contains d (digests_of unique) || contains d (digests_of bs)
    → contains d (digests_of unique')
      ≡ contains d (digests_of unique) || contains d (digests_of (b ∷ bs))
known_digest d b bs unique unique' there h = elim (Bool-cases (d == b.digest)) [
  | inl here ↦ let p : d ≡ b.digest = ground arith in ground (arith, p, there, h)
  | inr other ↦ ground (arith, other, h)
]

pub unique_blocks_lem :
    (canon : ℕ → PreparedBlock) (P : PreparedBlock → Type 0) (bs unique : List PreparedBlock)
    → ((b : PreparedBlock) → P b → IsCanonical canon b)
    → All P bs
    → All P unique
    → Distinct (digests_of unique)
    → (unique' : List PreparedBlock) × (unique_blocks bs unique ≡ ok unique')
      × Unique P bs unique unique'
unfolding unique_blocks
unique_blocks_lem canon P [] unique c hs hu u =
    (unique, refl, record { distinct = u; all = hu; digests = λ d. ground arith })
unique_blocks_lem canon P (b ∷ bs) unique c hs hu u =
    elim (Option-cases (find_prepared b.digest unique)) [
      | inl new ↦
          let absent : contains b.digest (digests_of unique) ≡ false =
            sym (find_prepared-contains b.digest unique) ∙ ap is_some new in
          let (unique', done, r) =
            unique_blocks_lem canon P bs (unique ++ b ∷ []) c hs.1 (All-snoc P unique b hu hs.0)
              (Distinct-snoc unique b u absent) in
          (
            unique',
            unique_new b bs unique new ∙ done,
            record {
              distinct = r.distinct;
              all = r.all;
              digests = λ d. ground (arith, r.digests d, contains-snoc d unique b);
            },
          )
      | inr (e, found) ↦
          let same : e ≡ b =
            find_prepared-canon canon b.digest e unique
              (All-weaken P (IsCanonical canon) unique c hu) found
            ∙ sym (c b hs.0) in
          let matching : is_matching e b ≡ true =
            ap (λ x. is_matching x b) same ∙ is_matching_refl b in
          let there : contains b.digest (digests_of unique) ≡ true =
            sym (find_prepared-contains b.digest unique) ∙ ap is_some found in
          let (unique', done, r) = unique_blocks_lem canon P bs unique c hs.1 hu u in
          (
            unique',
            unique_known b e bs unique found matching ∙ done,
            record {
              distinct = r.distinct;
              all = r.all;
              digests = λ d. known_digest d b bs unique unique' there (r.digests d);
            },
          )
    ]
