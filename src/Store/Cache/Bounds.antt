-- ===== src/Store/Cache/Bounds.antt =====
-- block_store.py: the cache never holds more bytes than it may, knows how many it holds, and returns
-- what was put last.
use ztierfs.Common.{
  ℕ, ◌+◌, ◌-◌, ◌≤◌, ◌≡◌, refl, sym, ◌∙◌, ap, is_some, ◌⊎◌, true, false, none, some, [], ◌∷◌, ◌++◌,
  leb, ltb, ◌==◌, if◌then◌else◌, length, total, total-append, arith, Bool-cases, Option-cases, inl,
  inr, ◌&&◌, ◌||◌,
}
use mathlib.Core.Path.{subst}
use ztierfs.Common.Dict.{
  Dict, lookup, erase, contains_key, IsUnique, erase-IsUnique, erase_absent, lookup-erase,
  total-erase, contains_key-lookup,
}
use ztierfs.Common.Bytes.{Bytes}
use ztierfs.Store.Cache.{Cache, cache_get, cache_put, evict, size_without}

-- The bytes of all entries.
abbrev pub held : Dict Bytes → ℕ
held = total (λ e. length e.1)

pub record IsValid (limit : ℕ) (c : Cache) : Type 0 where
  pub unique : IsUnique c.entries
  pub counted : c.size ≡ held c.entries
  pub bounded : c.size ≤ limit

contains_key-append :
    (k : ℕ) (m n : Dict Bytes) → contains_key k (m ++ n) ≡ contains_key k m || contains_key k n
contains_key-append k [] n = refl
contains_key-append k (e ∷ m) n = ground (arith, contains_key-append k m n)

append-IsUnique :
    (k : ℕ) (d : Bytes) (m : Dict Bytes)
    → IsUnique m
    → contains_key k m ≡ false
    → IsUnique (m ++ (k, d) ∷ [])
append-IsUnique k d [] u h = (refl, tt)
append-IsUnique k d ((j, e) ∷ m) u h = (
  ground (arith, u.0, contains_key-append j m ((k, d) ∷ [])),
  append-IsUnique k d m u.1 (ground arith),
)

lookup-append :
    (k : ℕ) (m n : Dict Bytes)
    → lookup k (m ++ n) ≡ (elim (lookup k m) [ none ↦ lookup k n | some d ↦ some d ])
lookup-append k [] n = refl
lookup-append k ((j, e) ∷ m) n = ground (arith, lookup-append k m n)

-- What `evict` leaves.
evict_lem :
    (limit : ℕ) (m : Dict Bytes) (size : ℕ)
    → IsUnique m
    → size ≡ held m
    → IsValid limit (evict limit m size)
unfolding evict
evict_lem limit [] size u h = record { unique = tt; counted = h; bounded = omega (arith, h) }
evict_lem limit ((k, d) ∷ m) size u h = elim (Bool-cases (ltb limit size)) [
  | inl over ↦ rw over (evict_lem limit m (size - length d) u.1 (omega (arith, h)))
  | inr fits ↦ rw fits (record { unique = u; counted = h; bounded = ground arith })
]

-- The entry at the end is not evicted if it fits by itself.
evict_keeps :
    (limit k : ℕ) (d : Bytes) (m : Dict Bytes) (size : ℕ)
    → contains_key k m ≡ false
    → size ≡ held (m ++ (k, d) ∷ [])
    → length d ≤ limit
    → lookup k (evict limit (m ++ (k, d) ∷ []) size).entries ≡ some d
unfolding evict
evict_keeps limit k d [] size a h l = ground arith
evict_keeps limit k d ((j, e) ∷ m) size a h l = elim (Bool-cases (ltb limit size)) [
  | inl over ↦
      rw over (evict_keeps limit k d m (size - length e) (ground arith) (omega (arith, h)) l)
  | inr fits ↦ rw fits (ground (arith, a, lookup-append k m ((k, d) ∷ []), contains_key-lookup k m))
]

erased_absent : (k : ℕ) (m : Dict Bytes) → contains_key k (erase k m) ≡ false
erased_absent k m = ground (arith, contains_key-lookup k (erase k m), lookup-erase k k m)

-- The size without the old entry is that of the entries without it.
size_without_lem :
    (k : ℕ) (c : Cache)
    → IsUnique c.entries
    → c.size ≡ held c.entries
    → size_without k c ≡ held (erase k c.entries)
size_without_lem k c u h = elim (Option-cases (lookup k c.entries)) [
  | inl absent ↦
      rw (absent, size_without)
        (h
          ∙ ap held (
              sym (erase_absent k c.entries (contains_key-lookup k c.entries ∙ ap is_some absent))))
  | inr (d, found) ↦
      rw (found, size_without)
        (omega (arith, h, total-erase (λ e. length e.1) k d c.entries u found))
]

size_with :
    (k : ℕ) (d : Bytes) (c : Cache)
    → IsUnique c.entries
    → c.size ≡ held c.entries
    → size_without k c + length d ≡ held (erase k c.entries ++ (k, d) ∷ [])
size_with k d c u h = omega (
  arith,
  size_without_lem k c u h,
  total-append (λ e. length e.1) (erase k c.entries) ((k, d) ∷ []),
)

-- What is left after `evict` was there before.
evict_old :
    (limit : ℕ) (m : Dict Bytes) (size j : ℕ) (e : Bytes)
    → IsUnique m
    → lookup j (evict limit m size).entries ≡ some e
    → lookup j m ≡ some e
unfolding evict
evict_old limit [] size j e u h = h
evict_old limit ((k, d) ∷ m) size j e u h = elim (Bool-cases (ltb limit size)) [
  | inl over ↦
      let inner : lookup j m ≡ some e = evict_old limit m (size - length d) j e u.1 (
        subst
          (λ b.
            lookup j
              (if b
                then evict limit m (size - length d)
                else record { entries = (k, d) ∷ m; size = size }).entries
            ≡ some e)
          over h) in
      ground (arith, u.0, inner, contains_key-lookup k m, contains_key-lookup j m)
  | inr fits ↦
      subst
        (λ b.
          lookup j
            (if b
              then evict limit m (size - length d)
              else record { entries = (k, d) ∷ m; size = size }).entries
          ≡ some e)
        fits h
]

old_or_new :
    (j k : ℕ) (d e : Bytes) (m : Dict Bytes)
    → lookup j (erase k m ++ (k, d) ∷ []) ≡ some e
    → (lookup j m ≡ some e) ⊎ ((j ≡ k) × (e ≡ d))
old_or_new j k d e m h = elim (Bool-cases (j == k)) [
  | inl here ↦
      let erased : lookup j (erase k m) ≡ none = lookup-erase j k m ∙ rw here refl in
      let last : some d ≡ some e =
        ground (arith, here, erased, h, lookup-append j (erase k m) ((k, d) ∷ [])) in
      inr (ground arith, ground (arith, last))
  | inr there ↦
      let kept : lookup j (erase k m) ≡ lookup j m = lookup-erase j k m ∙ rw there refl in
      inl (ground (arith, there, kept, h, lookup-append j (erase k m) ((k, d) ∷ [])))
]

-- `_cache_put` keeps the bound, the count of bytes and the keys apart. What is put is
-- found afterwards if it is no longer than the bound, and what else is there was there before.
pub cache_put-IsValid :
    (limit k : ℕ) (d : Bytes) (c : Cache)
    → IsValid limit c
    → IsValid limit (cache_put limit k d c)
      × ((cache_get limit k (cache_put limit k d c)).0
          ≡ (if leb (length d) limit && ltb 0 limit then some d else (cache_get limit k c).0))
      × ((j : ℕ) (e : Bytes)
          → lookup j (cache_put limit k d c).entries ≡ some e
          → (lookup j c.entries ≡ some e) ⊎ ((j ≡ k) × (e ≡ d)))
unfolding cache_put cache_get
cache_put-IsValid limit k d c v = elim (Bool-cases (limit == 0 || ltb limit (length d))) [
  | inl off ↦
      let out : leb (length d) limit && ltb 0 limit ≡ false = ground (arith, off) in
      let same : c ≡ cache_put limit k d c = rw off refl in
      subst
        (λ x.
          IsValid limit x
          × ((cache_get limit k x).0
              ≡ (if leb (length d) limit && ltb 0 limit then some d else (cache_get limit k c).0))
          × ((j : ℕ) (e : Bytes)
              → lookup j x.entries ≡ some e
              → (lookup j c.entries ≡ some e) ⊎ ((j ≡ k) × (e ≡ d))))
        same (v, rw out refl, λ j e h. inl h)
  | inr on ↦
      let m = erase k c.entries in
      rw on (
        evict_lem limit (m ++ (k, d) ∷ []) (size_without k c + length d)
            (append-IsUnique k d m (erase-IsUnique k c.entries v.unique)
              (erased_absent k c.entries))
            (size_with k d c v.unique v.counted),
        let big : limit == 0 ≡ false = ground (arith, on) in
            let fits : leb (length d) limit && ltb 0 limit ≡ true = ground (arith, on) in
            let kept =
              evict_keeps limit k d m (size_without k c + length d) (erased_absent k c.entries)
                (size_with k d c v.unique v.counted) (ground (arith, on)) in
            rw (big, fits, kept) refl,
        λ j e h. old_or_new j k d e c.entries (
            evict_old limit (m ++ (k, d) ∷ []) (size_without k c + length d) j e
              (append-IsUnique k d m (erase-IsUnique k c.entries v.unique)
                (erased_absent k c.entries))
              h),
      )
]

moved :
    (j k : ℕ) (d : Bytes) (m : Dict Bytes)
    → lookup k m ≡ some d
    → lookup j (erase k m ++ (k, d) ∷ []) ≡ lookup j m
moved j k d m found = elim (Bool-cases (j == k)) [
  | inl here ↦
      let p : j ≡ k = ground arith in
      ground (arith, p, found, lookup-erase k k m, lookup-append k (erase k m) ((k, d) ∷ []))
  | inr there ↦ ground (arith, there, lookup-erase j k m, lookup-append j (erase k m) ((k, d) ∷ []))
]

-- `_cache_get` returns the entry of the digest if there is one, and nothing while the cache is off. It
-- keeps the bound, the count of bytes and the keys apart, and what is stored. An entry that was found
-- is then the one used last, before which the others stand in their order, and without one nothing
-- changes.
pub cache_get-IsValid :
    (limit k : ℕ) (c : Cache)
    → IsValid limit c
    → IsValid limit (cache_get limit k c).1
      × ((j : ℕ) → lookup j (cache_get limit k c).1.entries ≡ lookup j c.entries)
      × ((cache_get limit k c).0 ≡ (if limit == 0 then none else lookup k c.entries))
      × ((d : Bytes)
          → (cache_get limit k c).0 ≡ some d
          → (cache_get limit k c).1.entries ≡ erase k c.entries ++ (k, d) ∷ [])
      × ((cache_get limit k c).0 ≡ none → (cache_get limit k c).1 ≡ c)
unfolding cache_get
cache_get-IsValid limit k c v = elim (Bool-cases (limit == 0)) [
  | inl off ↦ rw off (v, λ j. refl, refl, λ d h. cc, λ h. refl)
  | inr on ↦ elim (Option-cases (lookup k c.entries)) [
    | inl absent ↦ rw (on, absent) (v, λ j. refl, refl, λ d h. cc, λ h. refl)
    | inr (d, found) ↦
        let m = erase k c.entries in
        rw (on, found)
          (
            record {
              unique =
                  append-IsUnique k d m (erase-IsUnique k c.entries v.unique)
                    (erased_absent k c.entries);
              counted = omega (
                arith,
                v.counted,
                total-append (λ e. length e.1) m ((k, d) ∷ []),
                total-erase (λ e. length e.1) k d c.entries v.unique found,
              );
              bounded = v.bounded;
            },
            λ j. moved j k d c.entries found,
            refl,
            λ e h. let p : d ≡ e = ground (arith, h) in ap (λ x. m ++ (k, x) ∷ []) p,
            λ h. cc,
          )
  ]
]
