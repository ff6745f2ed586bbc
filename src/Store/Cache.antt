-- ===== src/Store/Cache.antt =====
-- block_store.py: the cache of decoded blocks, an OrderedDict whose first entry was used least
-- recently.
pub mod Bounds
use ztierfs.Common.{
  ℕ, ◌+◌, ◌-◌, Bool, true, false, ◌||◌, Option, none, some, List, [], ◌∷◌, ◌++◌, ltb, ◌==◌,
  if◌then◌else◌, length,
}
use ztierfs.Common.Dict.{Dict, lookup, erase}
use ztierfs.Common.Bytes.{Bytes}

-- `_read_cache` and `_read_cache_size`
pub record Cache : Type 0 where
  pub entries : Dict Bytes
  pub size : ℕ

-- `_cache_get`; `limit` is `read_cache_bytes`.
unfoldable pub cache_get : ℕ → ℕ → Cache → Option Bytes × Cache
cache_get limit digest c = if limit == 0 then (none, c) else elim (lookup digest c.entries) [
  | none ↦ (none, c)
  | some d ↦ (some d, record c { entries = erase digest c.entries ++ (digest, d) ∷ [] })
]

-- `while self._read_cache_size > self.read_cache_bytes and self._read_cache: popitem(last=False)`
unfoldable pub evict : ℕ → Dict Bytes → ℕ → Cache
evict limit [] size = record { entries = []; size = size }
evict limit ((k, d) ∷ entries) size =
    let rest = evict limit entries (size - length d) in
    if ltb limit size then rest else record { entries = (k, d) ∷ entries; size = size }

-- `self._read_cache_size` without the previous entry of the digest.
abbrev pub size_without : ℕ → Cache → ℕ
size_without digest c = elim (lookup digest c.entries) [
  | none ↦ c.size
  | some previous ↦ c.size - length previous
]

unfoldable pub cache_put : ℕ → ℕ → Bytes → Cache → Cache
cache_put limit digest d c =
    if limit == 0 || ltb limit (length d)
    then c
    else evict limit (erase digest c.entries ++ (digest, d) ∷ []) (size_without digest c + length d)
