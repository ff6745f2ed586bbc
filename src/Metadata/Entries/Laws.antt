-- ===== src/Metadata/Entries/Laws.antt =====
-- metadata/namespace.py: what a change of `dir_entries` does to every entry and to the number of links.
use ztierfs.Common.{
  ℕ, ◌+◌, ◌<◌, ◌≡◌, refl, sym, ap, ◌∙◌, Bool, true, false, ◌&&◌, none, some, List, [], ◌∷◌, ◌==◌,
  if◌then◌else◌, arith, Bool-cases, inl, inr,
}
use ztierfs.Common.Bytes.{same_bytes, same_bytes_eq, same_bytes_refl}
use ztierfs.Metadata.Schema.{Entry, Name}
use ztierfs.Metadata.Entries.{is_at, find_entry, erase_entry, links, has_children, parent_of}

-- Two keys of the table.
abbrev pub same_key : ℕ → Name → ℕ → Name → Bool
same_key p n q m = p == q && same_bytes n m

-- No key is stored twice.
abbrev pub IsKeyed : List Entry → Type 0
IsKeyed [] = Unit
IsKeyed (e ∷ es) = (find_entry e.parent_id e.name es ≡ none) × IsKeyed es

pub find-same_key :
    (p q : ℕ) (n m : Name) (es : List Entry)
    → same_key p n q m ≡ true
    → find_entry q m es ≡ find_entry p n es
find-same_key p q n m es h =
    let id : q ≡ p = ground (arith, h) in
    ap (λ x. find_entry x m es) id
    ∙ ap (λ x. find_entry p x es) (sym (same_bytes_eq n m (ground (arith, h))))

pub same_key_refl : (p : ℕ) (n : Name) → same_key p n p n ≡ true
same_key_refl p n = ground (arith, same_bytes_refl n)

pub find-cons :
    (p q : ℕ) (n m : Name) (i : ℕ) (es : List Entry)
    → find_entry q m (record { parent_id = p; name = n; inode_id = i } ∷ es)
      ≡ (if same_key p n q m then some i else find_entry q m es)
find-cons p q n m i es = refl

same_names : (a n m : Name) → same_bytes a n ≡ true → same_bytes a m ≡ same_bytes n m
same_names a n m h = ap (λ x. same_bytes x m) (same_bytes_eq a n h)

pub find-erase :
    (p q : ℕ) (n m : Name) (es : List Entry)
    → find_entry q m (erase_entry p n es) ≡ (if same_key p n q m then none else find_entry q m es)
find-erase p q n m [] = ground arith
find-erase p q n m (e ∷ es) = elim (Bool-cases (same_bytes e.name n)) [
  | inl same ↦ ground (arith, same, find-erase p q n m es, same_names e.name n m same)
  | inr other ↦ elim (Bool-cases (same_bytes n m)) [
    | inl target ↦ ground (
      arith,
      other,
      target,
      find-erase p q n m es,
      ap (λ x. same_bytes e.name x) (same_bytes_eq n m target),
    )
    | inr else_where ↦ ground (arith, other, else_where, find-erase p q n m es)
  ]
]

erase-absent :
    (p : ℕ) (n : Name) (es : List Entry) → find_entry p n es ≡ none → erase_entry p n es ≡ es
erase-absent p n [] h = refl
erase-absent p n (e ∷ es) h = elim (Bool-cases (is_at p n e)) [
  | inl here ↦ ground (arith, here, h)
  | inr there ↦ rw there (ap (λ l. e ∷ l) (erase-absent p n es (ground (arith, there, h))))
]

pub erase-IsKeyed : (p : ℕ) (n : Name) (es : List Entry) → IsKeyed es → IsKeyed (erase_entry p n es)
erase-IsKeyed p n [] k = tt
erase-IsKeyed p n (e ∷ es) k = elim (Bool-cases (is_at p n e)) [
  | inl here ↦ rw here (erase-IsKeyed p n es k.1)
  | inr there ↦
      rw there (ground (arith, k.0, find-erase p e.parent_id n e.name es), erase-IsKeyed p n es k.1)
]

-- What the links of an inode lose with an entry.
pub links-erase :
    (i p : ℕ) (n : Name) (j : ℕ) (es : List Entry)
    → IsKeyed es
    → find_entry p n es ≡ some j
    → links i (erase_entry p n es) + (if j == i then 1 else 0) ≡ links i es
links-erase i p n j [] k h = cc
links-erase i p n j (e ∷ es) k h = elim (Bool-cases (is_at p n e)) [
  | inl here ↦
      let name : e.name ≡ n = same_bytes_eq e.name n (ground (arith, here)) in
      let gone : find_entry p n es ≡ none =
        ground (arith, here, k.0, ap (λ x. find_entry p x es) name) in
      ground (arith, here, h, erase-absent p n es gone)
  | inr there ↦ ground (arith, there, h, links-erase i p n j es k.1)
]

-- An entry is a link of its inode.
pub links-find :
    (p : ℕ) (n : Name) (i : ℕ) (es : List Entry) → find_entry p n es ≡ some i → 0 < links i es
links-find p n i [] h = cc
links-find p n i (e ∷ es) h = elim (Bool-cases (is_at p n e)) [
  | inl here ↦ ground (arith, here, h)
  | inr there ↦ ground (arith, there, h, links-find p n i es)
]

pub has_children-find :
    (p : ℕ) (n : Name) (i : ℕ) (es : List Entry)
    → find_entry p n es ≡ some i
    → has_children p es ≡ true
has_children-find p n i [] h = cc
has_children-find p n i (e ∷ es) h = elim (Bool-cases (is_at p n e)) [
  | inl here ↦ ground (arith, here)
  | inr there ↦ ground (arith, there, h, has_children-find p n i es)
]

pub parent_of_unlinked : (i : ℕ) (es : List Entry) → links i es ≡ 0 → parent_of i es ≡ none
parent_of_unlinked i [] h = refl
parent_of_unlinked i (e ∷ es) h = ground (arith, h, parent_of_unlinked i es)

-- An inode with one link has one parent.
pub parent_of-find :
    (p : ℕ) (n : Name) (i : ℕ) (es : List Entry)
    → find_entry p n es ≡ some i
    → links i es ≡ 1
    → parent_of i es ≡ some p
parent_of-find p n i [] h one = cc
parent_of-find p n i (e ∷ es) h one = elim (Bool-cases (is_at p n e)) [
  | inl here ↦ ground (arith, here, h)
  | inr there ↦ elim (Bool-cases (e.inode_id == i)) [
    | inl link ↦ absurd (ground (arith, there, h, link, one, links-find p n i es))
    | inr other ↦ ground (arith, there, h, one, other, parent_of-find p n i es)
  ]
]

-- An inode that has a link stands in an entry.
pub linked_entry :
    (i : ℕ) (es : List Entry)
    → IsKeyed es
    → 0 < links i es
    → (p : ℕ) × (n : Name) × (find_entry p n es ≡ some i)
linked_entry i [] k h = absurd (omega (arith, h))
linked_entry i (e ∷ es) k h = elim (Bool-cases (e.inode_id == i)) [
  | inl here ↦ (e.parent_id, e.name, ground (arith, here, same_bytes_refl e.name))
  | inr later ↦
      let (p, n, found) = linked_entry i es k.1 (ground (arith, later, h)) in
      (
        p,
        n,
        elim (Bool-cases (is_at p n e)) [
          | inl hit ↦
              let gone : find_entry p n es ≡ none =
                find-same_key e.parent_id p e.name n es hit ∙ k.0 in
              cc (sym gone ∙ found)
          | inr missed ↦ rw missed found
        ],
      )
]

pub no_more_children :
    (i p : ℕ) (n : Name) (es : List Entry)
    → has_children i es ≡ false
    → has_children i (erase_entry p n es) ≡ false
no_more_children i p n [] h = refl
no_more_children i p n (e ∷ es) h = elim (Bool-cases (is_at p n e)) [
  | inl here ↦ rw here (no_more_children i p n es (ground (arith, h)))
  | inr there ↦ rw there (ground (arith, h, no_more_children i p n es))
]

pub found_child :
    (p : ℕ) (es : List Entry)
    → IsKeyed es
    → has_children p es ≡ true
    → (n : Name) × (i : ℕ) × (find_entry p n es ≡ some i)
found_child p [] k h = cc
found_child p (e ∷ es) k h = elim (Bool-cases (e.parent_id == p)) [
  | inl here ↦ (e.name, e.inode_id, ground (arith, here, same_bytes_refl e.name))
  | inr later ↦
      let (n, i, found) = found_child p es k.1 (ground (arith, later, h)) in
      (n, i, ground (arith, later, found))
]
