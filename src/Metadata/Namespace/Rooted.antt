-- ===== src/Metadata/Namespace/Rooted.antt =====
-- metadata/namespace.py: the directories that can be reached from the root, when entries come and go.
use ztierfs.Common.{
  ℕ, zero, suc, ◌≤◌, ◌≡◌, ◌≢◌, sym, ap, ◌∙◌, true, false, none, some, List, ◌∷◌, ◌==◌, arith,
  Bool-cases, inl, inr,
}
use ztierfs.Common.Dict.{Dict, lookup}
use ztierfs.Common.Bytes.{same_bytes_refl}
use ztierfs.Metadata.Schema.{Inode, Entry, Name}
use ztierfs.Metadata.Entries.{find_entry, erase_entry, links, has_children}
use ztierfs.Metadata.Entries.Laws.{
  same_key, find-same_key, find-erase, links-find, has_children-find, parent_of-find,
}
use ztierfs.Metadata.Namespace.{dir_inode, climb}

-- The inode is the root, or an entry of a directory that is reached leads to it.
pub data Rooted (es : List Entry) : ℕ → Type 0 where
  root : {d : ℕ} → d ≡ 1 → Rooted es d
  down : {d : ℕ} (p : ℕ) (n : Name) → find_entry p n es ≡ some d → Rooted es p → Rooted es d

-- What holds of the directories on the way to the root.
pub record IsClimbable (inodes : Dict Inode) (es : List Entry) : Type 0 where
  pub no_zero : lookup 0 inodes ≡ none
  pub root_links : links 1 es ≡ 0
  pub single : (i : ℕ) → dir_inode (lookup i inodes) ≡ true → links i es ≤ 1
  pub parents :
      (p : ℕ) (n : Name) (i : ℕ) → find_entry p n es ≡ some i → dir_inode (lookup p inodes) ≡ true

pub Rooted-same :
    (es es' : List Entry) (d : ℕ)
    → ((p : ℕ) (n : Name) → find_entry p n es' ≡ find_entry p n es)
    → Rooted es d
    → Rooted es' d
Rooted-same es es' d h (root e) = root e
Rooted-same es es' d h (down p n found r) = down p n (h p n ∙ found) (Rooted-same es es' p h r)

pub Rooted-cons :
    (p : ℕ) (n : Name) (i : ℕ) (es : List Entry) (d : ℕ)
    → find_entry p n es ≡ none
    → Rooted es d
    → Rooted (record { parent_id = p; name = n; inode_id = i } ∷ es) d
Rooted-cons p n i es d fresh (root e) = root e
Rooted-cons p n i es d fresh (down q m found r) =
    down {d = d} q m
      (elim (Bool-cases (same_key p n q m)) [
        | inl same ↦
            let k : find_entry q m es ≡ none = find-same_key _ q _ m es same ∙ fresh in
            ground (arith, k, found)
        | inr other ↦ rw other found
      ])
      (Rooted-cons p n i es q fresh r)

-- To take an entry away cuts off nothing but what lies below its inode.
pub Rooted-erase :
    (p : ℕ) (n : Name) (t : ℕ) (es : List Entry) (d : ℕ)
    → find_entry p n es ≡ some t
    → has_children t es ≡ false
    → d ≢ t
    → Rooted es d
    → Rooted (erase_entry p n es) d
Rooted-erase p n t es d at leaf ne (root e) = root e
Rooted-erase p n t es d at leaf ne (down q m found r) = elim (Bool-cases (same_key p n q m)) [
  | inl same ↦
      let k : find_entry q m es ≡ some t = find-same_key _ q _ m es same ∙ at in
      absurd (ne (ground (arith, k, found)))
  | inr other ↦ down q m (find-erase p q n m es ∙ rw other found) (
      Rooted-erase p n t es q at leaf
        (λ e.
          cc (sym leaf ∙ ap (λ x. has_children x es) (sym e) ∙ has_children-find q m d es found))
        r)
]

-- The way from a directory to the root, where an inode is not on it, is there without the entry of
-- that inode.
pub Rooted-climb :
    (inodes : Dict Inode) (fuel p : ℕ) (n : Name) (s : ℕ) (es : List Entry) (d : ℕ)
    → IsClimbable inodes es
    → find_entry p n es ≡ some s
    → dir_inode (lookup d inodes) ≡ true
    → climb fuel d s es ≡ some false
    → Rooted es d
    → Rooted (erase_entry p n es) d
unfolding climb
Rooted-climb inodes zero p n s es d c at dir up r = cc
Rooted-climb inodes (suc fuel) p n s es d c at dir up (root e) = root e
Rooted-climb inodes (suc fuel) p n s es d c at dir up (down q m found r) =
    let one : links d es ≡ 1 = omega (arith, links-find q m d es found, c.single d dir) in
    let parent = parent_of-find q m d es found one in
    let not_zero : d == 0 ≡ false = elim (Bool-cases (d == 0)) [
      | inl is_zero ↦ absurd (ground (arith, is_zero, dir, c.no_zero))
      | inr other ↦ other
    ] in
    let not_s : d == s ≡ false = ground (arith, up, not_zero) in
    let rest : climb fuel q s es ≡ some false = ground (arith, up, not_zero, not_s, parent) in
    elim (Bool-cases (same_key p n q m)) [
      | inl same ↦
          let k : find_entry q m es ≡ some s = find-same_key _ q _ m es same ∙ at in
          absurd (ground (arith, k, found, not_s))
      | inr other ↦
          down q m (find-erase p q n m es ∙ rw other found)
            (Rooted-climb inodes fuel p n s es q c at (c.parents q m d found) rest r)
    ]

-- An inode that is no directory is on no way.
pub Rooted-apart :
    (inodes : Dict Inode) (p : ℕ) (n : Name) (s : ℕ) (es : List Entry) (d : ℕ)
    → IsClimbable inodes es
    → find_entry p n es ≡ some s
    → dir_inode (lookup s inodes) ≡ false
    → dir_inode (lookup d inodes) ≡ true
    → Rooted es d
    → Rooted (erase_entry p n es) d
Rooted-apart inodes p n s es d c at no_dir dir (root e) = root e
Rooted-apart inodes p n s es d c at no_dir dir (down q m found r) =
    elim (Bool-cases (same_key p n q m)) [
      | inl same ↦
          let k : find_entry q m es ≡ some s = find-same_key _ q _ m es same ∙ at in
          let e : d ≡ s = ground (arith, k, found) in
          absurd (cc (sym no_dir ∙ ap (λ x. dir_inode (lookup x inodes)) (sym e) ∙ dir))
      | inr other ↦
          down q m (find-erase p q n m es ∙ rw other found)
            (Rooted-apart inodes p n s es q c at no_dir (c.parents q m d found) r)
    ]

-- An entry that goes to another directory takes along what lies below it.
pub Rooted-move :
    (p q : ℕ) (n m : Name) (s : ℕ) (es : List Entry) (d : ℕ)
    → find_entry p n es ≡ some s
    → find_entry q m (erase_entry p n es) ≡ none
    → Rooted (erase_entry p n es) q
    → Rooted es d
    → Rooted (record { parent_id = q; name = m; inode_id = s } ∷ erase_entry p n es) d
Rooted-move p q n m s es d at fresh q_rooted (root e) = root e
Rooted-move p q n m s es d at fresh q_rooted (down p0 n0 found r) =
    elim (Bool-cases (same_key p n p0 n0)) [
      | inl same ↦
          let k : find_entry p0 n0 es ≡ some s = find-same_key _ p0 _ n0 es same ∙ at in
          let e : s ≡ d = ground (arith, k, found) in
          down {d = d} q m (ground (arith, e, same_bytes_refl m))
            (Rooted-cons q m s (erase_entry p n es) q fresh q_rooted)
      | inr other ↦
          let old : find_entry p0 n0 (erase_entry p n es) ≡ some d =
            find-erase p p0 n n0 es ∙ rw other found in
          down {d = d} p0 n0
            (elim (Bool-cases (same_key q m p0 n0)) [
              | inl hit ↦
                  let k : find_entry p0 n0 (erase_entry p n es) ≡ none =
                    find-same_key _ p0 _ n0 (erase_entry p n es) hit ∙ fresh in
                  ground (arith, k, old)
              | inr missed ↦ rw missed old
            ])
            (Rooted-move p q n m s es p0 at fresh q_rooted r)
    ]
