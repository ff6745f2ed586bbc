-- ===== src/Metadata/Namespace/Climbing.antt =====
-- metadata/namespace.py: `is_descendant` climbs no more steps than there are entries, and answers
-- whether an inode is on the way to the root.
use mathlib.Core.Path.{subst}
use ztierfs.Common.{
  ℕ, zero, suc, ◌+◌, ◌<◌, ◌≤◌, ◌≡◌, ◌≢◌, ◌↔◌, refl, sym, ap, ◌∙◌, Bool, true, false, not, none,
  some, List, [], ◌∷◌, ◌==◌, map, keep, length, contains, Distinct, arith, Bool-cases, inl, inr,
  ◌⊎◌,
}
use ztierfs.Common.Dict.{Dict, lookup}
use ztierfs.Metadata.Schema.{Inode, Db, Entry, Name}
use ztierfs.Metadata.Entries.{is_at, find_entry, links, parent_of}
use ztierfs.Metadata.Entries.Laws.{links-find, parent_of-find, parent_of_unlinked}
use ztierfs.Metadata.Namespace.{dir_inode, climb, is_descendant}
use ztierfs.Metadata.Namespace.Rooted.{Rooted, root, down, IsClimbable}
use ztierfs.Metadata.Namespace.Tree.{IsTree}

-- The inode lies so many entries below the root.
abbrev IsDeep : List Entry → ℕ → ℕ → Type 0
IsDeep es zero d = d ≡ 1
IsDeep es (suc k) d = (p : ℕ) × (n : Name) × (find_entry p n es ≡ some d) × IsDeep es k p

Rooted-IsDeep : (es : List Entry) (d : ℕ) → Rooted es d → (k : ℕ) × IsDeep es k d
Rooted-IsDeep es d (root e) = (zero, e)
Rooted-IsDeep es d (down p n found r) =
    let (k, h) = Rooted-IsDeep es p r in (suc k, (p, n, found, h))

one_link :
    (inodes : Dict Inode) (es : List Entry) (p : ℕ) (n : Name) (d : ℕ)
    → IsClimbable inodes es
    → dir_inode (lookup d inodes) ≡ true
    → find_entry p n es ≡ some d
    → links d es ≡ 1
one_link inodes es p n d c dir found = omega (arith, links-find p n d es found, c.single d dir)

root_unlinked :
    (inodes : Dict Inode) (es : List Entry) (p : ℕ) (n : Name) (d : ℕ)
    → IsClimbable inodes es
    → find_entry p n es ≡ some d
    → d ≢ 1
root_unlinked inodes es p n d c found e =
    omega (arith, links-find p n d es found, c.root_links, ap (λ x. links x es) e)

depth_unique :
    (inodes : Dict Inode) (es : List Entry) (k j d : ℕ)
    → IsClimbable inodes es
    → dir_inode (lookup d inodes) ≡ true
    → IsDeep es k d
    → IsDeep es j d
    → k ≡ j
depth_unique inodes es zero zero d c dir h g = refl
depth_unique inodes es zero (suc j) d c dir h (p, n, found, g) =
    absurd (root_unlinked inodes es p n d c found h)
depth_unique inodes es (suc k) zero d c dir (p, n, found, h) g =
    absurd (root_unlinked inodes es p n d c found g)
depth_unique inodes es (suc k) (suc j) d c dir (p, n, found, h) (q, m, found', g) =
    let one = one_link inodes es p n d c dir found in
    let same : q ≡ p = cc (parent_of-find p n d es found one, parent_of-find q m d es found' one) in
    ap suc (depth_unique inodes es k j p c (c.parents p n d found) h (subst (IsDeep es j) same g))

-- The inodes on the way up, without the root.
way : (es : List Entry) (k d : ℕ) → IsDeep es k d → List ℕ
way es zero d h = []
way es (suc k) d (p, n, found, h) = d ∷ way es k p h

length-way : (es : List Entry) (k d : ℕ) (h : IsDeep es k d) → length (way es k d h) ≡ k
unfolding way
length-way es zero d h = refl
length-way es (suc k) d (p, n, found, h) = ap suc (length-way es k p h)

on_way :
    (es : List Entry) (k d x : ℕ) (h : IsDeep es k d)
    → contains x (way es k d h) ≡ true
    → (j : ℕ) × (j ≤ k) × IsDeep es j x
unfolding way
on_way es zero d x h m = cc
on_way es (suc k) d x (p, n, found, h) m = elim (Bool-cases (x == d)) [
  | inl here ↦
      let e : x ≡ d = ground (arith, here) in
      (suc k, omega arith, subst (IsDeep es (suc k)) (sym e) (p, n, found, h))
  | inr above ↦
      let (j, le, g) = on_way es k p x h (ground (arith, above, m)) in (j, omega (arith, le), g)
]

way-Distinct :
    (inodes : Dict Inode) (es : List Entry) (k d : ℕ) (h : IsDeep es k d)
    → IsClimbable inodes es
    → dir_inode (lookup d inodes) ≡ true
    → Distinct (way es k d h)
unfolding way
way-Distinct inodes es zero d h c dir = tt
way-Distinct inodes es (suc k) d (p, n, found, h) c dir = (
  elim (Bool-cases (contains d (way es k p h))) [
    | inl again ↦
        let (j, le, g) = on_way es k p d h again in
        absurd (omega (arith, le, depth_unique inodes es j (suc k) d c dir g (p, n, found, h)))
    | inr new ↦ new
  ],
  way-Distinct inodes es k p h c (c.parents p n d found),
)

linked_inodes :
    (p : ℕ) (n : Name) (d : ℕ) (es : List Entry)
    → find_entry p n es ≡ some d
    → contains d (map (λ e. e.inode_id) es) ≡ true
linked_inodes p n d [] h = cc
linked_inodes p n d (e ∷ es) h = elim (Bool-cases (is_at p n e)) [
  | inl here ↦ ground (arith, here, h)
  | inr there ↦ ground (arith, there, h, linked_inodes p n d es)
]

way_linked :
    (es : List Entry) (k d x : ℕ) (h : IsDeep es k d)
    → contains x (way es k d h) ≡ true
    → contains x (map (λ e. e.inode_id) es) ≡ true
unfolding way
way_linked es zero d x h m = cc
way_linked es (suc k) d x (p, n, found, h) m = elim (Bool-cases (x == d)) [
  | inl here ↦
      let e : d ≡ x = ground (arith, here) in
      subst (λ y. contains y (map (λ e. e.inode_id) es) ≡ true) e (linked_inodes p n d es found)
  | inr above ↦ way_linked es k p x h (ground (arith, above, m))
]

abbrev others : ℕ → List ℕ → List ℕ
others x = keep (λ y. not (y == x))

length-others-le : (x : ℕ) (l : List ℕ) → length (others x l) ≤ length l
length-others-le x [] = omega arith
length-others-le x (y ∷ l) = ground (arith, length-others-le x l)

length-others : (x : ℕ) (l : List ℕ) → contains x l ≡ true → length (others x l) < length l
length-others x [] h = cc
length-others x (y ∷ l) h = ground (arith, h, length-others x l, length-others-le x l)

contains-others :
    (y x : ℕ) (l : List ℕ) → (y == x) ≡ false → contains y l ≡ true → contains y (others x l) ≡ true
contains-others y x [] ne h = h
contains-others y x (z ∷ l) ne h = ground (arith, ne, h, contains-others y x l)

-- A list without repetition is no longer than one that has all its members.
length-Distinct :
    (l m : List ℕ)
    → Distinct l
    → ((x : ℕ) → contains x l ≡ true → contains x m ≡ true)
    → length l ≤ length m
length-Distinct [] m u h = omega arith
length-Distinct (x ∷ l) m u h =
    let there : contains x m ≡ true = h x (ground arith) in
    let rest = length-Distinct l (others x m) u.1 (λ y k. elim (Bool-cases (y == x)) [
      | inl same ↦
          let e : y ≡ x = ground (arith, same) in cc (sym u.0 ∙ ap (λ z. contains z l) (sym e) ∙ k)
      | inr other ↦ contains-others y x m other (h y (ground (arith, k)))
    ]) in
    omega (arith, rest, length-others x m there)

length-inodes : (es : List Entry) → length (map (λ e. e.inode_id) es) ≡ length es
length-inodes [] = refl
length-inodes (e ∷ es) = ap suc (length-inodes es)

depth-le-length :
    (inodes : Dict Inode) (es : List Entry) (k d : ℕ)
    → IsClimbable inodes es
    → dir_inode (lookup d inodes) ≡ true
    → IsDeep es k d
    → k ≤ length es
depth-le-length inodes es k d c dir h = omega (
  arith,
  length-way es k d h,
  length-Distinct (way es k d h) (map (λ e. e.inode_id) es) (way-Distinct inodes es k d h c dir)
      (λ x m. way_linked es k d x h m),
  length-inodes es,
)

-- The inode is the other one, or lies somewhere below it.
pub data Within (es : List Entry) (top : ℕ) : ℕ → Type 0 where
  here : {d : ℕ} → d ≡ top → Within es top d
  below :
      {d : ℕ} (p : ℕ) (n : Name) → find_entry p n es ≡ some d → Within es top p → Within es top d

not_zero :
    (inodes : Dict Inode) (es : List Entry) (d : ℕ)
    → IsClimbable inodes es
    → dir_inode (lookup d inodes) ≡ true
    → (d == 0) ≡ false
not_zero inodes es d c dir = elim (Bool-cases (d == 0)) [
  | inl is_zero ↦ absurd (ground (arith, is_zero, dir, c.no_zero))
  | inr other ↦ other
]

climb-Within :
    (inodes : Dict Inode) (fuel d s : ℕ) (es : List Entry)
    → IsClimbable inodes es
    → dir_inode (lookup d inodes) ≡ true
    → climb fuel d s es ≡ some false
    → Within es s d
    → ⊥
unfolding climb
climb-Within inodes zero d s es c dir up w = cc
climb-Within inodes (suc fuel) d s es c dir up (here e) =
    let positive = not_zero inodes es d c dir in ground (arith, up, positive, e)
climb-Within inodes (suc fuel) d s es c dir up (below p n found w) =
    let positive = not_zero inodes es d c dir in
    let parent = parent_of-find p n d es found (one_link inodes es p n d c dir found) in
    climb-Within inodes fuel p s es c (c.parents p n d found) (ground (arith, up, positive, parent))
      w

-- With a round for each entry on the way the loop ends.
climb_ends :
    (inodes : Dict Inode) (fuel k d s : ℕ) (es : List Entry)
    → IsClimbable inodes es
    → dir_inode (lookup d inodes) ≡ true
    → IsDeep es k d
    → k < fuel
    → (climb fuel d s es ≡ some false) ⊎ ((climb fuel d s es ≡ some true) × Within es s d)
unfolding climb
climb_ends inodes zero k d s es c dir h enough = absurd (omega (arith, enough))
climb_ends inodes (suc fuel) zero d s es c dir h enough =
    let positive = not_zero inodes es d c dir in
    let top : parent_of d es ≡ none =
      parent_of_unlinked d es (ap (λ x. links x es) h ∙ c.root_links) in
    elim (Bool-cases (d == s)) [
      | inl met ↦ inr (ground (arith, positive, met), here (ground (arith, met)))
      | inr other ↦ inl (ground (arith, positive, other, top))
    ]
climb_ends inodes (suc fuel) (suc k) d s es c dir (p, n, found, h) enough =
    let positive = not_zero inodes es d c dir in
    let parent = parent_of-find p n d es found (one_link inodes es p n d c dir found) in
    elim (Bool-cases (d == s)) [
      | inl met ↦ inr (ground (arith, positive, met), here (ground (arith, met)))
      | inr other ↦
          elim (climb_ends inodes fuel k p s es c (c.parents p n d found) h
            (omega (arith, enough))) [
              | inl apart ↦ inl (ground (arith, positive, other, parent, apart))
              | inr (met, w) ↦ inr (ground (arith, positive, other, parent, met), below p n found w)
            ]
    ]

-- In a tree, for a directory `parent_id` that is reached from the root, the loop of `is_descendant` ends,
-- and its answer is yes exactly if `parent_id` is the inode `node_id` or lies below it.
pub is_descendant_lem :
    (d s : ℕ) (db : Db)
    → IsTree db
    → dir_inode (lookup d db.inodes) ≡ true
    → Rooted db.dir_entries d
    → (answer : Bool) × (is_descendant d s db ≡ some answer)
      × ((answer ≡ true) ↔ Within db.dir_entries s d)
unfolding is_descendant
is_descendant_lem d s db t dir r =
    let es = db.dir_entries in
    let (k, h) = Rooted-IsDeep es d r in
    let few = depth-le-length db.inodes es k d t.climbable dir h in
    elim (climb_ends db.inodes (length es + 1) k d s es t.climbable dir h (omega (arith, few))) [
      | inl apart ↦ (
        false,
        apart,
        (
          λ e. cc,
          λ w. absurd (climb-Within db.inodes (length es + 1) d s es t.climbable dir apart w),
        ),
      )
      | inr (met, w) ↦ (true, met, (λ e. w, λ _. refl))
    ]
