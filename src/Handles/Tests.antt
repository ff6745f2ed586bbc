-- ===== src/Handles/Tests.antt =====
-- handles.py on a concrete table.

use ztierfs.Common.{ℕ, ◌≡◌, ◌↔◌, refl, true, false, none, some, if◌then◌else◌, ◌==◌}
use ztierfs.Common.Dict.{lookup}
use ztierfs.Handles.{
  int, Kind, Snapshot, HandleTable, init, new, release, release_int, snapshot, invalidate_file,
  file_id, lock_owner, has_open_file,
}
use ztierfs.Handles.Counts.{
  IsValid, init-IsValid, new-IsValid, release-IsValid, has_open_file_iff, new_binds,
  snapshot-invalidate_file,
}

abbrev seen : Snapshot
seen = record { id = 5; kind = Kind.file; mode = 420; uid = 501; gid = 20 }

-- File 5 is opened twice, by owner 77 and by none.
abbrev once : HandleTable
once = (new 5 (some 77) (some seen) init).1

abbrev twice : HandleTable
twice = (new 5 none none once).1

twice-IsValid : IsValid twice
twice-IsValid = new-IsValid 5 none none once (new-IsValid 5 (some 77) (some seen) init init-IsValid)

-- The file is open until both handles are released.
closed_last :
    ((release (int 1) twice).0 ≡ some (5, 77))
    × (has_open_file 5 (release (int 1) twice).1 ≡ true)
    × (has_open_file 5 (release (int 2) (release (int 1) twice).1).1 ≡ false)
    × ((release (int 9) twice).0 ≡ none)
unfolding new release release_int has_open_file
closed_last = (refl, refl, refl, refl)

new-IsValid_example : IsValid twice
new-IsValid_example =
    new-IsValid 5 none none once (new-IsValid 5 (some 77) (some seen) init init-IsValid)

release-IsValid_example : IsValid (release (int 1) twice).1
release-IsValid_example = release-IsValid (int 1) twice twice-IsValid

has_open_file_iff_example :
    (has_open_file 5 twice ≡ true) ↔ ((fh : ℕ) × (file_id (int fh) twice ≡ some 5))
has_open_file_iff_example = has_open_file_iff 5 twice twice-IsValid

new_binds_example :
    let (fh', t') = new 6 none (some seen) twice in
    (file_id (int fh') t' ≡ some 6)
    × (snapshot (int fh') t' ≡ some seen)
    × (lock_owner (int fh') t' ≡ some fh')
    × (file_id (int fh') twice ≡ none)
    × (file_id (int 1) t' ≡ (if 1 == fh' then some 6 else file_id (int 1) twice))
new_binds_example = new_binds 6 none (some seen) twice 1 twice-IsValid

snapshot-invalidate_file_example :
    snapshot (int 1) (invalidate_file 5 twice) ≡ (elim (lookup 1 twice.handles) [
      | none ↦ snapshot (int 1) twice
      | some g ↦ if g == 5 then none else snapshot (int 1) twice
    ])
snapshot-invalidate_file_example = snapshot-invalidate_file 5 1 twice twice-IsValid
