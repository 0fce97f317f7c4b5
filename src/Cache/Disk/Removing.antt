-- ===== src/Cache/Disk/Removing.antt =====
-- cache/remove.go, removePageFromDisk: when it returns.
use bduts.Prelude.{leb, ◌≤◌, ◌≡◌, refl, length, true, [], ◌∷◌, Option, arith}
use bduts.Prelude.Go.{ret}
use bduts.Cache.Disk.{
  Bytes, Disk, DiskError, then_dirs, parts, remove, remove_path, remove_page_from_disk,
}

-- A key that is long enough does not panic.
pub remove_page_from_disk-returns :
    (key : Bytes) (d : Disk)
    → 40 ≤ length key
    → (r : Disk × Option DiskError) × (remove_page_from_disk key d ≡ ret r)
unfolding remove_page_from_disk remove_path
remove_page_from_disk-returns key d long =
    let fits : leb 40 (length key) ≡ true = ground arith in
    (
      then_dirs (parts 4 10 key []) (remove (key ∷ parts 4 10 key []) d),
      rw (remove_page_from_disk, remove_path, fits) refl,
    )
