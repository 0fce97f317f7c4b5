-- ===== src/Cache/Insert/Written.antt =====
-- cache/insert.go, writePageToDisk: where there is room the page is written, and is what is read.
use bduts.Prelude.{◌≡◌, refl, false, [], ◌∷◌, none, some, arith}
use bduts.Cache.Disk.{
  Bytes, Disk, file, node, place, make_path, mkdir_all, write_file, read_file, until_zero,
}
use bduts.Cache.Disk.Writing.{IsClear, NotDirectory, mkdir_all-Made, create_ready, read_file_lem}
use bduts.Cache.Insert.{write_value}

-- Nothing on the disk is in the way of the file of a key.
pub record HasRoom (key : Bytes) (d : Disk) : Type 0 where
  pub not_full : d.full ≡ false
  pub clear : IsClear (make_path key) d
  pub free : NotDirectory (node (key ∷ make_path key) d)

pub write_value_lem :
    (key value : Bytes) (d : Disk)
    → HasRoom key d
    → ((write_value key value d).1 ≡ none)
      × (read_file (key ∷ make_path key) (write_value key value d).0 ≡ some (until_zero value))
unfolding write_value write_file
write_value_lem key value d room =
    let p = make_path key in
    let made = mkdir_all-Made p d room.not_full room.clear in
    let before : NotDirectory (node (key ∷ p) (mkdir_all p d).0) =
      rw (made.longer (key ∷ p) (omega arith)) room.free in
    let opened = create_ready p key (mkdir_all p d).0 made.there made.room before in
    let emptied = place (key ∷ p) (file []) (mkdir_all p d).0 in
    let done : write_value key value d ≡ (place (key ∷ p) (file value) emptied, none) =
      rw (write_value, made.fine, opened, opened, write_file, made.room) refl in
    rw done (refl, read_file_lem (key ∷ p) value emptied)
