-- ===== src/Cache/Disk.antt =====
-- The calls of package os on the pages' directory. A path is the list of its components below
-- cache.PagesPath, the last one first, and [] is that directory itself.
pub mod Writing
pub mod Removing
use bduts.Prelude.{
  ℕ, zero, suc, ◌/◌, Bool, true, false, ◌&&◌, List, [], ◌∷◌, Option, none, some, take, drop, length,
  leb, ◌==◌, if◌then◌else◌,
}
use bduts.Prelude.Go.{Go, ret, panic, ◌>>=◌}

abbrev pub Bytes : Type 0
Bytes = List ℕ

abbrev pub same_bytes : Bytes → Bytes → Bool
same_bytes [] [] = true
same_bytes [] (y ∷ ys) = false
same_bytes (x ∷ xs) [] = false
same_bytes (x ∷ xs) (y ∷ ys) = x == y && same_bytes xs ys

abbrev pub same_path : List Bytes → List Bytes → Bool
same_path [] [] = true
same_path [] (y ∷ ys) = false
same_path (x ∷ xs) [] = false
same_path (x ∷ xs) (y ∷ ys) = same_bytes x y && same_path xs ys

pub data Node : Type 0 where
  directory : Node
  file : Bytes → Node

pub data DiskError : Type 0 where
  not_exist not_empty not_directory is_directory no_space : DiskError

-- `full` says that the disk takes no more bytes and no new names.
pub record Disk : Type 0 where
  pub entries : List (List Bytes × Node)
  pub full : Bool

abbrev pub lookup : List Bytes → List (List Bytes × Node) → Option Node
lookup p [] = none
lookup p ((q, n) ∷ es) = if same_path q p then some n else lookup p es

abbrev pub erase : List Bytes → List (List Bytes × Node) → List (List Bytes × Node)
erase p [] = []
erase p ((q, n) ∷ es) = if same_path q p then erase p es else (q, n) ∷ erase p es

abbrev pub node : List Bytes → Disk → Option Node
node p d = lookup p d.entries

-- A new entry hides an old one of the same path.
abbrev pub place : List Bytes → Node → Disk → Disk
place p n d = record d { entries = (p, n) ∷ d.entries }

-- Whether a path stands directly below a directory
abbrev pub is_child : List Bytes → List Bytes → Bool
is_child p [] = false
is_child p (x ∷ q) = same_path q p

abbrev pub has_child : List Bytes → List (List Bytes × Node) → Bool
has_child p [] = false
has_child p ((q, n) ∷ es) = if is_child p q then true else has_child p es

mkdir_at : Option Node → List Bytes → Disk → Disk × Option DiskError
mkdir_at (some directory) p d = (d, none)
mkdir_at (some (file _)) p d = (d, some not_directory)
mkdir_at none p d = if d.full then (d, some no_space) else (place p directory d, none)

-- os.MkdirAll
unfoldable pub mkdir_all : List Bytes → Disk → Disk × Option DiskError
unfolding mkdir_at
mkdir_all [] d = mkdir_at (node [] d) [] d
mkdir_all (x ∷ p) d =
    let above = mkdir_all p d in
    elim above.1 [
      | some e ↦ (above.0, some e)
      | none ↦ mkdir_at (node (x ∷ p) above.0) (x ∷ p) above.0
    ]

create_at : Option Node → Option Node → List Bytes → Disk → Disk × Option DiskError
create_at none at p d = (d, some not_exist)
create_at (some (file _)) at p d = (d, some not_directory)
create_at (some directory) (some directory) p d = (d, some is_directory)
create_at (some directory) (some (file _)) p d = (place p (file []) d, none)
create_at (some directory) none p d =
    if d.full then (d, some no_space) else (place p (file []) d, none)

-- os.Create of a file in a directory: it is empty afterwards.
unfoldable pub create : List Bytes → Bytes → Disk → Disk × Option DiskError
unfolding create_at
create p name d = create_at (node p d) (node (name ∷ p) d) (name ∷ p) d

-- Writing and flushing an open, empty file
unfoldable pub write_file : List Bytes → Bytes → Disk → Disk × Option DiskError
write_file p value d = if d.full then (d, some no_space) else (place p (file value) d, none)

-- ReadBytes(0): up to and with the first zero byte
abbrev pub until_zero : Bytes → Bytes
until_zero [] = []
until_zero (zero ∷ bs) = zero ∷ []
until_zero (suc b ∷ bs) = suc b ∷ until_zero bs

-- os.Open and ReadBytes(0), whose error is dropped; a directory opens and cannot be read.
unfoldable pub read_file : List Bytes → Disk → Option Bytes
read_file p d = elim (node p d) [
  | none ↦ none
  | some n ↦ elim n [ directory ↦ some [] | file bs ↦ some (until_zero bs) ]
]

-- os.Remove: a directory must be empty.
unfoldable pub remove : List Bytes → Disk → Disk × Option DiskError
remove p d = elim (node p d) [
  | none ↦ (d, some not_exist)
  | some n ↦ elim n [
    | file bs ↦ (record d { entries = erase p d.entries }, none)
    | directory ↦
        if has_child p d.entries
        then (d, some not_empty)
        else (record d { entries = erase p d.entries }, none)
  ]
]

-- The parts of a hash: `count` parts of `width` bytes, the last one first
abbrev pub parts : ℕ → ℕ → Bytes → List Bytes → List Bytes
parts zero width hash path = path
parts (suc count) width hash path = parts count width (drop width hash) (take width hash ∷ path)

-- makePath(hash, subHashCount)
unfoldable pub make_path : Bytes → List Bytes
make_path hash = parts 4 (length hash / 4) hash []

-- The slices of removePageFromDisk, of sha1.Size * 2 / 4 bytes each: a key that is too short panics.
-- The capacity of a key is its length, as in the callers.
unfoldable pub remove_path : Bytes → Go (List Bytes)
remove_path key = if leb 40 (length key) then ret (parts 4 10 key []) else panic

-- The loop `for path != PagesPath`
unfoldable pub remove_dirs : List Bytes → Disk → Disk × Option DiskError
unfolding remove
remove_dirs [] d = (d, none)
remove_dirs (x ∷ p) d =
    let gone = remove (x ∷ p) d in
    let rest = remove_dirs p gone.0 in elim gone.1 [ some e ↦ (gone.0, some e) | none ↦ rest ]

-- What follows the removal of the file
then_dirs : List Bytes → Disk × Option DiskError → Disk × Option DiskError
unfolding remove_dirs
then_dirs p (d, some e) = (d, some e)
then_dirs p (d, none) = remove_dirs p d

unfoldable pub remove_page_from_disk : Bytes → Disk → Go (Disk × Option DiskError)
unfolding remove_path then_dirs remove
remove_page_from_disk key d = do p ← remove_path key; ret (then_dirs p (remove (key ∷ p) d))
