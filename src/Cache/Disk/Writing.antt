-- ===== src/Cache/Disk/Writing.antt =====
-- The calls of package os as the cache uses them: when directories can be made, and that a file that
-- was written is read.
use bduts.Prelude.{
  ◌<◌, length, ◌∙◌, ◌≡◌, refl, inl, inr, true, false, List, [], ◌∷◌, Option, none, some, arith,
  Bool-cases,
}
use bduts.Cache.Disk.{
  mkdir_at, create_at, Bytes, Disk, DiskError, Node, directory, file, same_bytes, same_path, node,
  place, mkdir_all, create, read_file, until_zero,
}

pub same_bytes_refl : (bs : Bytes) → same_bytes bs bs ≡ true
same_bytes_refl [] = refl
same_bytes_refl (b ∷ bs) = ground (arith, same_bytes_refl bs)

pub same_path_refl : (p : List Bytes) → same_path p p ≡ true
same_path_refl [] = refl
same_path_refl (x ∷ p) = ground (arith, same_bytes_refl x, same_path_refl p)

pub node-place : (p : List Bytes) (n : Node) (d : Disk) → node p (place p n d) ≡ some n
node-place p n d = rw (same_path_refl p) refl

abbrev pub NotFile : Option Node → Type 0
NotFile none = Unit
NotFile (some directory) = Unit
NotFile (some (file bs)) = ⊥

-- No file stands where a directory of the path is wanted.
abbrev pub IsClear : List Bytes → Disk → Type 0
IsClear [] d = NotFile (node [] d)
IsClear (x ∷ p) d = NotFile (node (x ∷ p) d) × IsClear p d

pub same_path-length : (p q : List Bytes) → same_path p q ≡ true → length p ≡ length q
same_path-length [] [] e = refl
same_path-length [] (y ∷ q) e = ground arith
same_path-length (x ∷ p) [] e = ground arith
same_path-length (x ∷ p) (y ∷ q) e = ground (arith, same_path-length p q)

place-NotFile :
    (p q : List Bytes) (d : Disk) → NotFile (node q d) → NotFile (node q (place p directory d))
place-NotFile p q d clear = elim (Bool-cases (same_path p q)) [
  | inl same ↦ rw same tt
  | inr other ↦ rw other clear
]

place_longer :
    (p q : List Bytes) (n : Node) (d : Disk) → length p < length q → node q (place p n d) ≡ node q d
place_longer p q n d longer = elim (Bool-cases (same_path p q)) [
  | inl same ↦ let e = same_path-length p q same in absurd (omega arith)
  | inr other ↦ rw other refl
]

-- What the calls that make the directories of a path give.
pub record Made (p : List Bytes) (d : Disk) (made : Disk × Option DiskError) : Type 0 where
  pub fine : made.1 ≡ none
  pub there : node p made.0 ≡ some directory
  pub room : made.0.full ≡ false
  pub longer : (q : List Bytes) → length p < length q → node q made.0 ≡ node q d
  pub clear : (q : List Bytes) → NotFile (node q d) → NotFile (node q made.0)

mkdir_at-Made :
    (o : Option Node) (p : List Bytes) (d : Disk)
    → node p d ≡ o
    → NotFile o
    → d.full ≡ false
    → Made p d (mkdir_at o p d)
unfolding mkdir_at
mkdir_at-Made (some directory) p d there clear room = record {
  fine = refl;
  there = there;
  room = room;
  longer = λ q l. refl;
  clear = λ q c. c;
}
mkdir_at-Made (some (file bs)) p d there clear room = elim clear [ ]
mkdir_at-Made none p d there clear room = rw room (record {
  fine = refl;
  there = node-place p directory d;
  room = refl;
  longer = λ q l. place_longer p q directory d l;
  clear = λ q c. place-NotFile p q d c;
})

pub mkdir_all-Made :
    (p : List Bytes) (d : Disk) → d.full ≡ false → IsClear p d → Made p d (mkdir_all p d)
unfolding mkdir_all
mkdir_all-Made [] d room clear = mkdir_at-Made (node [] d) [] d refl clear room
mkdir_all-Made (x ∷ p) d room (here, above) =
    let ih = mkdir_all-Made p d room above in
    let last =
      mkdir_at-Made (node (x ∷ p) (mkdir_all p d).0) (x ∷ p) (mkdir_all p d).0 refl
        (ih.clear (x ∷ p) here) ih.room in
    rw ih.fine (record {
      fine = last.fine;
      there = last.there;
      room = last.room;
      longer = λ q l. last.longer q l ∙ ih.longer q (omega arith);
      clear = λ q c. last.clear q (ih.clear q c);
    })

abbrev pub NotDirectory : Option Node → Type 0
NotDirectory none = Unit
NotDirectory (some directory) = ⊥
NotDirectory (some (file bs)) = Unit

create_at_ready :
    (o : Option Node) (p : List Bytes) (d : Disk)
    → NotDirectory o
    → d.full ≡ false
    → create_at (some directory) o p d ≡ (place p (file []) d, none)
unfolding create_at
create_at_ready none p d free room = rw room refl
create_at_ready (some directory) p d free room = elim free [ ]
create_at_ready (some (file bs)) p d free room = refl

pub create_ready :
    (p : List Bytes) (name : Bytes) (d : Disk)
    → node p d ≡ some directory
    → d.full ≡ false
    → NotDirectory (node (name ∷ p) d)
    → create p name d ≡ (place (name ∷ p) (file []) d, none)
unfolding create
create_ready p name d there room free =
    rw (create, there) (create_at_ready (node (name ∷ p) d) (name ∷ p) d free room)

pub read_file_lem :
    (p : List Bytes) (bs : Bytes) (d : Disk)
    → read_file p (place p (file bs) d) ≡ some (until_zero bs)
unfolding read_file
read_file_lem p bs d = rw (read_file, node-place p (file bs) d) refl
