-- ===== src/Users/Directory.antt =====
-- What db/db.go promises, as specification: a directory with one entry for each name.
use std.Path.{fun_ext}
use bduts.Prelude.{
  ◌≡◌, ◌≢◌, refl, ap, sym, subst, inl, inr, Bool, Bool-cases, true, false, [], ◌∷◌, Option, none,
  some, arith, ==_iff, if◌then◌else◌,
}
use bduts.Cache.Disk.{Bytes, same_bytes}
use bduts.Cache.Disk.Writing.{same_bytes_refl}
use bduts.Cache.Bolt.{Bolt, Bucket}
use bduts.Users.{get_text}

pub record Entry : Type 0 where
  pub salt : Bytes
  pub hash : Bytes
  pub email : Bytes

abbrev pub Directory : Type 0
Directory = Bytes → Option Entry

abbrev pub set : Bytes → Option Entry → Directory → Directory
set key e d name = if same_bytes key name then e else d name

-- The calls that change the database
pub data Operation : Type 0 where
  inserts : Bytes → Bytes → Bytes → Bytes → Operation
  changes : Bytes → Bytes → Bytes → Operation
  removes : Bytes → Operation

abbrev pub name_of : Operation → Bytes
name_of (inserts name salt hash email) = name
name_of (changes name salt hash) = name
name_of (removes name) = name

-- The directory afterwards, and whether the operation succeeds: only a new name is inserted, and only
-- an old one is changed or removed.
abbrev pub decided : Operation → Directory → Option Entry → Directory × Bool
decided (inserts name salt hash email) d none =
    (set name (some (record { salt = salt; hash = hash; email = email })) d, true)
decided (inserts name salt hash email) d (some e) = (d, false)
decided (changes name salt hash) d none = (d, false)
decided (changes name salt hash) d (some e) =
    (set name (some (record e { salt = salt; hash = hash })) d, true)
decided (removes name) d none = (d, false)
decided (removes name) d (some e) = (set name none d, true)

abbrev pub specified : Operation → Directory → Directory × Bool
specified op d = decided op d (d (name_of op))

abbrev pub entry_of : Option Bucket → Option Entry
entry_of none = none
entry_of (some b) =
    some (record { salt = get_text "salt" b; hash = get_text "hash" b; email = get_text "email" b })

pub same_bytes_eq : (a b : Bytes) → same_bytes a b ≡ true → a ≡ b
same_bytes_eq [] [] e = refl
same_bytes_eq [] (y ∷ b) e = absurd (ground (arith, e))
same_bytes_eq (x ∷ a) [] e = absurd (ground (arith, e))
same_bytes_eq (x ∷ a) (y ∷ b) e = let ih = same_bytes_eq a b in ground (arith, ih, ==_iff x y)

differs : (a b : Bytes) → same_bytes a b ≡ false → b ≢ a
differs a b other e =
    let same : same_bytes a b ≡ true =
      subst (λ n. same_bytes a n ≡ true) (sym e) (same_bytes_refl a) in
    ground (arith, same, other)

module _ {Db : Type 0} (bolt : Bolt Db) where
  open bolt use {bucket}

  -- The directory that a database stands for
  abbrev pub view : Db → Directory
  view db name = entry_of (bucket name db)

  pub view-set :
      (name : Bytes) (e : Option Entry) (db after : Db)
      → entry_of (bucket name after) ≡ e
      → ((other : Bytes) → other ≢ name → bucket other after ≡ bucket other db)
      → view after ≡ set name e (view db)
  view-set name e db after here there = fun_ext (λ k. elim (Bool-cases (same_bytes name k)) [
    | inl same ↦
        rw same (subst (λ n. entry_of (bucket n after) ≡ e) (same_bytes_eq name k same) here)
    | inr other ↦ rw other (ap entry_of (there k (differs name k other)))
  ])
