-- ===== src/Users.antt =====
-- db/db.go: the admins' accounts in a bolt database, one bucket for each name. A Go string is its bytes.
-- The keys are short, and no value is too large for Put, so that Put does not fail.
pub mod Accounts
pub mod Directory
pub mod Refinement
pub mod History
use bduts.Prelude.{String, [], Option, none, some}
use bduts.Cache.Disk.{Bytes}
use bduts.Cache.Bolt.{Bolt, Bucket, DbError, other_failure}

-- string(b.Get(key)), where nil is ""
abbrev pub get_text : String → Bucket → Bytes
get_text key b = elim (b key) [ none ↦ [] | some bytes ↦ bytes ]

abbrev pub does_not_exist : DbError
does_not_exist = other_failure "bucket does not exist"

module _ {Db : Type 0} (bolt : Bolt Db) where
  open bolt use {bucket, create_bucket, put, delete_bucket, update}

  -- The puts of InsertUser, in the bucket that was made
  abbrev pub filled : Bytes → Bytes → Bytes → Bytes → Db × Option DbError → Db × Option DbError
  filled username salt hash email (db, some e) = (db, some e)
  filled username salt hash email (db, none) =
      (put username "email" email (put username "hash" hash (put username "salt" salt db)), none)

  unfoldable pub insert_user : Bytes → Bytes → Bytes → Bytes → Db → Db × Option DbError
  insert_user username salt hash email =
      update (λ db. filled username salt hash email (create_bucket username db))

  unfoldable pub get_salt_and_hash : Bytes → Db → (Bytes × Bytes) × Option DbError
  get_salt_and_hash username db = elim (bucket username db) [
    | none ↦ (([], []), some does_not_exist)
    | some b ↦ ((get_text "salt" b, get_text "hash" b), none)
  ]

  abbrev pub changed : Bytes → Bytes → Bytes → Option Bucket → Db → Db × Option DbError
  changed username salt hash none db = (db, some does_not_exist)
  changed username salt hash (some b) db =
      (put username "hash" hash (put username "salt" salt db), none)

  unfoldable pub change_password : Bytes → Bytes → Bytes → Db → Db × Option DbError
  change_password username salt hash =
      update (λ db. changed username salt hash (bucket username db) db)

  unfoldable pub get_email : Bytes → Db → Bytes × Option DbError
  get_email username db = elim (bucket username db) [
    | none ↦ ([], some does_not_exist)
    | some b ↦ (get_text "email" b, none)
  ]

  unfoldable pub delete_user : Bytes → Db → Db × Option DbError
  delete_user username = update (delete_bucket username)
