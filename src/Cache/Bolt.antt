-- ===== src/Cache/Bolt.antt =====
-- The bolt database as the cache and the accounts use it: an interface, with the laws that bolt documents. The
-- database of a transaction is a value, and Update gives back the old one where its function fails.
use bduts.Prelude.{◌≡◌, ◌≢◌, str_eq, String, List, [], Option, none, some, if◌then◌else◌}
use bduts.Cache.Disk.{Bytes}

pub data DbError : Type 0 where
  bucket_exists bucket_not_found missed_cache no_record value_not_found no_page_to_delete : DbError
  other_failure : String → DbError

-- What Get finds in a bucket
abbrev pub Bucket : Type 0
Bucket = String → Option Bytes

abbrev pub put_in : String → Bytes → Bucket → Bucket
put_in key value b k = if str_eq key k then some value else b k

abbrev pub empty_bucket : Bucket
empty_bucket k = none

pub record Bolt (Db : Type 0) : Type 0 where
  -- tx.Bucket
  pub bucket : Bytes → Db → Option Bucket
  -- the names that ForEach meets, in its order
  pub names : Db → List Bytes
  pub create_bucket : Bytes → Db → Db × Option DbError
  -- tx.Bucket(name).Put(key, value)
  pub put : Bytes → String → Bytes → Db → Db
  pub delete_bucket : Bytes → Db → Db × Option DbError
  pub update : (Db → Db × Option DbError) → Db → Db × Option DbError

module _ {Db : Type 0} (bolt : Bolt Db) where
  open bolt use {bucket, create_bucket, put, delete_bucket, update}

  pub record IsTransactional : Type 0 where
    pub commits :
        (f : Db → Db × Option DbError) (db after : Db)
        → f db ≡ (after, none)
        → update f db ≡ (after, none)
    pub rolls_back :
        (f : Db → Db × Option DbError) (db after : Db) (e : DbError)
        → f db ≡ (after, some e)
        → update f db ≡ (db, some e)

  pub record HasBuckets : Type 0 where
    -- CreateBucket wants a name, and fails on an old one.
    pub unnamed : (db : Db) → bucket [] db ≡ none
    pub create_old :
        (key : Bytes) (db : Db) (b : Bucket)
        → bucket key db ≡ some b
        → create_bucket key db ≡ (db, some bucket_exists)
    pub create_new :
        (key : Bytes) (db : Db)
        → key ≢ []
        → bucket key db ≡ none
        → (after : Db) × (create_bucket key db ≡ (after, none))
          × (bucket key after ≡ some empty_bucket)
    pub put_get :
        (name : Bytes) (key : String) (value : Bytes) (db : Db) (b : Bucket)
        → bucket name db ≡ some b
        → bucket name (put name key value db) ≡ some (put_in key value b)

  -- What is done to a bucket leaves the others alone, and a bucket that is there can be deleted.
  pub record HasSeparateBuckets : Type 0 where
    pub create_other :
        (key other : Bytes) (db : Db)
        → other ≢ key
        → bucket other (create_bucket key db).0 ≡ bucket other db
    pub put_other :
        (name other : Bytes) (key : String) (value : Bytes) (db : Db)
        → other ≢ name
        → bucket other (put name key value db) ≡ bucket other db
    pub delete_other :
        (key other : Bytes) (db : Db)
        → other ≢ key
        → bucket other (delete_bucket key db).0 ≡ bucket other db
    pub delete_old :
        (key : Bytes) (db : Db) (b : Bucket)
        → bucket key db ≡ some b
        → ((delete_bucket key db).1 ≡ none) × (bucket key (delete_bucket key db).0 ≡ none)
    pub delete_missing :
        (key : Bytes) (db : Db)
        → key ≢ []
        → bucket key db ≡ none
        → (delete_bucket key db).1 ≡ some bucket_not_found
