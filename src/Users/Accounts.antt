-- ===== src/Users/Accounts.antt =====
-- db/db.go: what is read of an account after it was made or changed.
use bduts.Prelude.{◌≡◌, ◌≢◌, refl, ap, [], Option, none, some, Option-cases, inl, inr, arith}
use bduts.Cache.Disk.{Bytes}
use bduts.Cache.Bolt.{
  Bolt, Bucket, DbError, put_in, empty_bucket, bucket_exists, IsTransactional, HasBuckets,
}
use bduts.Users.{
  get_text, filled, insert_user, get_salt_and_hash, changed, change_password, get_email,
}

module _ {Db : Type 0} (bolt : Bolt Db) where
  open bolt use {bucket, create_bucket, put, update}

  -- What the database says of a user
  pub record Account (username salt hash email : Bytes) (db : Db) : Type 0 where
    pub secret : get_salt_and_hash bolt username db ≡ ((salt, hash), none)
    pub address : get_email bolt username db ≡ (email, none)

  abbrev failure : (Bytes × Bytes) × Option DbError → Option DbError
  failure p = p.1

  -- Who can be read has a bucket.
  pub bucket_lem :
      (username salt hash : Bytes) (db : Db)
      → get_salt_and_hash bolt username db ≡ ((salt, hash), none)
      → (b : Bucket) × (bucket username db ≡ some b)
  unfolding get_salt_and_hash
  bucket_lem username salt hash db e = elim (Option-cases (bucket username db)) [
    | inl missing ↦
        let worse = ap failure (rw (get_salt_and_hash, missing) at e) in
        absurd (ground (arith, worse))
    | inr there ↦ there
  ]

  -- The two puts of a password
  abbrev pub put_secret : Bytes → Bytes → Bytes → Db → Db
  put_secret name salt hash db = put name "hash" hash (put name "salt" salt db)

  module _ (has : HasBuckets bolt) where
    pub bucket-put_secret :
        (name salt hash : Bytes) (db : Db) (b : Bucket)
        → bucket name db ≡ some b
        → bucket name (put_secret name salt hash db)
          ≡ some (put_in "hash" hash (put_in "salt" salt b))
    bucket-put_secret name salt hash db b there =
        has.put_get name "hash" hash (put name "salt" salt db) (put_in "salt" salt b)
          (has.put_get name "salt" salt db b there)

    pub bucket-put_account :
        (name salt hash email : Bytes) (db : Db) (b : Bucket)
        → bucket name db ≡ some b
        → bucket name (put name "email" email (put_secret name salt hash db))
          ≡ some (put_in "email" email (put_in "hash" hash (put_in "salt" salt b)))
    bucket-put_account name salt hash email db b there =
        has.put_get name "email" email (put_secret name salt hash db)
          (put_in "hash" hash (put_in "salt" salt b)) (bucket-put_secret name salt hash db b there)

  module _ (law : IsTransactional bolt) (has : HasBuckets bolt) where
    -- InsertUser of a new, non-empty name succeeds, and GetSaltAndHash and GetEmail then give the
    -- salt, the hash and the address that were inserted. Bolt must commit and keep its buckets as
    -- documented.
    pub insert_user-Account :
        (username salt hash email : Bytes) (db : Db)
        → username ≢ []
        → bucket username db ≡ none
        → (after : Db) × (insert_user bolt username salt hash email db ≡ (after, none))
          × Account username salt hash email after
    unfolding insert_user get_salt_and_hash get_email
    insert_user-Account username salt hash email db named missing =
        let (made, created, empty) = has.create_new username db named missing in
        let full = bucket-put_account has username salt hash email made empty_bucket empty in
        let tx : Db → Db × Option DbError =
          λ x. filled bolt username salt hash email (create_bucket username x) in
        let after = put username "email" email (put_secret username salt hash made) in
        let run : tx db ≡ (after, none) = ap (filled bolt username salt hash email) created in
        (
          after,
          law.commits tx db after run,
          record {
            secret = rw (get_salt_and_hash, full) refl;
            address = rw (get_email, full) refl;
          },
        )

    -- InsertUser of a name that exists gives bolt's error and leaves the database as it was, so
    -- that no account is overwritten. Bolt must roll back and keep its buckets as documented.
    pub insert_user-existing :
        (username salt hash email : Bytes) (db : Db) (b : Bucket)
        → bucket username db ≡ some b
        → insert_user bolt username salt hash email db ≡ (db, some bucket_exists)
    unfolding insert_user
    insert_user-existing username salt hash email db b there =
        law.rolls_back (λ x. filled bolt username salt hash email (create_bucket username x)) db db
          bucket_exists
          (ap (filled bolt username salt hash email) (has.create_old username db b there))

    -- ChangePassword of an existing account succeeds, and then the new salt and hash are read, and
    -- the same address as before. Bolt must commit and keep its buckets as documented.
    pub change_password-Account :
        (username salt hash old_salt old_hash email : Bytes) (db : Db) (b : Bucket)
        → bucket username db ≡ some b
        → Account username old_salt old_hash email db
        → (after : Db) × (change_password bolt username salt hash db ≡ (after, none))
          × Account username salt hash email after
    unfolding change_password get_salt_and_hash get_email
    change_password-Account username salt hash old_salt old_hash email db b there k =
        let full = bucket-put_secret has username salt hash db b there in
        let tx : Db → Db × Option DbError =
          λ x. changed bolt username salt hash (bucket username x) x in
        let after = put_secret username salt hash db in
        let run : tx db ≡ (after, none) = ap (λ o. changed bolt username salt hash o db) there in
        let kept : (get_text "email" b, none) ≡ (email, none) =
          rw (get_email, there) at k.address in
        (
          after,
          law.commits tx db after run,
          record {
            secret = rw (get_salt_and_hash, full) refl;
            address = rw (get_email, full) kept;
          },
        )
