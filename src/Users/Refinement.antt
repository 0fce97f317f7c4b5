-- ===== src/Users/Refinement.antt =====
-- db/db.go against the directory: one operation, on any database.
use bduts.Prelude.{
  ◌≡◌, ◌≢◌, refl, ap, sym, ◌∙◌, inl, inr, Bool, true, false, [], Option, Option-cases, none, some,
}
use bduts.Cache.Disk.{Bytes}
use bduts.Cache.Bolt.{
  Bolt, Bucket, DbError, bucket_not_found, empty_bucket, IsTransactional, HasBuckets,
  HasSeparateBuckets,
}
use bduts.Users.{
  get_text, does_not_exist, filled, insert_user, changed, change_password, delete_user,
}
use bduts.Users.Accounts.{put_secret, bucket-put_secret, bucket-put_account, insert_user-existing}
use bduts.Users.Directory.{
  Entry, Directory, set, Operation, inserts, changes, removes, name_of, decided, specified,
  entry_of, view, view-set,
}

abbrev pub succeeded : Option DbError → Bool
succeeded none = true
succeeded (some e) = false

module _ {Db : Type 0} (bolt : Bolt Db) where
  open bolt use {bucket, create_bucket, put, delete_bucket, update}

  abbrev pub ran : Db × Option DbError → Db × Bool
  ran (db, e) = (db, succeeded e)

  unfoldable pub operate : Operation → Db → Db × Bool
  unfolding insert_user change_password delete_user
  operate (inserts name salt hash email) db = ran (insert_user bolt name salt hash email db)
  operate (changes name salt hash) db = ran (change_password bolt name salt hash db)
  operate (removes name) db = ran (delete_user bolt name db)

  abbrev pub seen : Db × Bool → Directory × Bool
  seen (db, done) = (view bolt db, done)

  module _ (law : IsTransactional bolt) (has : HasBuckets bolt)
      (separate : HasSeparateBuckets bolt) where
    -- A transaction that succeeds, seen from outside
    committed :
        (f : Db → Db × Option DbError) (name : Bytes) (e : Option Entry) (db after : Db)
        → f db ≡ (after, none)
        → entry_of (bucket name after) ≡ e
        → ((other : Bytes) → other ≢ name → bucket other after ≡ bucket other db)
        → seen (ran (update f db)) ≡ (set name e (view bolt db), true)
    committed f name e db after run here there =
        ap (λ r. seen (ran r)) (law.commits f db after run)
        ∙ ap (λ d. (d, true)) (view-set bolt name e db after here there)

    undone :
        (f : Db → Db × Option DbError) (db after : Db) (e : DbError)
        → f db ≡ (after, some e)
        → seen (ran (update f db)) ≡ (view bolt db, false)
    undone f db after e run = ap (λ r. seen (ran r)) (law.rolls_back f db after e run)

    put_secret-other :
        (name salt hash other : Bytes) (db : Db)
        → other ≢ name
        → bucket other (put_secret bolt name salt hash db) ≡ bucket other db
    put_secret-other name salt hash other db differs =
        separate.put_other name other "hash" hash (put name "salt" salt db) differs
        ∙ separate.put_other name other "salt" salt db differs

    insert_new :
        (name salt hash email : Bytes) (db : Db)
        → name ≢ []
        → bucket name db ≡ none
        → seen (operate (inserts name salt hash email) db) ≡ (
          set name (some (record { salt = salt; hash = hash; email = email })) (view bolt db),
          true,
        )
    unfolding operate insert_user
    insert_new name salt hash email db named missing =
        let (made, created, empty) = has.create_new name db named missing in
        committed (λ x. filled bolt name salt hash email (create_bucket name x)) name
          (some (record { salt = salt; hash = hash; email = email })) db
          (put name "email" email (put_secret bolt name salt hash made))
          (ap (filled bolt name salt hash email) created)
          (rw (bucket-put_account bolt has name salt hash email made empty_bucket empty) refl)
          (λ other differs.
            separate.put_other name other "email" email (put_secret bolt name salt hash made)
              differs
            ∙ put_secret-other name salt hash other made differs
            ∙ ap (λ r. bucket other r.0) (sym created)
            ∙ separate.create_other name other db differs)

    change_old :
        (name salt hash : Bytes) (db : Db) (b : Bucket)
        → bucket name db ≡ some b
        → seen (operate (changes name salt hash) db) ≡ (
          set name
              (some (record { salt = salt; hash = hash; email = get_text "email" b }))
              (view bolt db),
          true,
        )
    unfolding operate change_password
    change_old name salt hash db b there =
        committed (λ x. changed bolt name salt hash (bucket name x) x) name
          (some (record { salt = salt; hash = hash; email = get_text "email" b })) db
          (put_secret bolt name salt hash db) (ap (λ o. changed bolt name salt hash o db) there)
          (rw (bucket-put_secret bolt has name salt hash db b there) refl)
          (λ other differs. put_secret-other name salt hash other db differs)

    remove_old :
        (name : Bytes) (db : Db) (b : Bucket)
        → bucket name db ≡ some b
        → seen (operate (removes name) db) ≡ (set name none (view bolt db), true)
    unfolding operate delete_user
    remove_old name db b there =
        let (done, gone) = separate.delete_old name db b there in
        committed (delete_bucket name) name none db (delete_bucket name db).0
          (ap (λ e. ((delete_bucket name db).0, e)) done) (rw gone refl)
          (λ other differs. separate.delete_other name other db differs)

    operate-missing :
        (op : Operation) (db : Db)
        → name_of op ≢ []
        → bucket (name_of op) db ≡ none
        → seen (operate op db) ≡ decided op (view bolt db) none
    unfolding operate change_password delete_user
    operate-missing (inserts name salt hash email) db named missing =
        insert_new name salt hash email db named missing
    operate-missing (changes name salt hash) db named missing =
        undone (λ x. changed bolt name salt hash (bucket name x) x) db db does_not_exist
          (ap (λ o. changed bolt name salt hash o db) missing)
    operate-missing (removes name) db named missing =
        undone (delete_bucket name) db (delete_bucket name db).0 bucket_not_found
          (ap (λ e. ((delete_bucket name db).0, e)) (separate.delete_missing name db named missing))

    operate-there :
        (op : Operation) (db : Db) (b : Bucket)
        → bucket (name_of op) db ≡ some b
        → seen (operate op db) ≡ decided op (view bolt db) (entry_of (some b))
    unfolding operate
    operate-there (inserts name salt hash email) db b there =
        ap (λ r. seen (ran r)) (insert_user-existing bolt law has name salt hash email db b there)
    operate-there (changes name salt hash) db b there = change_old name salt hash db b there
    operate-there (removes name) db b there = remove_old name db b there

    pub operate-specified :
        (op : Operation) (db : Db)
        → name_of op ≢ []
        → seen (operate op db) ≡ specified op (view bolt db)
    operate-specified op db named = elim (Option-cases (bucket (name_of op) db)) [
      | inl missing ↦
          operate-missing op db named missing
          ∙ ap (λ o. decided op (view bolt db) (entry_of o)) (sym missing)
      | inr (b, there) ↦
          operate-there op db b there ∙ ap (λ o. decided op (view bolt db) (entry_of o)) (sym there)
    ]
