-- ===== src/Tests/Store.antt =====
-- A bolt database as an association list.
use bduts.Prelude.{
  ◌≡◌, ◌≢◌, refl, ap, ◌∙◌, sym, String, true, false, List, [], ◌∷◌, map, Option, none, some, arith,
  inl, inr, Bool-cases, Option-cases, if◌then◌else◌,
}
use bduts.Cache.Disk.{Bytes, same_bytes}
use bduts.Cache.Disk.Writing.{same_bytes_refl}
use bduts.Users.Directory.{same_bytes_eq}
use bduts.Cache.Bolt.{
  Bolt, Bucket, DbError, bucket_exists, bucket_not_found, other_failure, put_in, empty_bucket,
  IsTransactional, HasBuckets, HasSeparateBuckets,
}

abbrev pub Buckets : Type 0
Buckets = List (Bytes × Bucket)

abbrev find_bucket : Bytes → Buckets → Option Bucket
find_bucket key [] = none
find_bucket key ((k, b) ∷ db) = if same_bytes k key then some b else find_bucket key db

abbrev bucket_of : Bytes → Buckets → Option Bucket
bucket_of [] db = none
bucket_of (x ∷ key) db = find_bucket (x ∷ key) db

abbrev create_in : Option Bucket → Bytes → Buckets → Buckets × Option DbError
create_in (some b) key db = (db, some bucket_exists)
create_in none [] db = (db, some (other_failure "bucket name required"))
create_in none (x ∷ key) db = ((x ∷ key, empty_bucket) ∷ db, none)

abbrev put_at : Bytes → String → Bytes → Buckets → Buckets
put_at name key value [] = []
put_at name key value ((k, b) ∷ db) =
    let rest = put_at name key value db in
    if same_bytes k name then (k, put_in key value b) ∷ db else (k, b) ∷ rest

abbrev delete_at : Bytes → Buckets → Buckets
delete_at key [] = []
delete_at key ((k, b) ∷ db) =
    let rest = delete_at key db in if same_bytes k key then rest else (k, b) ∷ rest

abbrev delete_in : Option Bucket → Bytes → Buckets → Buckets × Option DbError
delete_in none key db = (db, some bucket_not_found)
delete_in (some b) key db = (delete_at key db, none)

abbrev commit : Buckets → Buckets × Option DbError → Buckets × Option DbError
commit db (after, none) = (after, none)
commit db (after, some e) = (db, some e)

abbrev pub bolt : Bolt Buckets
bolt = record {
  bucket = bucket_of;
  names = map (λ e. e.0);
  create_bucket = λ key db. create_in (bucket_of key db) key db;
  put = put_at;
  delete_bucket = λ key db. delete_in (bucket_of key db) key db;
  update = λ f db. commit db (f db);
}

pub bolt-IsTransactional : IsTransactional bolt
bolt-IsTransactional = record {
  commits = λ f db after e. ap (commit db) e;
  rolls_back = λ f db after err e. ap (commit db) e;
}

create_in-new :
    (key : Bytes) (db : Buckets)
    → key ≢ []
    → bucket_of key db ≡ none
    → (after : Buckets) × (create_in (bucket_of key db) key db ≡ (after, none))
      × (bucket_of key after ≡ some empty_bucket)
create_in-new [] db named missing = absurd (named refl)
create_in-new (x ∷ key) db named missing =
    ((x ∷ key, empty_bucket) ∷ db, rw missing refl, rw (same_bytes_refl (x ∷ key)) refl)

abbrev put_some : String → Bytes → Option Bucket → Option Bucket
put_some key value none = none
put_some key value (some b) = some (put_in key value b)

find_bucket-put_at :
    (name : Bytes) (key : String) (value : Bytes) (db : Buckets) (b : Bucket)
    → find_bucket name db ≡ some b
    → find_bucket name (put_at name key value db) ≡ some (put_in key value b)
find_bucket-put_at name key value [] b e = ground arith
find_bucket-put_at name key value ((k, c) ∷ db) b e =
    let ih = find_bucket-put_at name key value db b in
    elim (Bool-cases (same_bytes k name)) [
      | inl same ↦
          let here : some c ≡ some b = rw same at e in
          rw (same, same) (ap (put_some key value) here)
      | inr other ↦
          let later : find_bucket name db ≡ some b = rw other at e in rw (other, other) (ih later)
    ]

put_at_lem :
    (name : Bytes) (key : String) (value : Bytes) (db : Buckets) (b : Bucket)
    → bucket_of name db ≡ some b
    → bucket_of name (put_at name key value db) ≡ some (put_in key value b)
put_at_lem [] key value db b e = ground arith
put_at_lem (x ∷ name) key value db b e = find_bucket-put_at (x ∷ name) key value db b e

pub bolt-HasBuckets : HasBuckets bolt
bolt-HasBuckets = record {
  unnamed = λ db. refl;
  create_old = λ key db b e. rw e refl;
  create_new = create_in-new;
  put_get = put_at_lem;
}

-- Two names cannot both be that of a bucket if they differ.
both : (k key other : Bytes) → other ≢ key → same_bytes k key ≡ true → same_bytes k other ≡ false
both k key other differs e = elim (Bool-cases (same_bytes k other)) [
  | inl same ↦ absurd (differs (sym (same_bytes_eq k other same) ∙ same_bytes_eq k key e))
  | inr apart ↦ apart
]

find_bucket-put_other :
    (name other : Bytes) (key : String) (value : Bytes) (db : Buckets)
    → other ≢ name
    → find_bucket other (put_at name key value db) ≡ find_bucket other db
find_bucket-put_other name other key value [] differs = refl
find_bucket-put_other name other key value ((k, b) ∷ db) differs =
    let ih = find_bucket-put_other name other key value db differs in
    elim (Bool-cases (same_bytes k name)) [
      | inl same ↦ rw (same, both k name other differs same) refl
      | inr apart ↦ rw apart (ap (λ rest. if same_bytes k other then some b else rest) ih)
    ]

find_bucket-delete_other :
    (name other : Bytes) (db : Buckets)
    → other ≢ name
    → find_bucket other (delete_at name db) ≡ find_bucket other db
find_bucket-delete_other name other [] differs = refl
find_bucket-delete_other name other ((k, b) ∷ db) differs =
    let ih = find_bucket-delete_other name other db differs in
    elim (Bool-cases (same_bytes k name)) [
      | inl same ↦ rw (same, both k name other differs same) ih
      | inr apart ↦ rw apart (ap (λ rest. if same_bytes k other then some b else rest) ih)
    ]

find_bucket-delete : (name : Bytes) (db : Buckets) → find_bucket name (delete_at name db) ≡ none
find_bucket-delete name [] = refl
find_bucket-delete name ((k, b) ∷ db) =
    let ih = find_bucket-delete name db in
    elim (Bool-cases (same_bytes k name)) [
      | inl same ↦ rw same ih
      | inr apart ↦ rw (apart, apart) ih
    ]

lifted :
    (key : Bytes) (db after : Buckets)
    → find_bucket key after ≡ find_bucket key db
    → bucket_of key after ≡ bucket_of key db
lifted [] db after e = refl
lifted (x ∷ key) db after e = e

created_other :
    (key other : Bytes) (db : Buckets)
    → other ≢ key
    → bucket_of other (create_in none key db).0 ≡ bucket_of other db
created_other [] other db differs = refl
created_other (x ∷ key) other db differs =
    lifted other db ((x ∷ key, empty_bucket) ∷ db) (elim (Bool-cases (same_bytes (x ∷ key) other)) [
      | inl same ↦ absurd (differs (sym (same_bytes_eq (x ∷ key) other same)))
      | inr apart ↦ rw apart refl
    ])

create_in-other :
    (key other : Bytes) (db : Buckets)
    → other ≢ key
    → bucket_of other (create_in (bucket_of key db) key db).0 ≡ bucket_of other db
create_in-other key other db differs = elim (Option-cases (bucket_of key db)) [
  | inr (b, there) ↦ rw there refl
  | inl missing ↦ rw missing (created_other key other db differs)
]

delete_in-other :
    (key other : Bytes) (db : Buckets)
    → other ≢ key
    → bucket_of other (delete_in (bucket_of key db) key db).0 ≡ bucket_of other db
delete_in-other key other db differs = elim (Option-cases (bucket_of key db)) [
  | inl missing ↦ rw missing refl
  | inr (b, there) ↦
      rw there (lifted other db (delete_at key db) (find_bucket-delete_other key other db differs))
]

deleted_lem : (key : Bytes) (db : Buckets) → bucket_of key (delete_at key db) ≡ none
deleted_lem [] db = refl
deleted_lem (x ∷ key) db = find_bucket-delete (x ∷ key) db

pub bolt-HasSeparateBuckets : HasSeparateBuckets bolt
bolt-HasSeparateBuckets = record {
  create_other = create_in-other;
  put_other = λ name other key value db differs.
      lifted other db (put_at name key value db)
        (find_bucket-put_other name other key value db differs);
  delete_other = delete_in-other;
  delete_old = λ key db b there. rw there (refl, deleted_lem key db);
  delete_missing = λ key db named missing. rw missing refl;
}
