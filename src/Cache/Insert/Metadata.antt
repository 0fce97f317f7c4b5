-- ===== src/Cache/Insert/Metadata.antt =====
-- cache/insert.go, insertPageMetadataToDB: a new key gets its bucket, an old one keeps what it has.
use bduts.Prelude.{◌≡◌, ◌≢◌, refl, [], none, some}
use bduts.Cache.Disk.{Bytes}
use bduts.Cache.Directives.{PageMetadata}
use bduts.Cache.Bolt.{
  Bolt, Bucket, put_in, empty_bucket, IsTransactional, HasBuckets, bucket_exists,
}
use bduts.Prelude.Int.{pos}
use bduts.Cache.Store.{
  Codec, CachingProperties, meta_key, uses_key, put_uint32, increment_size, tell, pages_moved,
}
use bduts.Cache.Insert.{metadata_tx, insert_page_metadata_to_db}

module _ {Db : Type 0} (bolt : Bolt Db) (codec : Codec) where
  open bolt use {bucket, create_bucket, put, update}
  open codec use {marshal_meta, unmarshal_meta, marshal_page, unmarshal_page}

  module _ (law : IsTransactional bolt) (has : HasBuckets bolt) where
    metadata_tx-new :
        (key value : Bytes) (db : Db)
        → key ≢ []
        → bucket key db ≡ none
        → (after : Db) × (metadata_tx bolt codec key value db ≡ (after, none))
          × (bucket key after
              ≡ some (put_in uses_key (put_uint32 0) (put_in meta_key value empty_bucket)))
    unfolding metadata_tx
    metadata_tx-new key value db named missing =
        let (made, created, empty) = has.create_new key db named missing in
        let one = has.put_get key meta_key value made empty_bucket empty in
        let two =
          has.put_get key uses_key (put_uint32 0) (put key meta_key value made)
            (put_in meta_key value empty_bucket) one in
        (
          put key uses_key (put_uint32 0) (put key meta_key value made),
          rw (metadata_tx, created, created) refl,
          two,
        )

    pub insert_page_metadata_to_db-new :
        (key value : Bytes) (meta : PageMetadata) (c : CachingProperties Db)
        → key ≢ []
        → bucket key c.db ≡ none
        → marshal_meta meta ≡ some value
        → (after : Db) × (insert_page_metadata_to_db bolt codec key meta c ≡ (
          tell (pages_moved (pos 1)) (increment_size meta.size (record c { db = after })),
          none,
        ))
          × (bucket key after
              ≡ some (put_in uses_key (put_uint32 0) (put_in meta_key value empty_bucket)))
    unfolding insert_page_metadata_to_db
    insert_page_metadata_to_db-new key value meta c named missing encoded =
        let (after, run, there) = metadata_tx-new key value c.db named missing in
        let done = law.commits (metadata_tx bolt codec key value) c.db after run in
        (after, rw (insert_page_metadata_to_db, encoded, done, done) refl, there)

    metadata_tx-old :
        (key value : Bytes) (db : Db) (b : Bucket)
        → bucket key db ≡ some b
        → (after : Db) × (metadata_tx bolt codec key value db ≡ (after, some bucket_exists))
    unfolding metadata_tx
    metadata_tx-old key value db b there =
        let old = has.create_old key db b there in
        (
          put key uses_key (put_uint32 0) (put key meta_key value db),
          rw (metadata_tx, old, old) refl,
        )

    pub insert_page_metadata_to_db-old :
        (key value : Bytes) (meta : PageMetadata) (c : CachingProperties Db) (b : Bucket)
        → bucket key c.db ≡ some b
        → marshal_meta meta ≡ some value
        → insert_page_metadata_to_db bolt codec key meta c ≡ (c, none)
    unfolding insert_page_metadata_to_db
    insert_page_metadata_to_db-old key value meta c b there encoded =
        let (after, run) = metadata_tx-old key value c.db b there in
        let undone =
          law.rolls_back (metadata_tx bolt codec key value) c.db after bucket_exists run in
        rw (insert_page_metadata_to_db, encoded, undone, undone) refl
