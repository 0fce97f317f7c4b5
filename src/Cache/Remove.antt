-- ===== src/Cache/Remove.antt =====
-- cache/remove.go: a page is removed, its metadata first and its file after.
use bduts.Prelude.{Option, none, some}
use bduts.Prelude.Int.{pos, ◌-ℤ◌}
use bduts.Prelude.Go.{Go, ret, ◌>>=◌}
use bduts.Cache.Disk.{Bytes, remove_page_from_disk}
use bduts.Cache.Directives.{PageMetadata}
use bduts.Cache.Bolt.{Bolt, DbError, no_page_to_delete}
use bduts.Cache.Store.{
  bad_json, in_db, on_disk, Result, ok, fail, Codec, CachingProperties, meta_key, increment_size,
  tell, pages_moved,
}

module _ {Db : Type 0} (bolt : Bolt Db) (codec : Codec) where
  open bolt use {bucket, create_bucket, put, delete_bucket, update}
  open codec use {marshal_meta, unmarshal_meta, marshal_page, unmarshal_page}

  -- The transaction of removePageMetadata
  unfoldable pub remove_tx : Bytes → Db → Db × Option DbError
  remove_tx key db = elim (bucket key db) [
    | none ↦ (db, some no_page_to_delete)
    | some b ↦ delete_bucket key db
  ]

  -- The bytes that the transaction leaves in `m`; nil does not unmarshal.
  abbrev pub metadata_at : Bytes → Db → Option PageMetadata
  metadata_at key db = elim (bucket key db) [
    | none ↦ none
    | some b ↦ elim (b meta_key) [ none ↦ none | some m ↦ unmarshal_meta m ]
  ]

  unfoldable pub remove_page_metadata :
      Bytes → CachingProperties Db → CachingProperties Db × Result PageMetadata
  unfolding remove_tx increment_size
  remove_page_metadata key c =
      let done = update (remove_tx key) c.db in
      let c' : CachingProperties Db = record c { db = done.0 } in
      elim done.1 [
        | some e ↦ (c', fail (in_db e))
        | none ↦ elim (metadata_at key c.db) [
          | none ↦ (c', fail bad_json)
          | some meta ↦ (
            tell (pages_moved (pos 0 -ℤ pos 1)) (increment_size (pos 0 -ℤ meta.size) c'),
            ok meta,
          )
        ]
      ]

  unfoldable pub remove_page_from_cache :
      Bytes → CachingProperties Db → Go (CachingProperties Db × Result PageMetadata)
  unfolding remove_page_metadata
  remove_page_from_cache key c =
      let (c', r) = remove_page_metadata key c in
      elim r [
        | fail e ↦ ret (c', fail e)
        | ok meta ↦ do
          (d, e) ← remove_page_from_disk key c'.disk
          ret (record c' { disk = d }, elim e [ some e ↦ fail (on_disk e) | none ↦ ok meta ])
      ]
