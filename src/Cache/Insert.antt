-- ===== src/Cache/Insert.antt =====
-- cache/insert.go: a page goes in, its metadata first and its file after.
pub mod Written
pub mod Metadata
pub mod Stored
use Prim.Native.String.{len}
use bduts.Prelude.{str_eq, ◌||◌, not, [], ◌∷◌, Option, none, some, if◌then◌else◌}
use bduts.Prelude.Int.{ℤ, pos, int64, ◌+ℤ◌, ltb_ℤ}
use bduts.Http.{Request, Response}
use bduts.Cache.Disk.{Bytes, Disk, DiskError, make_path, mkdir_all, create, write_file}
use bduts.Cache.Directives.{
  PageMetadata, load_request_directives, load_response_directives, create_cache_info,
}
use bduts.Cache.Bolt.{Bolt, DbError}
use bduts.Cache.Store.{
  Page, CacheError, size_exceeded, not_storable, bad_json, in_db, Codec, CachingProperties,
  meta_key, uses_key, is_bucket_exists, disk_error, increment_size, tell, pages_moved,
}
use bduts.Cache.Remove.{remove_page_metadata}

-- The steps on the disk of writePageToDisk, each after the one before succeeded
unfoldable pub write_value : Bytes → Bytes → Disk → Disk × Option DiskError
unfolding make_path mkdir_all create write_file
write_value key value d =
    let p = make_path key in
    let made = mkdir_all p d in
    let opened = create p key made.0 in
    let flushed = write_file (key ∷ p) value opened.0 in
    elim made.1 [
      | some e ↦ (made.0, some e)
      | none ↦ elim opened.1 [ some e ↦ (opened.0, some e) | none ↦ flushed ]
    ]

module _ {Db : Type 0} (bolt : Bolt Db) (codec : Codec) where
  open bolt use {bucket, create_bucket, put, delete_bucket, update}
  open codec use {marshal_meta, unmarshal_meta, marshal_page, unmarshal_page}

  -- The transaction of insertPageMetadataToDB
  unfoldable pub metadata_tx : Bytes → Bytes → Db → Db × Option DbError
  metadata_tx key value db =
      let made = create_bucket key db in
      let filled = put key uses_key (0 ∷ 0 ∷ 0 ∷ 0 ∷ []) (put key meta_key value made.0) in
      elim made.1 [
        | none ↦ (filled, none)
        | some e ↦ if is_bucket_exists e then (filled, some e) else (made.0, some e)
      ]

  unfoldable pub insert_page_metadata_to_db :
      Bytes → PageMetadata → CachingProperties Db → CachingProperties Db × Option CacheError
  unfolding metadata_tx increment_size
  insert_page_metadata_to_db key meta c = elim (marshal_meta meta) [
    | none ↦ (c, some bad_json)
    | some value ↦
        let done = update (metadata_tx key value) c.db in
        let c' : CachingProperties Db = record c { db = done.0 } in
        elim done.1 [
          | none ↦ (tell (pages_moved (pos 1)) (increment_size meta.size c'), none)
          | some e ↦ if is_bucket_exists e then (c', none) else (c', some (in_db e))
        ]
  ]

  unfoldable pub write_page_to_disk :
      Bytes → Page → CachingProperties Db → CachingProperties Db × Option CacheError
  unfolding write_value
  write_page_to_disk key page c = elim (marshal_page page) [
    | none ↦ (c, some bad_json)
    | some value ↦
        let done = write_value key value c.disk in (record c { disk = done.0 }, disk_error done.1)
  ]

  -- What follows writePageToDisk: if it failed the metadata are removed again.
  undo_failed :
      Bytes → CachingProperties Db × Option CacheError → CachingProperties Db × Option CacheError
  undo_failed key (c, none) = (c, none)
  undo_failed key (c, some e) = ((remove_page_metadata bolt codec key c).0, some e)

  -- What follows insertPageMetadataToDB
  write_after :
      Bytes
      → Page
      → CachingProperties Db × Option CacheError
      → CachingProperties Db × Option CacheError
  unfolding undo_failed write_page_to_disk
  write_after key page (c, some e) = (c, some e)
  write_after key page (c, none) = undo_failed key (write_page_to_disk key page c)

  -- The time that the directives of the request are read at plays no part here: only flags are used.
  unfoldable pub insert_page_in_cache :
      ℤ
      → Bytes
      → Request
      → Response
      → Page
      → CachingProperties Db
      → CachingProperties Db × Option CacheError
  unfolding insert_page_metadata_to_db write_after
  insert_page_in_cache now key req resp page c =
      let size = pos (len page.body) in
      let asked = load_request_directives now req.header in
      let told = load_response_directives now resp.header in
      if ltb_ℤ c.max_file_size (int64 (c.size +ℤ size))
      then (c, some size_exceeded)
      else if asked.no_store || told.no_store || not (str_eq req.method "GET") || told.private_only
      then (c, some not_storable)
      else write_after key page
          (insert_page_metadata_to_db key (create_cache_info now resp.header size) c)
