-- ===== src/Cache/Insert/Stored.antt =====
-- cache/insert.go and cache/read.go together: a page that was inserted is found.
use Prim.Native.String.{len}
use bduts.Prelude.{
  ℕ, ◌≡◌, ◌≢◌, refl, ap, ◌∙◌, str_eq, true, false, [], ◌∷◌, none, some, inl, inr, Bool-cases, ◌⊎◌,
}
use bduts.Prelude.Int.{ℤ, pos, int64, ◌+ℤ◌, ltb_ℤ}
use bduts.Http.{Request, Response}
use bduts.Cache.Disk.{Bytes, Disk, make_path, read_file, until_zero}
use bduts.Cache.Directives.{
  PageMetadata, create_cache_info, load_request_directives, load_response_directives,
}
use bduts.Cache.Bolt.{Bolt, Bucket, put_in, empty_bucket, IsTransactional, HasBuckets}
use bduts.Cache.Store.{
  Page, Codec, CachingProperties, CacheError, size_exceeded, not_storable, meta_key, uses_key,
  put_uint32, increment_size, tell, pages_moved,
}
use bduts.Cache.Insert.{
  write_after, undo_failed, insert_page_metadata_to_db, write_value, write_page_to_disk,
  insert_page_in_cache,
}
use bduts.Cache.Insert.Written.{HasRoom, write_value_lem}
use bduts.Cache.Insert.Metadata.{insert_page_metadata_to_db-new, insert_page_metadata_to_db-old}

-- The conditions under which InsertPageInCache stores a page.
pub record Storable {Db : Type 0} (now : ℤ) (req : Request) (resp : Response) (page : Page)
    (c : CachingProperties Db) : Type 0 where
  pub fits : ltb_ℤ c.max_file_size (int64 (c.size +ℤ pos (len page.body))) ≡ false
  pub asked : (load_request_directives now req.header).no_store ≡ false
  pub told : (load_response_directives now resp.header).no_store ≡ false
  pub got : str_eq req.method "GET" ≡ true
  pub shared : (load_response_directives now resp.header).private_only ≡ false

-- Marshal's bytes are read back, and those of a page have no zero byte.
pub record IsFaithful (codec : Codec) : Type 0 where
  pub meta :
      (m : PageMetadata) (bs : Bytes)
      → codec.marshal_meta m ≡ some bs
      → codec.unmarshal_meta bs ≡ some m
  pub page :
      (p : Page) (bs : Bytes) → codec.marshal_page p ≡ some bs → codec.unmarshal_page bs ≡ some p
  pub no_zero : (p : Page) (bs : Bytes) → codec.marshal_page p ≡ some bs → until_zero bs ≡ bs

module _ {Db : Type 0} (bolt : Bolt Db) (codec : Codec) where
  open bolt use {bucket, create_bucket, put, update}
  open codec use {marshal_meta, unmarshal_meta, marshal_page, unmarshal_page}

  -- A page is in the cache: its metadata, the number of its uses, and its file.
  pub record Cached (key : Bytes) (meta : PageMetadata) (n : ℕ) (page : Page) (db : Db)
      (disk : Disk) : Type 0 where
    pub entry : Bucket
    pub there : bucket key db ≡ some entry
    pub meta_bytes : Bytes
    pub has_meta : entry meta_key ≡ some meta_bytes
    pub reads_meta : unmarshal_meta meta_bytes ≡ some meta
    pub has_uses : entry uses_key ≡ some (put_uint32 n)
    pub page_bytes : Bytes
    pub has_page : read_file (key ∷ make_path key) disk ≡ some page_bytes
    pub reads_page : unmarshal_page page_bytes ≡ some page

  -- The way through InsertPageInCache on which nothing fails.
  insert_page_in_cache-runs :
      (now : ℤ) (key : Bytes) (req : Request) (resp : Response) (page : Page)
      (c c₁ c₂ : CachingProperties Db)
      → Storable now req resp page c
      → insert_page_metadata_to_db bolt codec key
          (create_cache_info now resp.header (pos (len page.body)))
          c
        ≡ (c₁, none)
      → write_page_to_disk bolt codec key page c₁ ≡ (c₂, none)
      → insert_page_in_cache bolt codec now key req resp page c ≡ (c₂, none)
  unfolding insert_page_in_cache write_after undo_failed
  insert_page_in_cache-runs now key req resp page c c₁ c₂ s first second =
      rw (insert_page_in_cache, s.fits, s.asked, s.told, s.got, s.shared)
        (ap (write_after bolt codec key page) first ∙ ap (undo_failed bolt codec key) second)

  module _ (law : IsTransactional bolt) (has : HasBuckets bolt) where
    pub insert_page_in_cache-Cached :
        (now : ℤ) (key : Bytes) (req : Request) (resp : Response) (page : Page)
        (c : CachingProperties Db) (meta_bytes page_bytes : Bytes)
        → IsFaithful codec
        → key ≢ []
        → bucket key c.db ≡ none
        → Storable now req resp page c
        → HasRoom key c.disk
        → marshal_meta (create_cache_info now resp.header (pos (len page.body))) ≡ some meta_bytes
        → marshal_page page ≡ some page_bytes
        → (c' : CachingProperties Db) × (insert_page_in_cache bolt codec now key req resp page c
            ≡ (c', none))
          × Cached key
              (create_cache_info now resp.header (pos (len page.body)))
              0
              page
              c'.db
              c'.disk
    unfolding write_page_to_disk increment_size
    insert_page_in_cache-Cached now key req resp page c meta_bytes page_bytes codes named missing s
          room encoded encoded_page =
        let info = create_cache_info now resp.header (pos (len page.body)) in
        let (after, run, there) =
          insert_page_metadata_to_db-new bolt codec law has key meta_bytes info c named missing
            encoded in
        let (fine, reads) = write_value_lem key page_bytes c.disk room in
        let c₁ = tell (pages_moved (pos 1)) (increment_size info.size (record c { db = after })) in
        let disk = (write_value key page_bytes c.disk).0 in
        (
          record c₁ { disk = disk },
          insert_page_in_cache-runs now key req resp page c c₁ (record c₁ { disk = disk }) s run
              (rw (write_page_to_disk, encoded_page, fine) refl),
          record {
            entry = put_in uses_key (put_uint32 0) (put_in meta_key meta_bytes empty_bucket);
            there = there;
            meta_bytes = meta_bytes;
            has_meta = refl;
            reads_meta = codes.meta info meta_bytes encoded;
            has_uses = refl;
            page_bytes = page_bytes;
            has_page = reads ∙ ap some (codes.no_zero page page_bytes encoded_page);
            reads_page = codes.page page page_bytes encoded_page;
          },
        )

    -- Where the key is in the database already, InsertPageInCache of a Storable page writes the
    -- new page to the disk, if it has room, and keeps the old metadata, its expiry and size,
    -- without an error. Bolt must roll back and keep its buckets as documented.
    pub insert_page_in_cache-stale :
        (now : ℤ) (key : Bytes) (req : Request) (resp : Response) (page : Page)
        (c : CachingProperties Db) (b : Bucket) (meta_bytes page_bytes : Bytes)
        → IsFaithful codec
        → bucket key c.db ≡ some b
        → Storable now req resp page c
        → HasRoom key c.disk
        → marshal_meta (create_cache_info now resp.header (pos (len page.body))) ≡ some meta_bytes
        → marshal_page page ≡ some page_bytes
        → (disk : Disk) × (insert_page_in_cache bolt codec now key req resp page c
            ≡ (record c { disk = disk }, none))
          × (read_file (key ∷ make_path key) disk ≡ some page_bytes)
    unfolding write_page_to_disk
    insert_page_in_cache-stale now key req resp page c b meta_bytes page_bytes codes there s room
          encoded encoded_page =
        let info = create_cache_info now resp.header (pos (len page.body)) in
        let kept =
          insert_page_metadata_to_db-old bolt codec law has key meta_bytes info c b there encoded in
        let (fine, reads) = write_value_lem key page_bytes c.disk room in
        let disk = (write_value key page_bytes c.disk).0 in
        (
          disk,
          insert_page_in_cache-runs now key req resp page c c (record c { disk = disk }) s kept
              (rw (write_page_to_disk, encoded_page, fine) refl),
          reads ∙ ap some (codes.no_zero page page_bytes encoded_page),
        )

  -- InsertPageInCache stores nothing that is not Storable: unless the size fits, neither side says
  -- no-store, the method is GET and the response is not private, it gives an error and the cache
  -- stays as it was.
  pub insert_page_in_cache_cases :
      (now : ℤ) (key : Bytes) (req : Request) (resp : Response) (page : Page)
      (c : CachingProperties Db)
      → Storable now req resp page c
        ⊎ ((e : CacheError) × (insert_page_in_cache bolt codec now key req resp page c
              ≡ (c, some e)))
  unfolding insert_page_in_cache
  insert_page_in_cache_cases now key req resp page c =
      elim (Bool-cases (ltb_ℤ c.max_file_size (int64 (c.size +ℤ pos (len page.body))))) [
        | inl over ↦ inr (size_exceeded, rw (insert_page_in_cache, over) refl)
        | inr fits ↦ elim (Bool-cases ((load_request_directives now req.header).no_store)) [
          | inl bad ↦ inr (not_storable, rw (insert_page_in_cache, fits, bad) refl)
          | inr asked ↦ elim (Bool-cases ((load_response_directives now resp.header).no_store)) [
            | inl bad ↦ inr (not_storable, rw (insert_page_in_cache, fits, asked, bad) refl)
            | inr told ↦ elim (Bool-cases (str_eq req.method "GET")) [
              | inr bad ↦ inr (not_storable, rw (insert_page_in_cache, fits, asked, told, bad) refl)
              | inl got ↦
                  elim (Bool-cases ((load_response_directives now resp.header).private_only)) [
                    | inl bad ↦
                        inr (
                          not_storable,
                          rw (insert_page_in_cache, fits, asked, told, got, bad) refl,
                        )
                    | inr shared ↦ inl (record {
                      fits = fits;
                      asked = asked;
                      told = told;
                      got = got;
                      shared = shared;
                    })
                  ]
            ]
          ]
        ]
      ]
