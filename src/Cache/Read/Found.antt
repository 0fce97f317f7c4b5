-- ===== src/Cache/Read/Found.antt =====
-- cache/read.go: a page that is in the cache is found while it is fresh, and its use is counted.
use bduts.Prelude.{ℕ, ◌<◌, ◌+◌, ◌*◌, ◌/◌, ◌%◌, ◌^◌, ◌≡◌, ◌≢◌, refl, false, [], none, some, arith}
use bduts.Prelude.Int.{ℤ, pos}
use bduts.Prelude.Go.{ret}
use bduts.Http.{Request, Response}
use bduts.Cache.Disk.{Bytes, Disk}
use bduts.Cache.Directives.{
  PageMetadata, load_request_directives, load_response_directives, create_cache_info,
}
use bduts.Cache.Bolt.{Bolt, put_in, IsTransactional, HasBuckets}
use bduts.Cache.Store.{Page, Codec, CachingProperties, ok, uses_key, put_uint32}
use Prim.Native.String.{len}
use bduts.Cache.Insert.{insert_page_in_cache}
use bduts.Cache.Insert.Stored.{Cached, Storable, IsFaithful, insert_page_in_cache-Cached}
use bduts.Cache.Insert.Written.{HasRoom}
use bduts.Cache.Read.{
  uses_tx, count_use, get_page_metadata, is_not_fresh, read_page_from_disk, get_page_from_cache,
}

-- A 32-bit number is read back from its four bytes.
uint32_bytes :
    (n : ℕ)
    → n < 2 ^ 32
    → n % 256 + 256 * (n / 256 % 256) + 65536 * (n / 65536 % 256) + 16777216 * (n / 16777216 % 256)
      ≡ n
uint32_bytes n small = omega arith

module _ {Db : Type 0} (bolt : Bolt Db) (codec : Codec) (law : IsTransactional bolt)
    (has : HasBuckets bolt) where
  open bolt use {bucket, put, update}

  count_use-Cached :
      (key : Bytes) (meta : PageMetadata) (n : ℕ) (page : Page) (db : Db) (disk : Disk)
      (k : Cached bolt codec key meta n page db disk)
      → n < 2 ^ 32
      → (after : Db) × (count_use bolt codec key k.entry db ≡ ret after)
        × Cached bolt codec key meta ((n + 1) % 2 ^ 32) page after disk
  unfolding count_use uses_tx
  count_use-Cached key meta n page db disk k small =
      let next = put_uint32 ((n + 1) % 2 ^ 32) in
      let after = put key uses_key next db in
      let counted : uses_tx bolt codec key k.entry db ≡ ret (after, none) =
        rw (uses_tx, k.has_uses, uint32_bytes n small) refl in
      let done = law.commits (λ x. (after, none)) db after refl in
      (
        after,
        rw (count_use, counted, done) refl,
        record {
          entry = put_in uses_key next k.entry;
          there = has.put_get key uses_key next db k.entry k.there;
          meta_bytes = k.meta_bytes;
          has_meta = k.has_meta;
          reads_meta = k.reads_meta;
          has_uses = refl;
          page_bytes = k.page_bytes;
          has_page = k.has_page;
          reads_page = k.reads_page;
        },
      )

  -- A page that is in the cache and fresh for the request is returned, and stays in the cache with
  -- its number of uses one higher, modulo 2^32. Bolt must commit and keep its buckets as
  -- documented.
  pub get_page_from_cache-Cached :
      (loaded now : ℤ) (key : Bytes) (req : Request) (meta : PageMetadata) (n : ℕ) (page : Page)
      (c : CachingProperties Db)
      → Cached bolt codec key meta n page c.db c.disk
      → n < 2 ^ 32
      → is_not_fresh now (load_request_directives loaded req.header) meta.response_directives
        ≡ false
      → (after : Db) × (get_page_from_cache bolt codec loaded now key req c
          ≡ ret (record c { db = after }, ok page))
        × Cached bolt codec key meta ((n + 1) % 2 ^ 32) page after c.disk
  unfolding get_page_from_cache get_page_metadata read_page_from_disk
  get_page_from_cache-Cached loaded now key req meta n page c k small fresh =
      let (after, counted, kept) = count_use-Cached key meta n page c.db c.disk k small in
      let found : get_page_metadata bolt codec key c ≡ ret (record c { db = after }, ok meta) =
        rw (get_page_metadata, k.there, k.has_meta, counted, k.reads_meta) refl in
      let read : read_page_from_disk bolt codec key c.disk ≡ ok page =
        rw (read_page_from_disk, k.has_page, k.reads_page) refl in
      (after, rw (get_page_from_cache, found, fresh, read) refl, kept)

  -- A page that is Storable, under a key that the cache does not have, on a disk that has room for
  -- it: InsertPageInCache succeeds, and GetPageFromCache returns the same page to every request
  -- for which it is fresh. Bolt must commit and keep its buckets as documented, and the encodings
  -- of page and metadata must be read back.
  pub get-insert_page_in_cache :
      (stored loaded now : ℤ) (key : Bytes) (req asking : Request) (resp : Response) (page : Page)
      (c : CachingProperties Db) (meta_bytes page_bytes : Bytes)
      → IsFaithful codec
      → key ≢ []
      → bucket key c.db ≡ none
      → Storable stored req resp page c
      → HasRoom key c.disk
      → codec.marshal_meta (create_cache_info stored resp.header (pos (len page.body)))
        ≡ some meta_bytes
      → codec.marshal_page page ≡ some page_bytes
      → is_not_fresh now
          (load_request_directives loaded asking.header)
          (load_response_directives stored resp.header)
        ≡ false
      → (c' : CachingProperties Db) × (after : Db) × (insert_page_in_cache bolt codec stored key req
            resp page c
          ≡ (c', none))
        × (get_page_from_cache bolt codec loaded now key asking c'
            ≡ ret (record c' { db = after }, ok page))
  unfolding create_cache_info
  get-insert_page_in_cache stored loaded now key req asking resp page c meta_bytes page_bytes codes
        named missing s room encoded encoded_page fresh =
      let (c', run, k) =
        insert_page_in_cache-Cached bolt codec law has stored key req resp page c meta_bytes
          page_bytes codes named missing s room encoded encoded_page in
      let (after, read, _) =
        get_page_from_cache-Cached loaded now key asking
          (create_cache_info stored resp.header (pos (len page.body))) 0 page c' k (omega arith)
          fresh in
      (c', after, run, read)
