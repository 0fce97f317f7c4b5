-- ===== src/Tests/Caches.antt =====
-- The theorems on the cache at concrete pages, keys and directives.
use bduts.Prelude.{ℕ, ◌≡◌, ◌≢◌, ◌⊎◌, refl, String, false, List, [], ◌∷◌, none, some, arith}
use bduts.Prelude.Int.{◌-ℤ◌, ℤ, pos, negsuc, int64, ◌+ℤ◌}
use bduts.Prelude.Go.{ret}
use bduts.Http.{Header, Response}
use bduts.Text.{split, trim_left, trim_right}
use bduts.Cache.Disk.{Bytes, Disk, directory, file, make_path, read_file}
use bduts.Cache.Directives.{
  cache_control, load_request_directives, load_response_directives, PageMetadata,
  no_response_directives,
}
use bduts.Cache.Directives.Reading.{load_directives-listed, listed}
use bduts.Cache.Bolt.{other_failure, Bucket, put_in, empty_bucket}
use bduts.Cache.Store.{size_set, pages_moved, in_db, CacheError, CachingProperties, ok}
use bduts.Cache.Insert.{insert_page_in_cache}
use bduts.Cache.Insert.Stored.{
  Storable, insert_page_in_cache-stale, insert_page_in_cache_cases, Cached,
}
use bduts.Cache.Insert.Written.{HasRoom}
use bduts.Cache.Read.{get_page_from_cache, is_not_fresh}
use bduts.Cache.Read.Found.{get-insert_page_in_cache, get_page_from_cache-Cached}
use bduts.Cache.Cleaner.{delete_expired_cache}
use bduts.Cache.Cleaner.Expired.{delete_expired_cache-keeps}
use bduts.Cache.Whole.{check_disk, read_metadata, clear_cache}
use bduts.Cache.Whole.Clearing.{clear_cache-partial}
use bduts.Tests.Data.{page_request, reply}
use bduts.Tests.Store.{Buckets, bolt, bolt-IsTransactional, bolt-HasBuckets}
use bduts.Tests.Codecs.{codec, codec-IsFaithful, greeting}

-- A hash of 40 bytes, whose four parts are 1…, 2…, 3… and 4…
abbrev ten : ℕ → Bytes → Bytes
ten n bs = n ∷ 0 ∷ 0 ∷ 0 ∷ 0 ∷ 0 ∷ 0 ∷ 0 ∷ 0 ∷ 0 ∷ bs

abbrev pub key : Bytes
key = ten 1 (ten 2 (ten 3 (ten 4 [])))

abbrev pub empty_disk : Disk
empty_disk = record { entries = ([], directory) ∷ []; full = false }

abbrev pub empty_cache : CachingProperties Buckets
empty_cache = record {
  db = [];
  disk = empty_disk;
  size = pos 0;
  max_file_size = pos 1000;
  untold = [];
}

abbrev pub noon : ℤ
noon = pos 63800000000000000000

abbrev pub stored_reply : Response
stored_reply = reply 200

greeting-Storable : Storable noon page_request stored_reply greeting empty_cache
unfolding load_request_directives load_response_directives int64 ◌+ℤ◌ split trim_left trim_right
greeting-Storable = record { fits = refl; asked = refl; told = refl; got = refl; shared = refl }

pub empty_disk-HasRoom : HasRoom key empty_disk
unfolding make_path
empty_disk-HasRoom = record { not_full = refl; clear = (tt, (tt, (tt, (tt, tt)))); free = tt }

-- A bucket whose page expired long ago
abbrev pub old_entry : Bucket
old_entry =
    put_in "usesKey" (3 ∷ 0 ∷ 0 ∷ 0 ∷ [])
      (put_in "pageMetadataKey" (0 ∷ 2 ∷ 0 ∷ 0 ∷ 0 ∷ 0 ∷ 0 ∷ 0 ∷ 0 ∷ 5 ∷ 0 ∷ 0 ∷ []) empty_bucket)

abbrev pub old_cache : CachingProperties Buckets
old_cache = record {
  db = (key, old_entry) ∷ [];
  disk = empty_disk;
  size = pos 2;
  max_file_size = pos 1000;
  untold = [];
}

delete_expired_cache-keeps_example :
    (e : CacheError) × (delete_expired_cache bolt codec noon old_cache
      ≡ ret (old_cache, (negsuc 0, some e)))
delete_expired_cache-keeps_example =
    delete_expired_cache-keeps bolt codec bolt-IsTransactional bolt-HasBuckets noon old_cache

abbrev comma_text : String
comma_text = "no-store, max-age=0"

abbrev hidden : Header
hidden = ("Cache-Control", "private; no-store" ∷ []) ∷ []

load_directives-listed_example :
    ((load_response_directives noon hidden).no_store ≡ listed "no-store" (cache_control hidden))
    × ((load_response_directives noon hidden).private_only
        ≡ listed "private" (cache_control hidden))
    × ((load_request_directives noon hidden).no_store ≡ listed "no-store" (cache_control hidden))
load_directives-listed_example = load_directives-listed noon hidden

pub stored_fresh :
    is_not_fresh noon
      (load_request_directives noon page_request.header)
      (load_response_directives noon stored_reply.header)
    ≡ false
unfolding is_not_fresh load_request_directives load_response_directives ◌+ℤ◌ split trim_left
    trim_right
stored_fresh = refl

pub key_named : key ≢ []
key_named e = ground (arith, e)

get-insert_page_in_cache_example :
    (c' : CachingProperties Buckets) × (after : Buckets) × (insert_page_in_cache bolt codec noon key
        page_request stored_reply greeting empty_cache
      ≡ (c', none))
    × (get_page_from_cache bolt codec noon noon key page_request c'
        ≡ ret (record c' { db = after }, ok greeting))
get-insert_page_in_cache_example =
    get-insert_page_in_cache bolt codec bolt-IsTransactional bolt-HasBuckets noon noon noon key
      page_request page_request stored_reply greeting empty_cache _ (7 ∷ []) codec-IsFaithful
      key_named refl greeting-Storable empty_disk-HasRoom refl refl stored_fresh

greeting-old-Storable : Storable noon page_request stored_reply greeting old_cache
unfolding load_request_directives load_response_directives int64 ◌+ℤ◌ split trim_left trim_right
greeting-old-Storable = record { fits = refl; asked = refl; told = refl; got = refl; shared = refl }

insert_page_in_cache-stale_example :
    (disk : Disk) × (insert_page_in_cache bolt codec noon key page_request stored_reply greeting
        old_cache
      ≡ (record old_cache { disk = disk }, none))
    × (read_file (key ∷ make_path key) disk ≡ some (7 ∷ []))
insert_page_in_cache-stale_example =
    insert_page_in_cache-stale bolt codec bolt-IsTransactional bolt-HasBuckets noon key page_request
      stored_reply greeting old_cache old_entry _ (7 ∷ []) codec-IsFaithful refl
      greeting-old-Storable empty_disk-HasRoom refl refl

insert_page_in_cache_cases_example :
    Storable noon page_request stored_reply greeting old_cache
    ⊎ ((e : CacheError) × (insert_page_in_cache bolt codec noon key page_request stored_reply
            greeting old_cache
          ≡ (old_cache, some e)))
insert_page_in_cache_cases_example =
    insert_page_in_cache_cases bolt codec noon key page_request stored_reply greeting old_cache

abbrev page_path : List Bytes
page_path = ten 4 [] ∷ ten 3 [] ∷ ten 2 [] ∷ ten 1 [] ∷ []

abbrev pub page_disk : Disk
page_disk = record {
  entries = (key ∷ page_path, file (7 ∷ [])) ∷ (page_path, directory) ∷ [];
  full = false;
}

abbrev pub page_meta : PageMetadata
page_meta = record {
  size = pos 2;
  response_directives = record no_response_directives { max_age = pos 63900000000000000000 };
}

abbrev pub page_db : Buckets
page_db =
    (
      key,
      put_in "usesKey" (255 ∷ 255 ∷ 255 ∷ 255 ∷ []) (
          put_in "pageMetadataKey"
            (0 ∷ 2 ∷ 0 ∷ 0 ∷ 0 ∷ 0 ∷ 0 ∷ 0 ∷ 0 ∷ 63900000000000000000 ∷ 0 ∷ 0 ∷ []) empty_bucket),
    )
    ∷ []

abbrev pub page_cache : CachingProperties Buckets
page_cache = record {
  db = page_db;
  disk = page_disk;
  size = pos 2;
  max_file_size = pos 1000;
  untold = [];
}

pub page-Cached : Cached bolt codec key page_meta 4294967295 greeting page_db page_disk
unfolding make_path read_file
page-Cached = record {
  entry = _;
  there = refl;
  meta_bytes = _;
  has_meta = refl;
  reads_meta = refl;
  has_uses = refl;
  page_bytes = 7 ∷ [];
  has_page = refl;
  reads_page = refl;
}

pub page_fresh :
    is_not_fresh noon
      (load_request_directives noon page_request.header)
      page_meta.response_directives
    ≡ false
unfolding is_not_fresh load_request_directives ◌+ℤ◌ split trim_left trim_right
page_fresh = refl

get_page_from_cache-Cached_example :
    (after : Buckets) × (get_page_from_cache bolt codec noon noon key page_request page_cache
      ≡ ret (record page_cache { db = after }, ok greeting))
    × Cached bolt codec key page_meta 0 greeting after page_disk
get_page_from_cache-Cached_example =
    get_page_from_cache-Cached bolt codec bolt-IsTransactional bolt-HasBuckets noon noon key
      page_request page_meta 4294967295 greeting page_cache page-Cached (omega arith) page_fresh

abbrev pub second_key : Bytes
second_key = ten 5 (ten 2 (ten 3 (ten 4 [])))

-- The page of the first key is on the disk, that of the second is not.
abbrev half_cache : CachingProperties Buckets
half_cache = record {
  db = (key, old_entry) ∷ (second_key, old_entry) ∷ [];
  disk = page_disk;
  size = pos 4;
  max_file_size = pos 1000;
  untold = [];
}

clear_cache-partial_example : clear_cache bolt codec half_cache ≡ (
  record half_cache {
    size = pos 2;
    untold = size_set (pos 2) ∷ pages_moved (negsuc 0) ∷ size_set (pos 2) ∷ [];
  },
  some (in_db (other_failure "no page")),
)
unfolding int64 ◌+ℤ◌ ◌-ℤ◌ read_metadata check_disk make_path
clear_cache-partial_example =
    clear_cache-partial bolt codec bolt-IsTransactional half_cache key second_key []
      ((second_key, old_entry) ∷ []) _ _ refl refl refl refl refl refl
