-- ===== src/Cache/Store.antt =====
-- cache/cache.go: the state of the cache, pages and errors, and the counter of uses.
use bduts.Prelude.{
  ℕ, ◌+◌, ◌*◌, ◌/◌, ◌%◌, String, Bool, true, false, List, [], ◌∷◌, Option, none, some,
}
use bduts.Prelude.Int.{ℤ, int64, ◌+ℤ◌}
use bduts.Prelude.Go.{Go, ret, panic}
use bduts.Http.{Header}
use bduts.Cache.Disk.{Bytes, Disk, DiskError, not_exist}
use bduts.Cache.Directives.{PageMetadata}
use bduts.Cache.Bolt.{DbError, bucket_exists}

pub record Page : Type 0 where
  pub body : String
  pub header : Header

pub data CacheError : Type 0 where
  size_exceeded not_storable not_fresh bad_json null_size : CacheError
  in_db : DbError → CacheError
  on_disk : DiskError → CacheError

pub data Result (A : Type 0) : Type 0 where
  ok : A → Result A
  fail : CacheError → Result A

-- encoding/json on metadata and pages; Marshal gives no zero byte.
pub record Codec : Type 0 where
  pub marshal_meta : PageMetadata → Option Bytes
  pub unmarshal_meta : Bytes → Option PageMetadata
  pub marshal_page : Page → Option Bytes
  pub unmarshal_page : Bytes → Option Page

-- A call that tells the metrics about the cache: CacheSize.Set, and UpdateCachePagesCount
pub data Told : Type 0 where
  size_set pages_moved : ℤ → Told

-- CachingProperties, with the disk that its pages are on and the limit of its cleaner. The number of
-- pages is set at the start and not used after. `untold` has the calls of the metrics that an operation
-- makes, the last one first; Telling makes them.
pub record CachingProperties (Db : Type 0) : Type 0 where
  pub db : Db
  pub disk : Disk
  pub size : ℤ
  pub max_file_size : ℤ
  pub untold : List Told

abbrev pub tell : {Db : Type 0} → Told → CachingProperties Db → CachingProperties Db
tell t c = record c { untold = t ∷ c.untold }

abbrev pub meta_key : String
meta_key = "pageMetadataKey"

abbrev pub uses_key : String
uses_key = "usesKey"

-- binary.LittleEndian.PutUint32 and Uint32
abbrev pub put_uint32 : ℕ → Bytes
put_uint32 n = n % 256 ∷ n / 256 % 256 ∷ n / 65536 % 256 ∷ n / 16777216 % 256 ∷ []

abbrev pub uint32 : Bytes → Go ℕ
uint32 (a ∷ b ∷ c ∷ d ∷ rest) = ret (a + 256 * b + 65536 * c + 16777216 * d)
uint32 _ = panic

-- errors.Is(err, bolt.ErrBucketExists)
abbrev pub is_bucket_exists : DbError → Bool
is_bucket_exists bucket_exists = true
is_bucket_exists _ = false

-- errors.Is(err, os.ErrNotExist)
abbrev pub is_not_exist : CacheError → Bool
is_not_exist (on_disk not_exist) = true
is_not_exist _ = false

abbrev pub disk_error : Option DiskError → Option CacheError
disk_error none = none
disk_error (some e) = some (on_disk e)

unfoldable pub increment_size : {Db : Type 0} → ℤ → CachingProperties Db → CachingProperties Db
increment_size delta c =
    let size = int64 (c.size +ℤ delta) in tell (size_set size) (record c { size = size })
