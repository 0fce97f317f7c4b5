-- ===== src/Cache/Cleaner.antt =====
-- cache/cacheCleaner.go: expired pages and seldom used ones are looked for and removed.
pub mod Expired
pub mod Seldom
pub mod Watching
use bduts.Prelude.{
  ℕ, zero, suc, ◌+◌, Bool, true, false, List, [], ◌∷◌, ◌++◌, Option, none, some, length, take, drop,
  if◌then◌else◌,
}
use bduts.Prelude.Int.{ℤ, pos, negsuc, int64, ◌+ℤ◌, ltb_ℤ}
use bduts.Prelude.Go.{Go, ret, panic, ◌>>=◌}
use bduts.Cache.Disk.{Bytes}
use bduts.Cache.Directives.{PageMetadata, is_zero, is_expired}
use bduts.Cache.Bolt.{Bolt, Bucket, DbError, value_not_found}
use bduts.Cache.Store.{
  CacheError, bad_json, null_size, in_db, Result, ok, fail, Codec, CachingProperties, uses_key,
  uint32,
}
use bduts.Cache.Remove.{metadata_at, remove_page_from_cache}

-- make([]byte, n)
abbrev pub make_bytes : ℕ → Bytes
make_bytes zero = []
make_bytes (suc n) = 0 ∷ make_bytes n

-- copy(dst, src): as many bytes as both have
abbrev pub copy_slice : Bytes → Bytes → Bytes
copy_slice [] src = []
copy_slice (x ∷ dst) [] = x ∷ dst
copy_slice (x ∷ dst) (y ∷ src) = y ∷ copy_slice dst src

pub record ExpiredItem : Type 0 where
  pub key : Bytes
  pub size : ℤ

pub record LruItem : Type 0 where
  pub key : Bytes
  pub uses : ℕ

-- The result of both deletions: the bytes that were removed, and the error
abbrev pub removed : ℤ → ℤ × Option CacheError
removed size = if is_zero size then (negsuc 0, some null_size) else (size, none)

abbrev pub size_of : Result PageMetadata → ℤ
size_of (ok meta) = meta.size
size_of (fail e) = pos 0

-- `limit` is the greatest size that isSizeExceeded lets pass: float64(p.Size) grows with p.Size, and
-- the product of maxFileSize and fillFactor is fixed.
unfoldable pub is_size_exceeded : {Db : Type 0} → ℤ → CachingProperties Db → Bool
is_size_exceeded limit c = ltb_ℤ limit c.size

module _ {Db : Type 0} (bolt : Bolt Db) (codec : Codec) where
  open bolt use {bucket, names}

  -- addExpiredKeys over the names; `none` is an error of Unmarshal. The copy of the name has length 0.
  unfoldable pub expired_items : ℤ → Db → List Bytes → Option (List ExpiredItem)
  unfolding is_expired
  expired_items now db [] = some []
  expired_items now db (name ∷ rest) =
      let items = expired_items now db rest in
      elim (metadata_at bolt codec name db) [
        | none ↦ none
        | some info ↦
            let item : ExpiredItem = record {
              key = copy_slice (make_bytes 0) name;
              size = info.size;
            } in
            elim items [
              | none ↦ none
              | some its ↦ some (if is_expired now info (pos 0) then item ∷ its else its)
            ]
      ]

  unfoldable pub remove_items :
      List ExpiredItem → ℤ → CachingProperties Db → Go (CachingProperties Db × ℤ)
  remove_items [] size c = ret (c, size)
  remove_items (item ∷ items) size c = do
    (c', r) ← remove_page_from_cache bolt codec item.key c
    remove_items items (int64 (size +ℤ size_of r)) c'

  unfoldable pub delete_expired_cache :
      ℤ → CachingProperties Db → Go (CachingProperties Db × (ℤ × Option CacheError))
  unfolding expired_items remove_items
  delete_expired_cache now c = elim (expired_items now c.db (names c.db)) [
    | none ↦ ret (c, (negsuc 0, some bad_json))
    | some items ↦ do (c', size) ← remove_items items (pos 0) c; ret (c', removed size)
  ]

  -- The items of deletePagesLRU; `none` says that a bucket has no counter of uses.
  unfoldable pub lru_items : Db → List Bytes → Go (Option (List LruItem))
  lru_items db [] = ret (some [])
  lru_items db (name ∷ rest) = elim (bucket name db) [
    | none ↦ ret none
    | some b ↦ elim (b uses_key) [
      | none ↦ ret none
      | some bytes ↦ do
        n ← uint32 bytes
        items ← lru_items db rest
        ret (elim items [
          | none ↦ none
          | some its ↦
              some (record { key = copy_slice (make_bytes (length name)) name; uses = n } ∷ its)
        ])
    ]
  ]

  -- The loop over the sorted items
  unfoldable pub remove_lru :
      ℤ → List LruItem → ℤ → CachingProperties Db → Go (CachingProperties Db × ℤ)
  unfolding is_size_exceeded
  remove_lru limit [] size c = ret (c, size)
  remove_lru limit (item ∷ items) size c =
      let next = remove_lru limit items in
      if is_size_exceeded limit c
      then (do
        (c', r) ← remove_page_from_cache bolt codec item.key c
        next (int64 (size +ℤ size_of r)) c')
      else ret (c, size)

  -- `sort` is sort.Slice by the uses, which leaves the order of equal ones open.
  unfoldable pub delete_pages_lru :
      (List LruItem → List LruItem)
      → ℤ
      → CachingProperties Db
      → Go (CachingProperties Db × (ℤ × Option CacheError))
  unfolding lru_items remove_lru
  delete_pages_lru sort limit c = do
    found ← lru_items c.db (names c.db)
    elim found [
      | none ↦ ret (c, (negsuc 0, some (in_db value_not_found)))
      | some items ↦ do (c', size) ← remove_lru limit (sort items) (pos 0) c; ret (c', removed size)
    ]

  abbrev pub after_expired :
      (List LruItem → List LruItem)
      → ℤ
      → CachingProperties Db × (ℤ × Option CacheError)
      → Go (CachingProperties Db)
  after_expired sort limit (c, r) = do done ← delete_pages_lru sort limit c; ret done.0

  -- What Observe does on a tick; the errors of the two deletions are logged.
  unfoldable pub observe_tick :
      (List LruItem → List LruItem) → ℤ → ℤ → CachingProperties Db → Go (CachingProperties Db)
  unfolding is_size_exceeded delete_expired_cache delete_pages_lru
  observe_tick sort limit now c =
      if is_size_exceeded limit c
      then delete_expired_cache now c >>= after_expired sort limit
      else ret c
