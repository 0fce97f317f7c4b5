-- ===== src/Cache/Whole/Clearing.antt =====
-- cache/cache.go, ClearCache: what a failure in the middle leaves.
use bduts.Prelude.{◌≡◌, refl, ap, ◌∙◌, inr, true, false, List, ◌∷◌, none, some}
use bduts.Prelude.Int.{ℤ, pos, int64, ◌+ℤ◌, ◌-ℤ◌}
use bduts.Cache.Disk.{Bytes}
use bduts.Cache.Directives.{PageMetadata}
use bduts.Cache.Bolt.{Bolt, other_failure, IsTransactional}
use bduts.Cache.Store.{in_db, Codec, CachingProperties, size_set, pages_moved, increment_size}
use bduts.Cache.Whole.{after_delete, check_disk, read_metadata, clear_buckets, clear_cache}

module _ {Db : Type 0} (bolt : Bolt Db) (codec : Codec) where
  open bolt use {names, delete_bucket}

  -- What ClearCache has done to its properties when a page of size `size` is deleted
  abbrev pub without_page : ℤ → CachingProperties Db → CachingProperties Db
  without_page size c =
      let left = int64 (c.size +ℤ (pos 0 -ℤ size)) in
      record c { size = left; untold = pages_moved (pos 0 -ℤ pos 1) ∷ size_set left ∷ c.untold }

  -- A bucket whose page is on the disk is deleted, and Size is reduced.
  clear_buckets-present :
      (a : Bytes) (rest : List Bytes) (c : CachingProperties Db) (db db' : Db) (m : PageMetadata)
      → read_metadata bolt codec a db ≡ inr m
      → check_disk a c.disk ≡ true
      → delete_bucket a db ≡ (db', none)
      → clear_buckets bolt codec (a ∷ rest) c db
        ≡ clear_buckets bolt codec rest (without_page m.size c) db'
  unfolding clear_buckets increment_size
  clear_buckets-present a rest c db db' m read here gone =
      rw (clear_buckets, read, here)
        (ap (after_delete bolt codec (clear_buckets bolt codec rest) (without_page m.size c)) gone)

  -- One whose page is not there ends the transaction.
  clear_buckets-lost :
      (a : Bytes) (rest : List Bytes) (c : CachingProperties Db) (db : Db) (m : PageMetadata)
      → read_metadata bolt codec a db ≡ inr m
      → check_disk a c.disk ≡ false
      → clear_buckets bolt codec (a ∷ rest) c db ≡ ((db, c), some (other_failure "no page"))
  unfolding clear_buckets
  clear_buckets-lost a rest c db m read lost = rw (clear_buckets, read, lost) refl

  -- If ClearCache deletes a bucket and then comes to one whose page is not on the disk, it fails,
  -- database and disk stay as they were, and Size, also in the metrics, has lost the size of the
  -- first page all the same, and the number of pages in the metrics has lost one. Bolt must roll
  -- back as documented.
  pub clear_cache-partial :
      (law : IsTransactional bolt) (c : CachingProperties Db) (a b : Bytes) (rest : List Bytes)
      (db' : Db) (m n : PageMetadata)
      → names c.db ≡ a ∷ b ∷ rest
      → read_metadata bolt codec a c.db ≡ inr m
      → check_disk a c.disk ≡ true
      → delete_bucket a c.db ≡ (db', none)
      → read_metadata bolt codec b db' ≡ inr n
      → check_disk b c.disk ≡ false
      → let left = int64 (c.size +ℤ (pos 0 -ℤ m.size)) in
        clear_cache bolt codec c ≡ (
          record c {
            size = left;
            untold = size_set left ∷ pages_moved (pos 0 -ℤ pos 1) ∷ size_set left ∷ c.untold;
          },
          some (in_db (other_failure "no page")),
        )
  unfolding clear_cache
  clear_cache-partial law c a b rest db' m n named read here gone read' lost =
      let run =
        clear_buckets-present a (b ∷ rest) c c.db db' m read here gone
        ∙ clear_buckets-lost b rest (without_page m.size c) db' n read' lost in
      let undone =
        law.rolls_back (λ db. (db', some (other_failure "no page"))) c.db db'
          (other_failure "no page") refl in
      rw (clear_cache, named, run, undone) refl
