-- ===== src/Tests/Cleaning.antt =====
-- The theorem on a tick of the cleaner, at a cache of two pages.
use bduts.Prelude.{
  ℕ, ◌≡◌, refl, true, false, List, [], ◌∷◌, some, arith, leb, All, if◌then◌else◌, ◌⊎◌,
}
use bduts.Prelude.Int.{pos}
use bduts.Prelude.Go.{ret}
use bduts.Cache.Bolt.{Bucket, put_in}
use bduts.Cache.Store.{CachingProperties}
use bduts.Cache.Cleaner.{LruItem, lru_items, is_size_exceeded, observe_tick}
use bduts.Cache.Cleaner.Seldom.{IsLong, IsSorted, Below, Stopped}
use bduts.Cache.Cleaner.Watching.{observe_tick-Stopped}
use bduts.Metrics.{unmade, Metrics, zeroed}
use bduts.Cache.Telling.{reported, after_all, unheard}
use bduts.Tests.Store.{Buckets, bolt, bolt-IsTransactional, bolt-HasBuckets}
use bduts.Tests.Codecs.{codec}
use bduts.Tests.Caches.{key, noon, second_key, old_entry, page_disk}

-- The second page was used less often.
abbrev seldom_entry : Bucket
seldom_entry = put_in "usesKey" (1 ∷ 0 ∷ 0 ∷ 0 ∷ []) old_entry

abbrev two_pages : CachingProperties Buckets
two_pages = record {
  db = (key, old_entry) ∷ (second_key, seldom_entry) ∷ [];
  disk = page_disk;
  size = pos 4;
  max_file_size = pos 1000;
  untold = [];
}

abbrev insert_item : LruItem → List LruItem → List LruItem
insert_item x [] = x ∷ []
insert_item x (y ∷ ys) =
    let rest = insert_item x ys in if leb x.uses y.uses then x ∷ y ∷ ys else y ∷ rest

abbrev sort_items : List LruItem → List LruItem
sort_items [] = []
sort_items (x ∷ xs) = insert_item x (sort_items xs)

abbrev two_items : List LruItem
two_items = record { key = key; uses = 3 } ∷ record { key = second_key; uses = 1 } ∷ []

two_items_found : lru_items bolt codec two_pages.db (key ∷ second_key ∷ []) ≡ ret (some two_items)
unfolding lru_items
two_items_found = refl

two_items-IsSorted : IsSorted (sort_items two_items)
two_items-IsSorted = ((omega arith, tt), (tt, tt))

two_items-IsLong : All IsLong (sort_items two_items)
two_items-IsLong = (omega arith, (omega arith, tt))

abbrev made : Metrics ℕ
made = zeroed

observe_tick-Stopped_example :
    let tick = observe_tick bolt codec sort_items (pos 2) noon two_pages in
    ((is_size_exceeded (pos 2) two_pages ≡ false) × (tick ≡ ret two_pages))
    ⊎ ((is_size_exceeded (pos 2) two_pages ≡ true)
        × (k : Stopped bolt codec (pos 2) (sort_items two_items) (pos 0) two_pages) × (tick
            ≡ ret k.after)
        × (reported tick (some made)
            ≡ ret (record k.after { untold = [] }, some (after_all k.after.untold made)))
        × (reported tick (unmade {F = ℕ}) ≡ unheard k.after k.after.untold)
        × Below k.taken k.left)
observe_tick-Stopped_example =
    observe_tick-Stopped bolt codec bolt-IsTransactional bolt-HasBuckets sort_items (pos 2) noon
      two_pages two_items made two_items_found two_items-IsSorted two_items-IsLong
