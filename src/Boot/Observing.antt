-- ===== src/Boot/Observing.antt =====
-- cache/cacheCleaner.go, Observe, as main.go starts it: GlobalMetrics is nil until http.Serve was called, so
-- that a removal that tells it something panics after its transaction, which ends the program.
use bduts.Prelude.{List, [], ◌∷◌, Option, none, some, if◌then◌else◌}
use bduts.Prelude.Int.{ℤ}
use bduts.Cache.Disk.{Bytes}
use bduts.Cache.Bolt.{Bolt}
use bduts.Cache.Store.{Codec, CachingProperties, Told}
use bduts.Cache.Remove.{remove_page_metadata}
use bduts.Cache.Cleaner.{ExpiredItem, LruItem, is_size_exceeded, expired_items, lru_items}
use bduts.Boot.{done, crashed, Site, Machine, Boot, ◌>>=◌, pure, lift, unpanicked}

module _ {Db Udb : Type 0} (bolt : Bolt Db) (codec : Codec) where
  open bolt use {names}

  abbrev pub heard_by_nil :
      CachingProperties Db → List Told → Boot (Site Db Udb) (CachingProperties Db)
  heard_by_nil c [] s = (done c, record s { cache_db = some c.db })
  heard_by_nil c (t ∷ earlier) s = (crashed, record s { cache_db = some c.db })

  -- removePageFromCache: it comes to the file only after it has told the metrics.
  abbrev pub removed_early :
      Bytes → CachingProperties Db → Boot (Site Db Udb) (CachingProperties Db)
  removed_early key c =
      let c' = (remove_page_metadata bolt codec key c).0 in heard_by_nil c' c'.untold

  unfoldable pub expired_early :
      List ExpiredItem → CachingProperties Db → Boot (Site Db Udb) (CachingProperties Db)
  unfolding remove_page_metadata
  expired_early [] c = pure c
  expired_early (item ∷ items) c = removed_early item.key c >>= expired_early items

  unfoldable pub lru_early :
      ℤ → List LruItem → CachingProperties Db → Boot (Site Db Udb) (CachingProperties Db)
  unfolding is_size_exceeded remove_page_metadata
  lru_early limit [] c = pure c
  lru_early limit (item ∷ items) c =
      let next = lru_early limit items in
      if is_size_exceeded limit c then removed_early item.key c >>= next else pure c

  -- The two deletions, where their items are found
  abbrev pub expired_found :
      Option (List ExpiredItem) → CachingProperties Db → Boot (Site Db Udb) (CachingProperties Db)
  expired_found none c = pure c
  expired_found (some items) c = expired_early items c

  abbrev pub lru_found :
      Machine
      → CachingProperties Db
      → Option (List LruItem)
      → Boot (Site Db Udb) (CachingProperties Db)
  lru_found m c none = pure c
  lru_found m c (some items) = lru_early (m.limit c.max_file_size) (m.sort items) c

  unfoldable pub tick_early :
      Machine → ℤ → CachingProperties Db → Boot (Site Db Udb) (CachingProperties Db)
  unfolding is_size_exceeded expired_items lru_items expired_early lru_early
  tick_early m now c =
      if is_size_exceeded (m.limit c.max_file_size) c
      then (do
        c' ← expired_found (expired_items bolt codec now c.db (names c.db)) c
        found ← lift (unpanicked (lru_items bolt codec c'.db (names c'.db)))
        lru_found m c' found)
      else pure c

  unfoldable pub observe_early :
      Machine → List ℤ → CachingProperties Db → Boot (Site Db Udb) (CachingProperties Db)
  unfolding tick_early
  observe_early m [] c = pure c
  observe_early m (now ∷ later) c = tick_early m now c >>= observe_early m later
