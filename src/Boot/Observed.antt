-- ===== src/Boot/Observed.antt =====
-- cache/cacheCleaner.go, Observe, before http.Serve: the file of the users and the pages stay.
use bduts.Prelude.{Bool, refl, true, false, List, [], ◌∷◌, Option, none, some, if◌then◌else◌}
use bduts.Prelude.Int.{ℤ}
use bduts.Cache.Bolt.{Bolt}
use bduts.Cache.Disk.{Bytes, node}
use bduts.Cache.Store.{Codec, CachingProperties, Told}
use bduts.Cache.Remove.{remove_page_metadata}
use bduts.Cache.Cleaner.{ExpiredItem, LruItem, is_size_exceeded, expired_items, lru_items}
use bduts.Boot.{done, Site, Machine, Boot, pure, unpanicked}
use bduts.Boot.Steps.{Prepares, Prepares-bind, lift-Prepares, first_refl, unpanicked-early}
use bduts.Boot.Observing.{
  heard_by_nil, removed_early, expired_early, lru_early, expired_found, lru_found, tick_early,
  observe_early,
}

module _ {Db Udb : Type 0} (bolt : Bolt Db) (codec : Codec) where
  open bolt use {names}

  heard_by_nil-Prepares :
      (c : CachingProperties Db) (ts : List Told)
      → Prepares (heard_by_nil {Udb = Udb} bolt codec c ts)
  heard_by_nil-Prepares c [] = record {
    kept = record {
      keeps =
          λ s. record { users = first_refl s.users_db; pages = λ p. first_refl (node p s.disk) };
    };
    users = λ s. refl;
    early = λ s. refl;
  }
  heard_by_nil-Prepares c (t ∷ earlier) = record {
    kept = record {
      keeps =
          λ s. record { users = first_refl s.users_db; pages = λ p. first_refl (node p s.disk) };
    };
    users = λ s. refl;
    early = λ s. refl;
  }

  removed_early-Prepares :
      (key : Bytes) (c : CachingProperties Db)
      → Prepares (removed_early {Udb = Udb} bolt codec key c)
  removed_early-Prepares key c =
      let c' = (remove_page_metadata bolt codec key c).0 in heard_by_nil-Prepares c' c'.untold

  expired_early-Prepares :
      (items : List ExpiredItem) (c : CachingProperties Db)
      → Prepares (expired_early {Udb = Udb} bolt codec items c)
  unfolding expired_early
  expired_early-Prepares [] c = lift-Prepares (done c) refl
  expired_early-Prepares (item ∷ items) c =
      Prepares-bind _ _ (removed_early-Prepares item.key c) (expired_early-Prepares items)

  if-Prepares :
      (b : Bool) (c : CachingProperties Db) (m : Boot (Site Db Udb) (CachingProperties Db))
      → Prepares m
      → Prepares (if b then m else pure c)
  if-Prepares true c m h = h
  if-Prepares false c m h = lift-Prepares (done c) refl

  lru_early-Prepares :
      (limit : ℤ) (items : List LruItem) (c : CachingProperties Db)
      → Prepares (lru_early {Udb = Udb} bolt codec limit items c)
  unfolding lru_early
  lru_early-Prepares limit [] c = lift-Prepares (done c) refl
  lru_early-Prepares limit (item ∷ items) c =
      if-Prepares (is_size_exceeded limit c) c _
        (Prepares-bind _ _ (removed_early-Prepares item.key c) (lru_early-Prepares limit items))

  expired_found-Prepares :
      (found : Option (List ExpiredItem)) (c : CachingProperties Db)
      → Prepares (expired_found {Udb = Udb} bolt codec found c)
  expired_found-Prepares none c = lift-Prepares (done c) refl
  expired_found-Prepares (some items) c = expired_early-Prepares items c

  lru_found-Prepares :
      (m : Machine) (c : CachingProperties Db) (found : Option (List LruItem))
      → Prepares (lru_found {Udb = Udb} bolt codec m c found)
  lru_found-Prepares m c none = lift-Prepares (done c) refl
  lru_found-Prepares m c (some items) = lru_early-Prepares _ (m.sort items) c

  tick_early-Prepares :
      (m : Machine) (now : ℤ) (c : CachingProperties Db)
      → Prepares (tick_early {Udb = Udb} bolt codec m now c)
  unfolding tick_early
  tick_early-Prepares m now c = if-Prepares (is_size_exceeded (m.limit c.max_file_size) c) c _ (
      Prepares-bind _ _ (expired_found-Prepares (expired_items bolt codec now c.db (names c.db)) c)
        λ c'.
          Prepares-bind _ _
            (lift-Prepares (unpanicked (lru_items bolt codec c'.db (names c'.db)))
              (unpanicked-early _))
            (lru_found-Prepares m c'))

  pub observe_early-Prepares :
      (m : Machine) (ticks : List ℤ) (c : CachingProperties Db)
      → Prepares (observe_early {Udb = Udb} bolt codec m ticks c)
  unfolding observe_early
  observe_early-Prepares m [] c = lift-Prepares (done c) refl
  observe_early-Prepares m (now ∷ later) c =
      Prepares-bind _ _ (tick_early-Prepares m now c) (observe_early-Prepares m later)
