-- ===== src/Cache/Cleaner/Watching.antt =====
-- cache/cacheCleaner.go, Observe: what one tick leaves of the cache.
use bduts.Metrics.{unmade, Metrics}
use bduts.Cache.Telling.{reported, after_all, unheard, reported-some, reported-none}
use bduts.Prelude.{◌≡◌, refl, ap, ◌∙◌, true, false, List, [], some, All, ◌⊎◌, inl, inr, Bool-cases}
use bduts.Prelude.Int.{ℤ, pos}
use bduts.Prelude.Go.{Go, ret, ◌>>=◌}
use bduts.Cache.Bolt.{Bolt, IsTransactional, HasBuckets}
use bduts.Cache.Store.{Codec, CachingProperties}
use bduts.Cache.Cleaner.{LruItem, is_size_exceeded, lru_items, observe_tick}
use bduts.Cache.Cleaner.Expired.{delete_expired_cache-keeps}
use bduts.Cache.Cleaner.Seldom.{IsLong, IsSorted, Below, Stopped, delete_pages_lru-Stopped}

module _ {Db : Type 0} (bolt : Bolt Db) (codec : Codec) (law : IsTransactional bolt)
    (has : HasBuckets bolt) where
  open bolt use {names}

  abbrev without_result : {R : Type 0} → CachingProperties Db × R → Go (CachingProperties Db)
  without_result r = ret r.0

  -- A tick of Observe changes nothing while the size is not exceeded. Where it is, if every bucket
  -- has a counter of uses, all names have 40 bytes or more and the sort has sorted, then with
  -- GlobalMetrics made the tick ends without a panic: it has removed, or tried to remove, the
  -- pages of a first part of the sorted list, none of which was used more often than one that is
  -- left, it has stopped because the size is not exceeded any more or because none is left, and it
  -- has told the metrics what the removals tell. While GlobalMetrics is nil it panics exactly if
  -- there is something to tell. Bolt must roll back and keep its buckets as documented.
  pub observe_tick-Stopped :
      {F : Type 0} (sort : List LruItem → List LruItem) (limit now : ℤ) (c : CachingProperties Db)
      (items : List LruItem) (m : Metrics F)
      → lru_items bolt codec c.db (names c.db) ≡ ret (some items)
      → IsSorted (sort items)
      → All IsLong (sort items)
      → let tick = observe_tick bolt codec sort limit now c in
        ((is_size_exceeded limit c ≡ false) × (tick ≡ ret c))
        ⊎ ((is_size_exceeded limit c ≡ true)
            × (k : Stopped bolt codec limit (sort items) (pos 0) c) × (tick ≡ ret k.after)
            × (reported tick (some m)
                ≡ ret (record k.after { untold = [] }, some (after_all k.after.untold m)))
            × (reported tick (unmade {F = F}) ≡ unheard k.after k.after.untold)
            × Below k.taken k.left)
  unfolding observe_tick
  observe_tick-Stopped {F} sort limit now c items m found sorted long =
      elim (Bool-cases (is_size_exceeded limit c)) [
        | inr fine ↦ inl (fine, rw fine refl)
        | inl over ↦
            let (e, kept) = delete_expired_cache-keeps bolt codec law has now c in
            let (k, done, order) =
              delete_pages_lru-Stopped bolt codec sort limit c items found sorted long in
            let ends : observe_tick bolt codec sort limit now c ≡ ret k.after =
              rw (observe_tick, over, kept) (ap (λ o. o >>= without_result) done) in
            inr (
              over,
              k,
              ends,
              ap (λ r. reported r (some m)) ends ∙ reported-some k.after m,
              ap (λ r. reported r (unmade {F = F})) ends ∙ reported-none k.after,
              order,
            )
      ]
