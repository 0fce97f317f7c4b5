-- ===== src/Cache/Cleaner/Seldom.antt =====
-- cache/cacheCleaner.go, deletePagesLRU: which pages it removes, and when it stops.
use bduts.Prelude.{
  ◌≤◌, ◌≡◌, refl, ap, ◌⊎◌, inl, inr, false, List, [], ◌∷◌, ◌++◌, none, some, length, All, All-split,
  Bool-cases, subst,
}
use bduts.Prelude.Int.{ℤ, pos, int64, ◌+ℤ◌}
use bduts.Prelude.Go.{ret}
use bduts.Cache.Disk.{Bytes}
use bduts.Cache.Disk.Removing.{remove_page_from_disk-returns}
use bduts.Cache.Directives.{PageMetadata}
use bduts.Cache.Bolt.{Bolt}
use bduts.Cache.Store.{Codec, CachingProperties, Result, ok, fail, on_disk}
use bduts.Cache.Remove.{remove_page_metadata, remove_page_from_cache}
use bduts.Cache.Cleaner.{
  LruItem, is_size_exceeded, size_of, remove_lru, lru_items, delete_pages_lru, removed,
}

abbrev pub IsLong : LruItem → Type 0
IsLong item = 40 ≤ length item.key

-- The uses do not decrease along the list.
abbrev pub IsSorted : List LruItem → Type 0
IsSorted [] = Unit {0}
IsSorted (x ∷ xs) = All (λ y. x.uses ≤ y.uses) xs × IsSorted xs

-- No item of the first list has more uses than one of the second.
abbrev pub Below : List LruItem → List LruItem → Type 0
Below xs ys = All (λ x. All (λ y. x.uses ≤ y.uses) ys) xs

IsSorted-Below : (xs ys : List LruItem) → IsSorted (xs ++ ys) → Below xs ys
IsSorted-Below [] ys s = tt
IsSorted-Below (x ∷ xs) ys s = ((All-split _ xs ys s.0).1, IsSorted-Below xs ys s.1)

module _ {Db : Type 0} (bolt : Bolt Db) (codec : Codec) where
  open bolt use {names}

  remove_page_from_cache-returns :
      (key : Bytes) (c : CachingProperties Db)
      → 40 ≤ length key
      → (r : CachingProperties Db × Result PageMetadata) × (remove_page_from_cache bolt codec key c
          ≡ ret r)
  unfolding remove_page_from_cache
  remove_page_from_cache-returns key c long = by_result (remove_page_metadata bolt codec key c) refl
    where
      by_result :
          (m : CachingProperties Db × Result PageMetadata)
          → remove_page_metadata bolt codec key c ≡ m
          → (r : CachingProperties Db × Result PageMetadata) × (remove_page_from_cache bolt codec
                key c
              ≡ ret r)
      by_result (c', fail e) found = ((c', fail e), rw (remove_page_from_cache, found, found) refl)
      by_result (c', ok meta) found =
          let ((d, o), gone) = remove_page_from_disk-returns key c'.disk long in
          (
            (record c' { disk = d }, elim o [ some e ↦ fail (on_disk e) | none ↦ ok meta ]),
            rw (remove_page_from_cache, found, found, gone) refl,
          )

  -- The pages of the items are removed one after the other, as far as they can be.
  abbrev pub Removes : List LruItem → CachingProperties Db → CachingProperties Db → Type 0
  Removes [] c c' = c ≡ c'
  Removes (item ∷ items) c c' =
      (r : CachingProperties Db × Result PageMetadata) × (remove_page_from_cache bolt codec item.key
          c
        ≡ ret r)
      × Removes items r.0 c'

  pub record Stopped (limit : ℤ) (items : List LruItem) (size : ℤ) (c : CachingProperties Db)
      : Type 0 where
    pub after : CachingProperties Db
    pub bytes : ℤ
    pub taken : List LruItem
    pub left : List LruItem
    pub runs : remove_lru bolt codec limit items size c ≡ ret (after, bytes)
    pub split : items ≡ taken ++ left
    pub steps : Removes taken c after
    pub enough : (is_size_exceeded limit after ≡ false) ⊎ (left ≡ [])

  remove_lru-Stopped :
      (limit : ℤ) (items : List LruItem) (size : ℤ) (c : CachingProperties Db)
      → All IsLong items
      → Stopped limit items size c
  unfolding remove_lru
  remove_lru-Stopped limit [] size c long = record {
    after = c;
    bytes = size;
    taken = [];
    left = [];
    runs = refl;
    split = refl;
    steps = refl;
    enough = inr refl;
  }
  remove_lru-Stopped limit (item ∷ items) size c (long, rest) =
      elim (Bool-cases (is_size_exceeded limit c)) [
        | inl over ↦
            let (r, gone) = remove_page_from_cache-returns item.key c long in
            let ih = remove_lru-Stopped limit items (int64 (size +ℤ size_of r.1)) r.0 rest in
            record {
              after = ih.after;
              bytes = ih.bytes;
              taken = item ∷ ih.taken;
              left = ih.left;
              runs = rw (remove_lru, over, gone) ih.runs;
              split = ap (◌∷◌ item) ih.split;
              steps = (r, gone, ih.steps);
              enough = ih.enough;
            }
        | inr fine ↦ record {
          after = c;
          bytes = size;
          taken = [];
          left = item ∷ items;
          runs = rw (remove_lru, fine) refl;
          split = refl;
          steps = refl;
          enough = inl fine;
        }
      ]

  -- If every bucket has a counter of uses, all names have 40 bytes or more and the sort has
  -- sorted, deletePagesLRU ends without a panic: it has removed, or tried to remove, the pages of
  -- a first part of the sorted list, none of which was used more often than one that is left, and
  -- it has stopped because the size is not exceeded any more or because none is left.
  pub delete_pages_lru-Stopped :
      (sort : List LruItem → List LruItem) (limit : ℤ) (c : CachingProperties Db)
      (items : List LruItem)
      → lru_items bolt codec c.db (names c.db) ≡ ret (some items)
      → IsSorted (sort items)
      → All IsLong (sort items)
      → (k : Stopped limit (sort items) (pos 0) c) × (delete_pages_lru bolt codec sort limit c
          ≡ ret (k.after, removed k.bytes))
        × Below k.taken k.left
  unfolding delete_pages_lru
  delete_pages_lru-Stopped sort limit c items found sorted long =
      let k = remove_lru-Stopped limit (sort items) (pos 0) c long in
      (
        k,
        rw (delete_pages_lru, found, k.runs) refl,
        IsSorted-Below k.taken k.left (subst IsSorted k.split sorted),
      )
