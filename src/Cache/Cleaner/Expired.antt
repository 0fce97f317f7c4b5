-- ===== src/Cache/Cleaner/Expired.antt =====
-- cache/cacheCleaner.go, deleteExpiredCache: what it removes.
use bduts.Prelude.{
  ◌≡◌, refl, subst, inl, inr, List, [], ◌∷◌, Option, none, some, Option-cases, Bool-cases, arith,
  All,
}
use bduts.Prelude.Int.{ℤ, pos, negsuc, int64_exact, ◌+ℤ◌}
use bduts.Prelude.Go.{ret}
use bduts.Cache.Directives.{is_expired}
use bduts.Cache.Disk.{Bytes}
use bduts.Cache.Bolt.{Bolt, IsTransactional, HasBuckets, no_page_to_delete}
use bduts.Cache.Store.{Codec, CachingProperties, CacheError, fail, in_db, null_size, bad_json}
use bduts.Cache.Remove.{metadata_at, remove_tx, remove_page_metadata, remove_page_from_cache}
use bduts.Cache.Cleaner.{ExpiredItem, expired_items, remove_items, delete_expired_cache}

module _ {Db : Type 0} (bolt : Bolt Db) (codec : Codec) (law : IsTransactional bolt)
    (has : HasBuckets bolt) where
  open bolt use {bucket, names}

  pub remove_page_metadata-missing :
      (key : Bytes) (c : CachingProperties Db)
      → bucket key c.db ≡ none
      → remove_page_metadata bolt codec key c ≡ (c, fail (in_db no_page_to_delete))
  unfolding remove_page_metadata remove_tx
  remove_page_metadata-missing key c missing =
      let undone =
        law.rolls_back (remove_tx bolt codec key) c.db c.db no_page_to_delete
          (rw (remove_tx, missing) refl) in
      rw (remove_page_metadata, undone, undone) refl

  remove_page_from_cache-missing :
      (key : Bytes) (c : CachingProperties Db)
      → bucket key c.db ≡ none
      → remove_page_from_cache bolt codec key c ≡ ret (c, fail (in_db no_page_to_delete))
  unfolding remove_page_from_cache
  remove_page_from_cache-missing key c missing =
      let gone = remove_page_metadata-missing key c missing in
      rw (remove_page_from_cache, gone, gone) refl

  abbrev HasNoKey : ExpiredItem → Type 0
  HasNoKey item = item.key ≡ []

  abbrev NoKeys : Option (List ExpiredItem) → Type 0
  NoKeys none = Unit
  NoKeys (some items) = All HasNoKey items

  expired_items-NoKeys :
      (now : ℤ) (db : Db) (keys : List Bytes) → NoKeys (expired_items bolt codec now db keys)
  unfolding expired_items
  expired_items-NoKeys now db [] = tt
  expired_items-NoKeys now db (name ∷ rest) =
      let ih = expired_items-NoKeys now db rest in
      elim (Option-cases (metadata_at bolt codec name db)) [
        | inl bad ↦ rw (expired_items, bad) tt
        | inr (info, read) ↦ elim (Option-cases (expired_items bolt codec now db rest)) [
          | inl bad ↦ rw (expired_items, read, bad) tt
          | inr (items, found) ↦
              let unnamed = subst NoKeys found ih in
              elim (Bool-cases (is_expired now info (pos 0))) [
                | inl late ↦ rw (expired_items, read, found, late) (refl, unnamed)
                | inr fresh ↦ rw (expired_items, read, found, fresh) unnamed
              ]
        ]
      ]

  remove_items-HasNoKey :
      (items : List ExpiredItem) (c : CachingProperties Db)
      → All HasNoKey items
      → remove_items bolt codec items (pos 0) c ≡ ret (c, pos 0)
  unfolding remove_items ◌+ℤ◌
  remove_items-HasNoKey [] c none_named = refl
  remove_items-HasNoKey (item ∷ items) c (unnamed, rest) =
      let missing : bucket item.key c.db ≡ none = rw unnamed (has.unnamed c.db) in
      rw (remove_page_from_cache-missing item.key c missing) (
        rw (int64_exact (pos 0 +ℤ pos 0) (omega arith) (omega arith))
          (remove_items-HasNoKey items c rest))

  -- The cleaner's deletion of expired pages never deletes anything, whatever is in the cache: the
  -- cache stays as it was and the result is -1 with an error. Bolt must roll back and keep its
  -- buckets as documented.
  pub delete_expired_cache-keeps :
      (now : ℤ) (c : CachingProperties Db)
      → (e : CacheError) × (delete_expired_cache bolt codec now c ≡ ret (c, (negsuc 0, some e)))
  unfolding delete_expired_cache
  delete_expired_cache-keeps now c =
      elim (Option-cases (expired_items bolt codec now c.db (names c.db))) [
        | inl bad ↦ (bad_json, rw (delete_expired_cache, bad) refl)
        | inr (items, found) ↦
            let unnamed = subst NoKeys found (expired_items-NoKeys now c.db (names c.db)) in
            (
              null_size,
              rw (delete_expired_cache, found, remove_items-HasNoKey items c unnamed) refl,
            )
      ]
