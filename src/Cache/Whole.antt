-- ===== src/Cache/Whole.antt =====
-- cache/cache.go, CalculateSize and ClearCache: the operations on the whole cache.
pub mod Clearing
use bduts.Prelude.{
  ℕ, String, Bool, true, false, List, [], ◌∷◌, ◌⊎◌, inl, inr, Option, none, some, if◌then◌else◌,
}
use bduts.Prelude.Int.{ℤ, pos, int64, ◌+ℤ◌, ◌-ℤ◌}
use bduts.Prelude.Go.{Go, ret, panic}
use bduts.Cache.Disk.{Bytes, Disk, Node, node, make_path}
use bduts.Cache.Directives.{PageMetadata}
use bduts.Cache.Bolt.{Bolt, DbError, no_record, other_failure}
use bduts.Cache.Store.{
  CacheError, in_db, Codec, CachingProperties, meta_key, tell, size_set, pages_moved,
  increment_size,
}

-- checkDisk: os.Stat of the page
unfoldable pub check_disk : Bytes → Disk → Bool
unfolding make_path
check_disk hash d = elim (node (hash ∷ make_path hash) d) [ none ↦ false | some n ↦ true ]

-- filepath.WalkDir with os.RemoveAll on everything but the directory of the pages itself
abbrev pub only_root : List (List Bytes × Node) → List (List Bytes × Node)
only_root [] = []
only_root (([], n) ∷ es) = ([], n) ∷ only_root es
only_root ((x ∷ p, n) ∷ es) = only_root es

module _ {Db : Type 0} (bolt : Bolt Db) (codec : Codec) where
  open bolt use {bucket, names, delete_bucket, update}
  open codec use {unmarshal_meta}

  abbrev pub decoded : Option Bytes → DbError ⊎ PageMetadata
  decoded none = inl no_record
  decoded (some m) = elim (unmarshal_meta m) [
    | none ↦ inl (other_failure "json")
    | some meta ↦ inr meta
  ]

  -- Reading the metadata of a bucket, with the errors of ForEach's function
  unfoldable pub read_metadata : Bytes → Db → DbError ⊎ PageMetadata
  read_metadata name db = elim (bucket name db) [
    | none ↦ inl no_record
    | some b ↦ decoded (b meta_key)
  ]

  -- The sum that CalculateSize comes to; a page that is not on the disk does not count.
  unfoldable pub total_size : List Bytes → ℤ → Db → Disk → DbError ⊎ ℤ
  unfolding read_metadata check_disk
  total_size [] size db d = inr size
  total_size (name ∷ rest) size db d =
      let next : ℤ → DbError ⊎ ℤ = λ n. total_size rest n db d in
      elim (read_metadata name db) [
        | inl e ↦ inl e
        | inr meta ↦ next (if check_disk name d then int64 (size +ℤ meta.size) else size)
      ]

  -- An error of View panics.
  unfoldable pub calculate_size : CachingProperties Db → Go (CachingProperties Db)
  unfolding total_size
  calculate_size c = elim (total_size (names c.db) (pos 0) c.db c.disk) [
    | inl e ↦ panic
    | inr size ↦ ret (record c { size = size })
  ]

  -- The database of the transaction, the cache with what is not undone with it, and an error
  abbrev pub Cleared : Type 0
  Cleared = (Db × CachingProperties Db) × Option DbError

  -- `return tx.DeleteBucket(name)`, and ForEach going on
  abbrev pub after_delete :
      (CachingProperties Db → Db → Cleared) → CachingProperties Db → Db × Option DbError → Cleared
  after_delete next c (db, some e) = ((db, c), some e)
  after_delete next c (db, none) = next c db

  -- What the transaction of ClearCache comes to. Bolt leaves open what ForEach meets after a deletion;
  -- here it meets each name that was there at first, once.
  unfoldable pub clear_buckets : List Bytes → CachingProperties Db → Db → Cleared
  unfolding read_metadata check_disk increment_size
  clear_buckets [] c db = ((db, c), none)
  clear_buckets (name ∷ rest) c db =
      let next = clear_buckets rest in
      elim (read_metadata name db) [
        | inl e ↦ ((db, c), some e)
        | inr meta ↦
            if check_disk name c.disk
            then after_delete next
                (tell (pages_moved (pos 0 -ℤ pos 1)) (increment_size (pos 0 -ℤ meta.size) c))
                (delete_bucket name db)
            else ((db, c), some (other_failure "no page"))
      ]

  abbrev pub cleared_disk : CachingProperties Db → Disk
  cleared_disk c = record c.disk { entries = only_root c.disk.entries }

  abbrev pub settled :
      CachingProperties Db → Db × Option DbError → CachingProperties Db × Option CacheError
  settled c (db, some e) = (record c { db = db }, some (in_db e))
  settled c (db, none) = (record c { db = db; disk = cleared_disk c }, none)

  -- IncrementSize is called inside the transaction, and is not undone with it; CacheSize is set after
  -- it, whether or not there was an error.
  abbrev pub finished : CachingProperties Db → Cleared → CachingProperties Db × Option CacheError
  finished c ((db, c'), e) = settled (tell (size_set c'.size) c') (update (λ x. (db, e)) c.db)

  unfoldable pub clear_cache : CachingProperties Db → CachingProperties Db × Option CacheError
  unfolding clear_buckets
  clear_cache c = finished c (clear_buckets (names c.db) c c.db)
