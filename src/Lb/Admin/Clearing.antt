-- ===== src/Lb/Admin/Clearing.antt =====
-- lb/adminHandlers.go, ClearCacheHandler: what the admin is told.
use bduts.Prelude.{ℕ, ◌≡◌, refl, Option, none, some}
use bduts.Http.{ResponseWriter, write_header}
use bduts.Cache.Bolt.{Bolt}
use bduts.Cache.Store.{Codec, CachingProperties, CacheError}
use bduts.Cache.Whole.{clear_cache}
use bduts.Lb.Admin.{clear_cache_handler}

-- The status that belongs to an outcome of ClearCache
abbrev pub status_of : Option CacheError → ℕ
status_of none = 204
status_of (some e) = 500

told_status :
    (o : Option CacheError) (client : ResponseWriter)
    → client.status ≡ none
    → (write_header 204 (elim o [ none ↦ client | some _ ↦ write_header 500 client ])).status
      ≡ some (status_of o)
unfolding write_header
told_status none client unsent = rw unsent refl
told_status (some e) client unsent = rw unsent refl

-- If no status was sent before, ClearCacheHandler's DELETE sends 500 where ClearCache fails and
-- 204 where it does not, and leaves the cache as ClearCache does.
clear_cache_handler-status :
    {Db : Type 0} (bolt : Bolt Db) (codec : Codec) (c : CachingProperties Db)
    (client : ResponseWriter)
    → client.status ≡ none
    → ((clear_cache_handler bolt codec "DELETE" c client).1.status
        ≡ some (status_of (clear_cache bolt codec c).1))
      × ((clear_cache_handler bolt codec "DELETE" c client).0 ≡ (clear_cache bolt codec c).0)
unfolding clear_cache_handler write_header
clear_cache_handler-status bolt codec c client unsent =
    (told_status (clear_cache bolt codec c).1 client unsent, refl)
