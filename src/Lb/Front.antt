-- ===== src/Lb/Front.antt =====
-- lb/lbHandlers.go, loadBalancerHandler and getPageHandler, lb/loadBalancer.go, isHTTPVersionSupported,
-- and lb/saveToCache.go: a request is refused, answered from the cache, or handed to backendHandler.
pub mod Serving
pub mod Timed
use bduts.Prelude.{
  ℕ, String, str_eq, Bool, true, false, ◌&&◌, List, Option, none, some, ltb, leb, if◌then◌else◌,
}
use bduts.Prelude.Int.{ℤ}
use bduts.Prelude.Go.{Go, ret, panic, ◌>>=◌}
use bduts.Http.{Request, Response, ResponseWriter, url_string, write, http_error, add_headers}
use bduts.Cache.Disk.{Bytes}
use bduts.Cache.Directives.{load_request_directives}
use bduts.Cache.Bolt.{Bolt}
use bduts.Cache.Store.{Page, Result, ok, fail, Codec, CachingProperties}
use bduts.Cache.Insert.{insert_page_in_cache}
use bduts.Cache.Read.{get_page_from_cache}
use bduts.Lb.Handler.{Handler, backend_handler}

-- http.ParseHTTPVersion gives 1 and 1 for this text only.
unfoldable pub is_http_version_supported : Request → Bool
is_http_version_supported req = str_eq req.proto "HTTP/1.1"

pub data Answered : Type 0 where
  bad_version from_cache unsatisfiable : Answered

-- The request is answered, with what is sent, or goes to backendHandler.
pub data Started : Type 0 where
  answered : Answered → ResponseWriter → Started
  forwarded : Handler → Started

-- `hash` is the hexadecimal text of crypto/sha1.
unfoldable pub request_hash_key : (String → Bytes) → Request → Bytes
request_hash_key hash req = hash (url_string req.url)

-- The flag says whether getPageHandler returned no error.
unfoldable pub write_page : ResponseWriter → Page → ResponseWriter × Bool
write_page rw page = write page.body (add_headers page.header rw)

module _ {Db : Type 0} (bolt : Bolt Db) (codec : Codec) where
  -- What getPageHandler does with the answer of GetPageFromCache
  unfoldable pub transfer :
      ResponseWriter
      → CachingProperties Db × Result Page
      → Option (CachingProperties Db) × (ResponseWriter × Bool)
  unfolding write_page
  transfer rw (c, ok page) = (some c, write_page rw page)
  transfer rw (c, fail e) = (some c, (rw, false))

  -- The properties of the cache may not be set.
  unfoldable pub get_page_handler :
      ℤ
      → ℤ
      → Bytes
      → Request
      → ResponseWriter
      → Option (CachingProperties Db)
      → Go (Option (CachingProperties Db) × (ResponseWriter × Bool))
  unfolding transfer
  get_page_handler loaded now key req rw none = ret (none, (rw, false))
  get_page_handler loaded now key req rw (some c) = do
    found ← get_page_from_cache bolt codec loaded now key req c
    ret (transfer rw found)

  -- OnlyIfCachedKey is put into the context of the request by GetPageFromCache.
  abbrev pub only_if_cached : ℤ → Request → Option (CachingProperties Db) → Bool
  only_if_cached loaded req none = false
  only_if_cached loaded req (some c) = (load_request_directives loaded req.header).only_if_cached

  unfoldable pub after_page : Bool → Request → ResponseWriter × Bool → Started
  after_page only req (rw, true) = answered from_cache rw
  after_page only req (rw, false) =
      if only
      then answered unsatisfiable
          (http_error "HTTP 504 Unsatisfiable Request (only-if-cached)" 504 rw)
      else forwarded (backend_handler rw req)

  unfoldable pub load_balancer_handler :
      (String → Bytes)
      → ℤ
      → ℤ
      → Request
      → ResponseWriter
      → Option (CachingProperties Db)
      → Go (Option (CachingProperties Db) × Started)
  unfolding is_http_version_supported request_hash_key get_page_handler after_page
  load_balancer_handler hash loaded now req rw cache =
      if is_http_version_supported req
      then (do
        (cache', page) ← get_page_handler loaded now (request_hash_key hash req) req rw cache
        ret (cache', after_page (only_if_cached loaded req cache) req page))
      else ret (cache, answered bad_version (http_error "Expected HTTP/1.1" 505 rw))

  -- The goroutine of SaveToCache, whose errors are logged; the key is the hash of the request as it
  -- came, from its context.
  unfoldable pub save_to_cache :
      ℤ → Bytes → Request → Response → String → CachingProperties Db → CachingProperties Db
  save_to_cache now key req resp bytes c =
      if leb 200 resp.status_code && ltb resp.status_code 400
      then (insert_page_in_cache bolt codec now key req resp
          (record { body = bytes; header = resp.header }) c).0
      else c
