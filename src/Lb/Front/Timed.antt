-- ===== src/Lb/Front/Timed.antt =====
-- lb/lbHandlers.go, LoadBalancerHandler, loadBalancerHandler and getPageHandler with their metrics and
-- timers (timer/timer.go, metrics/handlerFunc.go).
pub mod Before
pub mod Counting
pub mod Trips
use Prim.Native.String.{len}
use bduts.Prelude.{
  ℕ, suc, ◌+◌, String, Bool, true, false, List, [], ◌∷◌, Option, none, some, if◌then◌else◌,
}
use bduts.Prelude.Int.{ℤ}
use bduts.Prelude.Go.{Go, ret, panic, ◌>>=◌}
use bduts.Http.{Request, ResponseWriter, http_error}
use bduts.Cache.Disk.{Bytes}
use bduts.Cache.Bolt.{Bolt}
use bduts.Cache.Store.{Page, Result, ok, fail, Codec, CachingProperties}
use bduts.Cache.Telling.{tell_all}
use bduts.Cache.Read.{get_page_from_cache}
use bduts.Metrics.{Metrics, on_global, update_request_body_size, update_response_body_size}
use bduts.Timer.{save_timer_data_got_from_cache, save_time_full_trip, make_request_time_tracker}
use bduts.Lb.Front.{is_http_version_supported, request_hash_key, write_page, only_if_cached}

-- The errors of loadBalancerHandler; backendHandler's is its text.
pub data FrontError : Type 0 where
  unsupported_version page_unavailable only_if_cached_failed : FrontError
  backend_failed : String → FrontError

-- What a request changes: the cache, its writer and the metrics
pub record Visit (Db F : Type 0) : Type 0 where
  pub cache : Option (CachingProperties Db)
  pub writer : ResponseWriter
  pub metrics : Option (Metrics F)

-- What a request meets: the times of its directives and of the cache, the durations that are measured,
-- and the body that is left when it is read
pub record Clock : Type 0 where
  pub loaded : ℤ
  pub now : ℤ
  pub cache_time : ℤ
  pub full_time : ℤ
  pub body_left : Option String

module _ {Db F : Type 0} (bolt : Bolt Db) (codec : Codec) (hash : String → Bytes)
    (clock : Clock) where
  -- `saver` of the tracker, on the metrics of a visit
  abbrev pub saved :
      (ℤ → Option (Metrics F) → Go (Option (Metrics F))) → ℤ → Visit Db F → Go (Visit Db F)
  saved save time v = do g ← save time v.metrics; ret (record v { metrics = g })

  -- After the body was written
  abbrev pub written :
      Page → Visit Db F → ResponseWriter × Bool → Go (Option FrontError × Visit Db F)
  written page v (w, false) = ret (some page_unavailable, record v { writer = w })
  written page v (w, true) = do
    g ← update_response_body_size (len page.body) v.metrics
    ret (none, record v { writer = w; metrics = g })

  abbrev pub handed : Result Page → Visit Db F → Go (Option FrontError × Visit Db F)
  handed (ok page) v = written page v (write_page v.writer page)
  handed (fail e) v = ret (some page_unavailable, v)

  -- What follows GetPageFromCache, with what that has told the metrics
  abbrev pub timed_transfer :
      Visit Db F → CachingProperties Db × Result Page → Go (Option FrontError × Visit Db F)
  timed_transfer v (c, found) = do
    g ← tell_all c.untold v.metrics
    handed found (record v { cache = some (record c { untold = [] }); metrics = g })

  abbrev pub timed_page_in :
      Bytes
      → Request
      → Visit Db F
      → Option (CachingProperties Db)
      → Go (Option FrontError × Visit Db F)
  timed_page_in key req v none = ret (some page_unavailable, v)
  timed_page_in key req v (some c) = do
    found ← get_page_from_cache bolt codec clock.loaded clock.now key req c
    timed_transfer v found

  -- getPageHandler
  unfoldable pub timed_page : Bytes → Request → Visit Db F → Go (Option FrontError × Visit Db F)
  unfolding write_page update_response_body_size tell_all
  timed_page key req v = timed_page_in key req v v.cache

  -- What follows getPageHandler; `before` is the cache that the context was made with.
  unfoldable pub timed_after :
      (Request → Visit Db F → Go (Option FrontError × Visit Db F))
      → Option (CachingProperties Db)
      → Request
      → Option FrontError × Visit Db F
      → Go (Option FrontError × Visit Db F)
  timed_after backend before req (none, v) = do
    g ← on_global (λ m. record m { requests_by_cache = m.requests_by_cache + 1 }) v.metrics
    ret (none, record v { metrics = g })
  timed_after backend before req (some e, v) =
      if only_if_cached bolt codec clock.loaded req before
      then ret (
        some only_if_cached_failed,
        record v {
          writer = http_error "HTTP 504 Unsatisfiable Request (only-if-cached)" 504 v.writer;
        },
      )
      else backend req v

  -- loadBalancerHandler; `backend` is what backendHandler comes to.
  unfoldable pub timed_handler :
      (Request → Visit Db F → Go (Option FrontError × Visit Db F))
      → Request
      → Visit Db F
      → Go (Option FrontError × Visit Db F)
  unfolding is_http_version_supported request_hash_key make_request_time_tracker timed_page
      save_timer_data_got_from_cache timed_after
  timed_handler backend req v =
      if is_http_version_supported req
      then (do
        page ←
            make_request_time_tracker (timed_page (request_hash_key hash req) req)
              (saved save_timer_data_got_from_cache) false clock.cache_time v
        timed_after backend v.cache req page)
      else ret (
        some unsupported_version,
        record v { writer = http_error "Expected HTTP/1.1" 505 v.writer },
      )

  -- LoadBalancerHandler; the error is logged.
  unfoldable pub timed_front :
      (Request → Visit Db F → Go (Option FrontError × Visit Db F))
      → Request
      → Visit Db F
      → Go (Visit Db F)
  unfolding timed_handler make_request_time_tracker save_time_full_trip update_request_body_size
  timed_front backend req v = do
    (err, v') ←
        make_request_time_tracker (timed_handler backend req) (saved save_time_full_trip) true
          clock.full_time v
    g ← update_request_body_size clock.body_left v'.metrics
    ret (record v' { metrics = g })
