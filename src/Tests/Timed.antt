-- ===== src/Tests/Timed.antt =====
-- The theorems on the metrics of a request, at concrete requests.
use bduts.Prelude.{◌≡◌, refl, ℕ, String, [], ◌∷◌, Option, none, some}
use bduts.Prelude.Int.{pos}
use bduts.Prelude.Go.{Go, ret, panic}
use bduts.Http.{Request, fresh_writer, http_error}
use bduts.Cache.Disk.{Bytes}
use bduts.Metrics.{zeroed}
use bduts.Timer.{milliseconds}
use bduts.Lb.Front.{
  is_http_version_supported, load_balancer_handler, get_page_handler, after_page, request_hash_key,
}
use bduts.Lb.Front.Timed.{FrontError, backend_failed, Visit, Clock, timed_front}
use bduts.Lb.Front.Timed.Before.{timed_front-panics}
use bduts.Lb.Front.Timed.Counting.{visit}
use bduts.Lb.Front.Timed.Trips.{timed_front-FrontReports}
use bduts.Tests.Data.{page_request}
use bduts.Tests.Store.{Buckets, bolt}
use bduts.Tests.Codecs.{codec}
use bduts.Tests.Caches.{key, noon, empty_cache}

abbrev hash : String → Bytes
hash text = key

-- The cache took two milliseconds, all of it seven; four bytes of the body are left.
abbrev clock : Clock
clock = record {
  loaded = noon;
  now = noon;
  cache_time = pos 2000000;
  full_time = pos 7000001;
  body_left = some "left";
}

-- No backend answers.
abbrev unavailable : Request → Visit Buckets ℕ → Go (Option FrontError × Visit Buckets ℕ)
unavailable req v = ret (
  some (backend_failed "no available backends"),
  record v { writer = http_error "Service Unavailable" 503 v.writer },
)

timed_front-panics_example :
    timed_front bolt codec hash clock unavailable page_request
      (record { cache = some empty_cache; writer = fresh_writer; metrics = none })
    ≡ panic
timed_front-panics_example =
    timed_front-panics bolt codec hash clock unavailable (λ req v e. e) page_request
      (record { cache = some empty_cache; writer = fresh_writer; metrics = none }) refl

timed_front-FrontReports_example :
    timed_front bolt codec hash clock unavailable page_request (visit none fresh_writer zeroed)
    ≡ ret (
        visit none
          (http_error "Service Unavailable" 503 fresh_writer)
          (record zeroed { full_trip_time = pos 7 ∷ []; request_body_size = 4 ∷ [] }))
unfolding load_balancer_handler is_http_version_supported get_page_handler after_page
    request_hash_key milliseconds
timed_front-FrontReports_example =
    timed_front-FrontReports bolt codec hash clock unavailable page_request fresh_writer none zeroed
