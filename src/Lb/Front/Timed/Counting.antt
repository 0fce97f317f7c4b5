-- ===== src/Lb/Front/Timed/Counting.antt =====
-- lb/lbHandlers.go, loadBalancerHandler, once metrics.Init has run: the same answers, with what the
-- metrics are told of them.
use Prim.Native.String.{len}
use bduts.Prelude.{
  subst, sym, [], ◌+◌, ◌≡◌, refl, ap, ◌∙◌, String, Bool, Bool-cases, inl, inr, true, false, ◌∷◌,
  Option, none, some,
}
use bduts.Prelude.Int.{ℤ}
use bduts.Prelude.Go.{Go, ret, panic, ◌>>=◌}
use bduts.Http.{Request, ResponseWriter}
use bduts.Cache.Disk.{Bytes}
use bduts.Cache.Bolt.{Bolt}
use bduts.Cache.Store.{Page, Result, ok, fail, Codec, CachingProperties}
use bduts.Cache.Telling.{after_all, tell_all-some}
use bduts.Cache.Read.{get_page_from_cache}
use bduts.Metrics.{Metrics, update_response_body_size}
use bduts.Timer.{milliseconds, save_timer_data_got_from_cache, make_request_time_tracker}
use bduts.Lb.Front.{
  Started, answered, forwarded, bad_version, from_cache, unsatisfiable, is_http_version_supported,
  write_page, only_if_cached, request_hash_key, transfer, get_page_handler, after_page,
  load_balancer_handler,
}
use bduts.Lb.Front.Timed.{
  FrontError, page_unavailable, unsupported_version, only_if_cached_failed, Visit, Clock, saved,
  written, timed_transfer, handed, timed_page, timed_after, timed_handler,
}

module _ {Db : Type 0} where
  -- The cache after its calls of the metrics
  abbrev pub settled : Option (CachingProperties Db) → Option (CachingProperties Db)
  settled none = none
  settled (some c) = some (record c { untold = [] })

module _ {Db F : Type 0} where
  abbrev pub visit : Option (CachingProperties Db) → ResponseWriter → Metrics F → Visit Db F
  visit c w m = record { cache = c; writer = w; metrics = some m }

  -- The metrics after the calls of the cache
  abbrev pub heard : Option (CachingProperties Db) → Metrics F → Metrics F
  heard none m = m
  heard (some c) m = after_all c.untold m

module _ {F : Type 0} where
  -- What the metrics are told where a page of the cache was written
  abbrev pub with_page : ℤ → Page → Metrics F → Metrics F
  with_page time page m = record m {
    response_body_size = len page.body ∷ m.response_body_size;
    cache_processing_time = milliseconds time ∷ m.cache_processing_time;
    requests_by_cache = m.requests_by_cache + 1;
  }

  abbrev pub with_response : Page → Metrics F → Metrics F
  with_response page m = record m { response_body_size = len page.body ∷ m.response_body_size }

  abbrev pub with_length : Option String → Metrics F → Metrics F
  with_length none m = m
  with_length (some b) m = record m { request_body_size = len b ∷ m.request_body_size }

  -- What they are told at the end of every request: the time, and the length of what was left of the body
  abbrev pub with_trip : ℤ → Option String → Metrics F → Metrics F
  with_trip time left m =
      with_length left (record m { full_trip_time = milliseconds time ∷ m.full_trip_time })

module _ {Db F : Type 0} (bolt : Bolt Db) (codec : Codec) (hash : String → Bytes)
    (clock : Clock) where
  -- getPageHandler without and with the metrics
  abbrev PageReports :
      ResponseWriter
      → Metrics F
      → Go (Option (CachingProperties Db) × (ResponseWriter × Bool))
      → Go (Option FrontError × Visit Db F)
      → Type 0
  PageReports w m panic t = t ≡ panic
  PageReports w m (ret (c, (w', true))) t =
      (page : Page) × (write_page w page ≡ (w', true))
      × (t ≡ ret (none, visit (settled c) w' (with_response page (heard c m))))
  PageReports w m (ret (c, (w', false))) t =
      t ≡ ret (some page_unavailable, visit (settled c) w' (heard c m))

  written-PageReports :
      (page : Page) (w : ResponseWriter) (c : Option (CachingProperties Db)) (m : Metrics F)
      (out : ResponseWriter × Bool)
      → write_page w page ≡ out
      → PageReports w m
          (ret (c, out))
          (written bolt codec hash clock page (visit (settled c) w (heard c m)) out)
  unfolding update_response_body_size
  written-PageReports page w c m (w', true) e = (page, e, refl)
  written-PageReports page w c m (w', false) e = refl

  handed-PageReports :
      (w : ResponseWriter) (c : CachingProperties Db) (m : Metrics F) (found : Result Page)
      → PageReports w m
          (ret (transfer bolt codec w (c, found)))
          (handed bolt codec hash clock found (visit (settled (some c)) w (heard (some c) m)))
  unfolding transfer
  handed-PageReports w c m (ok page) =
      written-PageReports page w (some c) m (write_page w page) refl
  handed-PageReports w c m (fail e) = refl

  found-PageReports :
      (w : ResponseWriter) (c : CachingProperties Db) (m : Metrics F)
      (found : Go (CachingProperties Db × Result Page))
      → PageReports w m
          (found >>= (λ f. ret (transfer bolt codec w f)))
          (found >>= timed_transfer bolt codec hash clock (visit (some c) w m))
  found-PageReports w c m panic = refl
  found-PageReports w c m (ret (c', found)) =
      let next : Option (Metrics F) → Go (Option FrontError × Visit Db F) = λ g.
        handed bolt codec hash clock found
          (record { cache = some (record c' { untold = [] }); writer = w; metrics = g }) in
      subst (PageReports w m (ret (transfer bolt codec w (c', found))))
        (sym (ap (λ (r : Go (Option (Metrics F))). r >>= next) (tell_all-some c'.untold m)))
        (handed-PageReports w c' m found)

  timed_page-PageReports :
      (key : Bytes) (req : Request) (w : ResponseWriter) (c : Option (CachingProperties Db))
      (m : Metrics F)
      → PageReports w m
          (get_page_handler bolt codec clock.loaded clock.now key req w c)
          (timed_page bolt codec hash clock key req (visit c w m))
  unfolding get_page_handler timed_page
  timed_page-PageReports key req w none m = refl
  timed_page-PageReports key req w (some c) m =
      found-PageReports w c m (get_page_from_cache bolt codec clock.loaded clock.now key req c)

  module _ (backend : Request → Visit Db F → Go (Option FrontError × Visit Db F)) where
    -- loadBalancerHandler without and with the metrics
    abbrev pub Reports :
        Metrics F
        → ResponseWriter
        → Request
        → Go (Option (CachingProperties Db) × Started)
        → Go (Option FrontError × Visit Db F)
        → Type 0
    Reports m w req panic t = t ≡ panic
    Reports m w req (ret (c, answered bad_version w')) t =
        t ≡ ret (some unsupported_version, visit c w' m)
    Reports m w req (ret (c, answered unsatisfiable w')) t =
        t ≡ ret (some only_if_cached_failed, visit (settled c) w' (heard c m))
    Reports m w req (ret (c, answered from_cache w')) t =
        (page : Page) × (write_page w page ≡ (w', true))
        × (t ≡ ret (none, visit (settled c) w' (with_page clock.cache_time page (heard c m))))
    Reports m w req (ret (c, forwarded hd)) t =
        t ≡ backend req (visit (settled c) hd.writer (heard c m))

    abbrev tracked :
        Visit Db F → Go (Option FrontError × Visit Db F) → Go (Option FrontError × Visit Db F)
    tracked v t =
        make_request_time_tracker (λ (x : Visit Db F). t)
          (saved bolt codec hash clock save_timer_data_got_from_cache) false clock.cache_time v

    abbrev then_after :
        Visit Db F
        → Option (CachingProperties Db)
        → Request
        → Go (Option FrontError × Visit Db F)
        → Go (Option FrontError × Visit Db F)
    then_after v before req t = tracked v t >>= timed_after bolt codec hash clock backend before req

    after-Reports :
        (v : Visit Db F) (before : Option (CachingProperties Db)) (req : Request)
        (w : ResponseWriter) (m : Metrics F)
        (p : Go (Option (CachingProperties Db) × (ResponseWriter × Bool)))
        (t : Go (Option FrontError × Visit Db F))
        → PageReports w m p t
        → Reports m w req
            (p >>= (λ r. ret (
              r.0,
              after_page bolt codec (only_if_cached bolt codec clock.loaded req before) req r.1,
            )))
            (then_after v before req t)
    unfolding after_page timed_after make_request_time_tracker save_timer_data_got_from_cache
    after-Reports v before req w m panic t h = ap (then_after v before req) h
    after-Reports v before req w m (ret (c, (w', true))) t (page, e, h) =
        (page, e, ap (then_after v before req) h)
    after-Reports v before req w m (ret (c, (w', false))) t h =
        elim (Bool-cases (only_if_cached bolt codec clock.loaded req before)) [
          | inl only ↦
              rw (after_page, timed_after, only) (ap (then_after v before req) h ∙ rw only refl)
          | inr more ↦
              rw (after_page, timed_after, more) (ap (then_after v before req) h ∙ rw more refl)
        ]

    -- loadBalancerHandler
    pub timed_handler-Reports :
        (req : Request) (w : ResponseWriter) (c : Option (CachingProperties Db)) (m : Metrics F)
        → Reports m w req
            (load_balancer_handler bolt codec hash clock.loaded clock.now req w c)
            (timed_handler bolt codec hash clock backend req (visit c w m))
    unfolding load_balancer_handler timed_handler
    timed_handler-Reports req w c m = elim (Bool-cases (is_http_version_supported req)) [
      | inl good ↦
          rw (load_balancer_handler, timed_handler, good)
            (after-Reports (visit c w m) c req w m _ _
              (timed_page-PageReports (request_hash_key hash req) req w c m))
      | inr bad ↦ rw (load_balancer_handler, timed_handler, bad) refl
    ]
