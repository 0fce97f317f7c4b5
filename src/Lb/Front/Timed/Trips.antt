-- ===== src/Lb/Front/Timed/Trips.antt =====
-- lb/lbHandlers.go, LoadBalancerHandler, once metrics.Init has run: the time of the whole request and the
-- length of its body are told at its end.
use bduts.Prelude.{◌≡◌, refl, ap, sym, subst, String, true, Option, none, some}
use bduts.Prelude.Go.{Go, ret, panic, ◌>>=◌}
use bduts.Http.{Request, ResponseWriter}
use bduts.Cache.Disk.{Bytes}
use bduts.Cache.Bolt.{Bolt}
use bduts.Cache.Store.{Page, Codec, CachingProperties}
use bduts.Metrics.{Metrics, update_request_body_size}
use bduts.Timer.{save_time_full_trip, make_request_time_tracker}
use bduts.Lb.Front.{
  Started, answered, forwarded, bad_version, from_cache, unsatisfiable, write_page,
  load_balancer_handler,
}
use bduts.Lb.Front.Timed.Counting.{
  settled, heard, visit, with_page, with_length, with_trip, Reports, timed_handler-Reports,
}
use bduts.Lb.Front.Timed.{FrontError, Visit, Clock, saved, timed_front}

module _ {F : Type 0} where
  update_left :
      (left : Option String) (m : Metrics F)
      → update_request_body_size left (some m) ≡ ret (some (with_length left m))
  unfolding update_request_body_size
  update_left none m = refl
  update_left (some b) m = refl

module _ {Db F : Type 0} (bolt : Bolt Db) (codec : Codec) (hash : String → Bytes) (clock : Clock)
    (backend : Request → Visit Db F → Go (Option FrontError × Visit Db F)) where
  -- The end of LoadBalancerHandler: what `with_trip` says, where there are metrics
  abbrev pub ended_in : Visit Db F → Option (Metrics F) → Go (Visit Db F)
  ended_in v none = panic
  ended_in v (some m) = ret (visit v.cache v.writer (with_trip clock.full_time clock.body_left m))

  abbrev pub ended : Go (Option FrontError × Visit Db F) → Go (Visit Db F)
  ended panic = panic
  ended (ret (err, v)) = ended_in v v.metrics

  -- LoadBalancerHandler after loadBalancerHandler
  trip : Visit Db F → Go (Option FrontError × Visit Db F) → Go (Visit Db F)
  unfolding update_request_body_size
  trip v t = do
    (err, u) ←
        make_request_time_tracker (λ (x : Visit Db F). t)
          (saved bolt codec hash clock save_time_full_trip) true clock.full_time v
    g ← update_request_body_size clock.body_left u.metrics
    ret (record u { metrics = g })

  trip_ret :
      (v : Visit Db F) (err : Option FrontError) (c : Option (CachingProperties Db))
      (w : ResponseWriter) (g : Option (Metrics F))
      → trip v (ret (err, record { cache = c; writer = w; metrics = g }))
        ≡ ended_in (record { cache = c; writer = w; metrics = g }) g
  unfolding trip make_request_time_tracker save_time_full_trip
  trip_ret v none c w none = refl
  trip_ret v (some e) c w none = refl
  trip_ret v none c w (some m) =
      ap (λ r. r >>= (λ g. ret (record { cache = c; writer = w; metrics = g })))
        (update_left clock.body_left _)
  trip_ret v (some e) c w (some m) =
      ap (λ r. r >>= (λ g. ret (record { cache = c; writer = w; metrics = g })))
        (update_left clock.body_left _)

  trip_lem : (v : Visit Db F) (t : Go (Option FrontError × Visit Db F)) → trip v t ≡ ended t
  unfolding trip make_request_time_tracker
  trip_lem v panic = refl
  trip_lem v (ret (err, u)) = trip_ret v err u.cache u.writer u.metrics

  -- LoadBalancerHandler: `answered` and what is handed on, as loadBalancerHandler without the metrics
  abbrev FrontReports :
      Metrics F
      → ResponseWriter
      → Request
      → Go (Option (CachingProperties Db) × Started)
      → Go (Visit Db F)
      → Type 0
  FrontReports m w req panic t = t ≡ panic
  FrontReports m w req (ret (c, answered bad_version w')) t =
      t ≡ ret (visit c w' (with_trip clock.full_time clock.body_left m))
  FrontReports m w req (ret (c, answered unsatisfiable w')) t =
      t ≡ ret (visit (settled c) w' (with_trip clock.full_time clock.body_left (heard c m)))
  FrontReports m w req (ret (c, answered from_cache w')) t =
      (page : Page) × (write_page w page ≡ (w', true))
      × (t
          ≡ ret (
              visit (settled c) w' (
                with_trip clock.full_time clock.body_left
                  (with_page clock.cache_time page (heard c m)))))
  FrontReports m w req (ret (c, forwarded hd)) t =
      t ≡ ended (backend req (visit (settled c) hd.writer (heard c m)))

  ended-FrontReports :
      (m : Metrics F) (w : ResponseWriter) (req : Request)
      (p : Go (Option (CachingProperties Db) × Started)) (t : Go (Option FrontError × Visit Db F))
      → Reports bolt codec hash clock backend m w req p t
      → FrontReports m w req p (ended t)
  ended-FrontReports m w req panic t h = ap ended h
  ended-FrontReports m w req (ret (c, answered bad_version w')) t h = ap ended h
  ended-FrontReports m w req (ret (c, answered unsatisfiable w')) t h = ap ended h
  ended-FrontReports m w req (ret (c, answered from_cache w')) t (page, e, h) =
      (page, e, ap ended h)
  ended-FrontReports m w req (ret (c, forwarded hd)) t h = ap ended h

  -- With GlobalMetrics made, LoadBalancerHandler answers every request as loadBalancerHandler does
  -- without metrics, or hands it to the same backendHandler; and besides what backendHandler tells
  -- them, the metrics are told no more than this: the size and the number of pages that
  -- GetPageFromCache tells when it removes the metadata of a page; of a page of the cache its
  -- length, its time and one request by the cache; of every request that is not stopped by a panic
  -- the time of the whole trip, an error or not, and the length of the body that was left, if that
  -- can be read.
  pub timed_front-FrontReports :
      (req : Request) (w : ResponseWriter) (c : Option (CachingProperties Db)) (m : Metrics F)
      → FrontReports m w req
          (load_balancer_handler bolt codec hash clock.loaded clock.now req w c)
          (timed_front bolt codec hash clock backend req (visit c w m))
  unfolding timed_front trip
  timed_front-FrontReports req w c m =
      subst (FrontReports m w req _) (sym (trip_lem (visit c w m) _)) (
        ended-FrontReports m w req _ _
          (timed_handler-Reports bolt codec hash clock backend req w c m))
