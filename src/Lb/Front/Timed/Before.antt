-- ===== src/Lb/Front/Timed/Before.antt =====
-- lb/lbHandlers.go, LoadBalancerHandler, before metrics.Init has made GlobalMetrics.
use bduts.Prelude.{
  [], ◌∷◌, List, ◌≡◌, refl, ap, ◌∙◌, sym, subst, String, Bool, Bool-cases, inl, inr, true, false,
  Option, none, some,
}
use bduts.Prelude.Int.{ℤ}
use bduts.Prelude.Go.{Go, ret, panic, ◌>>=◌}
use bduts.Http.{Request, ResponseWriter}
use bduts.Cache.Disk.{Bytes}
use bduts.Cache.Bolt.{Bolt}
use bduts.Cache.Store.{Told, Page, Result, ok, fail, Codec, CachingProperties}
use bduts.Cache.Telling.{tell_all, tell_all-none}
use bduts.Cache.Read.{get_page_from_cache}
use bduts.Metrics.{Metrics, on_global, update_response_body_size, update_request_body_size}
use bduts.Timer.{save_timer_data_got_from_cache, save_time_full_trip, make_request_time_tracker}
use bduts.Lb.Front.{is_http_version_supported, write_page, only_if_cached, request_hash_key}
use bduts.Lb.Front.Timed.{
  FrontError, Visit, Clock, saved, written, timed_transfer, handed, timed_page_in, timed_page,
  timed_after, timed_handler, timed_front,
}

-- There are no metrics after a call that returns.
abbrev pub IsBare : {Db F : Type 0} → Go (Option FrontError × Visit Db F) → Type 0
IsBare panic = Unit
IsBare (ret (e, v)) = v.metrics ≡ none

-- A field of GlobalMetrics panics.
on_global-IsBare :
    {Db F : Type 0} (f : Metrics F → Metrics F) (g : Option (Metrics F))
    (k : Option (Metrics F) → Go (Option FrontError × Visit Db F))
    → g ≡ none
    → IsBare (on_global f g >>= k)
on_global-IsBare f none k e = tt
on_global-IsBare f (some m) k e = cc

module _ {Db F : Type 0} (bolt : Bolt Db) (codec : Codec) (hash : String → Bytes)
    (clock : Clock) where
  written-IsBare :
      (page : Page) (v : Visit Db F) (w : ResponseWriter × Bool)
      → v.metrics ≡ none
      → IsBare (written bolt codec hash clock page v w)
  unfolding update_response_body_size
  written-IsBare page v (w, false) e = e
  written-IsBare page v (w, true) e = on_global-IsBare _ v.metrics _ e

  handed-IsBare :
      (found : Result Page) (v : Visit Db F)
      → v.metrics ≡ none
      → IsBare (handed bolt codec hash clock found v)
  handed-IsBare (ok page) v e = written-IsBare page v (write_page v.writer page) e
  handed-IsBare (fail x) v e = e

  told-IsBare :
      (ts : List Told) (g : Option (Metrics F))
      (k : Option (Metrics F) → Go (Option FrontError × Visit Db F))
      → g ≡ none
      → ((g' : Option (Metrics F)) → g' ≡ none → IsBare (k g'))
      → IsBare (tell_all ts g >>= k)
  unfolding tell_all
  told-IsBare [] g k e h = h g e
  told-IsBare (t ∷ ts) none k e h =
      subst IsBare (sym (ap (λ (r : Go (Option (Metrics F))). r >>= k) (tell_all-none t ts))) tt
  told-IsBare (t ∷ ts) (some m) k e h = cc

  timed_transfer-IsBare :
      (v : Visit Db F) (found : CachingProperties Db × Result Page)
      → v.metrics ≡ none
      → IsBare (timed_transfer bolt codec hash clock v found)
  timed_transfer-IsBare v (c, found) e = told-IsBare c.untold v.metrics _ e (λ g h.
      handed-IsBare found (record v { cache = some (record c { untold = [] }); metrics = g }) h)

  timed_page_in-IsBare :
      (key : Bytes) (req : Request) (v : Visit Db F) (c : Option (CachingProperties Db))
      → v.metrics ≡ none
      → IsBare (timed_page_in bolt codec hash clock key req v c)
  timed_page_in-IsBare key req v none e = e
  timed_page_in-IsBare key req v (some c) e =
      transferred (get_page_from_cache bolt codec clock.loaded clock.now key req c)
    where
      transferred :
          (found : Go (CachingProperties Db × Result Page))
          → IsBare (found >>= timed_transfer bolt codec hash clock v)
      transferred panic = tt
      transferred (ret found) = timed_transfer-IsBare v found e

  saved_bare :
      (save : ℤ → Option (Metrics F) → Go (Option (Metrics F))) (time : ℤ) (w : Visit Db F)
      → save time none ≡ panic
      → w.metrics ≡ none
      → saved bolt codec hash clock save time w ≡ panic
  saved_bare save time w h e =
      let next : Option (Metrics F) → Go (Visit Db F) = λ g. ret (record w { metrics = g }) in
      ap (λ (r : Go (Option (Metrics F))). r >>= next) (ap (save time) e ∙ h)

  track_bare :
      (save : ℤ → Option (Metrics F) → Go (Option (Metrics F))) (time : ℤ) (w : Visit Db F)
      (err : Option FrontError)
      → save time none ≡ panic
      → w.metrics ≡ none
      → let next : Visit Db F → Go (Option FrontError × Visit Db F) = λ w'. ret (err, w') in
        (saved bolt codec hash clock save time w >>= next) ≡ panic
  track_bare save time w err h e =
      let next : Visit Db F → Go (Option FrontError × Visit Db F) = λ w'. ret (err, w') in
      ap (λ (r : Go (Visit Db F)). r >>= next) (saved_bare save time w h e)

  -- The tracker keeps this, whatever its flag is.
  tracked-IsBare :
      (save : ℤ → Option (Metrics F) → Go (Option (Metrics F))) (save_on_error : Bool) (elapsed : ℤ)
      (v : Visit Db F) (r : Go (Option FrontError × Visit Db F))
      → ((time : ℤ) → save time none ≡ panic)
      → IsBare r
      → IsBare (
          make_request_time_tracker
            (λ (x : Visit Db F). r)
            (saved bolt codec hash clock save)
            save_on_error
            elapsed
            v)
  unfolding make_request_time_tracker
  tracked-IsBare save save_on_error elapsed v panic h b = tt
  tracked-IsBare save true elapsed v (ret (some e, w)) h b =
      subst IsBare (sym (track_bare save elapsed w (some e) (h elapsed) b)) tt
  tracked-IsBare save false elapsed v (ret (some e, w)) h b = b
  tracked-IsBare save save_on_error elapsed v (ret (none, w)) h b =
      subst IsBare (sym (track_bare save elapsed w none (h elapsed) b)) tt

  module _ (backend : Request → Visit Db F → Go (Option FrontError × Visit Db F))
      (keeps : (req : Request) (v : Visit Db F) → v.metrics ≡ none → IsBare (backend req v)) where
    timed_after-IsBare :
        (c : Option (CachingProperties Db)) (req : Request)
        (r : Go (Option FrontError × Visit Db F))
        → IsBare r
        → IsBare (r >>= timed_after bolt codec hash clock backend c req)
    unfolding timed_after
    timed_after-IsBare c req panic b = tt
    timed_after-IsBare c req (ret (none, v)) b = on_global-IsBare _ v.metrics _ b
    timed_after-IsBare c req (ret (some e, v)) b =
        elim (Bool-cases (only_if_cached bolt codec clock.loaded req c)) [
          | inl only ↦ rw (timed_after, only) b
          | inr more ↦ rw (timed_after, more) (keeps req v b)
        ]

    timed_handler-IsBare :
        (req : Request) (v : Visit Db F)
        → v.metrics ≡ none
        → IsBare (timed_handler bolt codec hash clock backend req v)
    unfolding timed_handler timed_page save_timer_data_got_from_cache
    timed_handler-IsBare req v e = elim (Bool-cases (is_http_version_supported req)) [
      | inl good ↦
          rw (timed_handler, good)
            (timed_after-IsBare v.cache req _ (
              tracked-IsBare save_timer_data_got_from_cache false clock.cache_time v
                (timed_page bolt codec hash clock (request_hash_key hash req) req v) (λ time. refl)
                (timed_page_in-IsBare (request_hash_key hash req) req v v.cache e)))
      | inr bad ↦ rw (timed_handler, bad) e
    ]

    tracked_bare :
        (elapsed : ℤ) (v : Visit Db F) (r : Go (Option FrontError × Visit Db F))
        → IsBare r
        → make_request_time_tracker
            (λ (x : Visit Db F). r)
            (saved bolt codec hash clock save_time_full_trip)
            true
            elapsed
            v
          ≡ panic
    unfolding make_request_time_tracker save_time_full_trip
    tracked_bare elapsed v panic b = refl
    tracked_bare elapsed v (ret (some e, w)) b =
        track_bare save_time_full_trip elapsed w (some e) refl b
    tracked_bare elapsed v (ret (none, w)) b = track_bare save_time_full_trip elapsed w none refl b

    -- While GlobalMetrics is nil, as it is before metrics.Init, LoadBalancerHandler panics at
    -- every request, however it would be answered, if backendHandler leaves GlobalMetrics nil.
    pub timed_front-panics :
        (req : Request) (v : Visit Db F)
        → v.metrics ≡ none
        → timed_front bolt codec hash clock backend req v ≡ panic
    unfolding timed_front
    timed_front-panics req v e =
        let next : Option FrontError × Visit Db F → Go (Visit Db F) = λ (err, v').
          update_request_body_size clock.body_left v'.metrics
          >>= (λ g. ret (record v' { metrics = g })) in
        ap (λ (r : Go (Option FrontError × Visit Db F)). r >>= next)
          (tracked_bare clock.full_time v (timed_handler bolt codec hash clock backend req v)
            (timed_handler-IsBare req v e))
