-- ===== src/Timer.antt =====
-- timer/timer.go: what is measured of a request is told to the metrics, and the tracker that does it.
use bduts.Prelude.{suc, ◌/◌, Bool, true, false, ◌||◌, Option, none, some, if◌then◌else◌}
use bduts.Prelude.Int.{ℤ, pos, negsuc, ◌-ℤ◌}
use bduts.Prelude.Go.{Go, ret, ◌>>=◌}
use bduts.Metrics.{
  Metrics, update_cache_processing_time, update_backend_processing_time, update_full_trip_time,
}

-- Duration.Milliseconds, of nanoseconds
unfoldable pub milliseconds : ℤ → ℤ
milliseconds (pos n) = pos (n / 1000000)
milliseconds (negsuc n) = pos 0 -ℤ pos (suc n / 1000000)

module _ {F : Type 0} where
  unfoldable pub save_timer_data_got_from_cache : ℤ → Option (Metrics F) → Go (Option (Metrics F))
  unfolding update_cache_processing_time milliseconds
  save_timer_data_got_from_cache d = update_cache_processing_time (milliseconds d)

  unfoldable pub save_time_data_backend : ℤ → Option (Metrics F) → Go (Option (Metrics F))
  unfolding update_backend_processing_time milliseconds
  save_time_data_backend d = update_backend_processing_time (milliseconds d)

  unfoldable pub save_time_full_trip : ℤ → Option (Metrics F) → Go (Option (Metrics F))
  unfolding update_full_trip_time milliseconds
  save_time_full_trip d = update_full_trip_time (milliseconds d)

abbrev pub is_nil : {E : Type 0} → Option E → Bool
is_nil none = true
is_nil (some e) = false

-- A handler changes the state that it shares, and returns an error or nil; `elapsed` is what time.Since
-- gives after it.
unfoldable pub make_request_time_tracker :
    {S E : Type 0} → (S → Go (Option E × S)) → (ℤ → S → Go S) → Bool → ℤ → S → Go (Option E × S)
make_request_time_tracker handler saver save_on_error elapsed s = do
  (err, s') ← handler s
  (if is_nil err || save_on_error
      then (do s'' ← saver elapsed s'; ret (err, s''))
      else ret (err, s'))
