-- ===== src/Metrics.antt =====
-- metrics/handlerFunc.go: the numbers that Prometheus is told, in GlobalMetrics, which is nil until Init.
-- A histogram is kept as what it was given.
use Prim.Native.String.{len}
use bduts.Prelude.{ℕ, String, List, [], ◌∷◌, Option, none, some}
use bduts.Prelude.Int.{ℤ, pos, ◌+ℤ◌}
use bduts.Prelude.Go.{Go, ret, panic, index, ◌>>=◌}

-- The gauge RequestsNow and the counter Requests
pub record Meters : Type 0 where
  pub requests_now : ℕ
  pub requests : ℕ

-- The gauges, the counters, and what the histograms and the summary observed, the last one first. `F` is
-- the type of a share of the CPU; MaxMemory is never made.
pub record Metrics (F : Type 0) : Type 0 where
  pub cpu : Option F
  pub allocated_memory : ℕ
  pub cache_size : ℤ
  pub cache_pages_count : ℤ
  pub meters : Meters
  pub requests_by_cache : ℕ
  pub request_body_size : List ℕ
  pub response_body_size : List ℕ
  pub backend_processing_time : List ℤ
  pub cache_processing_time : List ℤ
  pub full_trip_time : List ℤ

pub data Kind : Type 0 where
  gauge counter histogram summary : Kind

-- What the registry is told of a metric; an unset Help is empty.
pub record Collector : Type 0 where
  pub kind : Kind
  pub name : String
  pub help : String

-- In the order of MustRegister
unfoldable pub collectors : List Collector
collectors =
    record { kind = gauge; name = "bduts_cpu_usage"; help = "CPU usage" }
    ∷ record {
      kind = counter;
      name = "bduts_requests_were_processed";
      help = "How many requests were processed on the backends summary";
    }
    ∷ record {
      kind = gauge;
      name = "bduts_requests_are_being_processed";
      help = "How many requests are being processed";
    }
    ∷ record {
      kind = gauge;
      name = "bduts_allocated_memory";
      help = "How many memory is allocated now";
    }
    ∷ record {
      kind = gauge;
      name = "bduts_cache_size_used";
      help = "The usage of cache. Shows its occupancy in bytes";
    }
    ∷ record {
      kind = gauge;
      name = "bduts_cache_pages_count";
      help = "How many pages are stored in cache now?";
    }
    ∷ record {
      kind = counter;
      name = "bduts_requests_by_cache_were_processed";
      help = "How many requests were processed by the cache summary";
    }
    ∷ record {
      kind = histogram;
      name = "bduts_request_body_size";
      help = "A histogram of request body sizes";
    }
    ∷ record {
      kind = histogram;
      name = "bduts_response_body_size";
      help = "A histogram of response body sizes";
    }
    ∷ record { kind = histogram; name = "bduts_backend_processing_time"; help = "" }
    ∷ record { kind = histogram; name = "bduts_cache_processing_time"; help = "" }
    ∷ record { kind = summary; name = "bduts_full_trip_time"; help = "" }
    ∷ []

module _ {F : Type 0} where
  abbrev pub zeroed : Metrics F
  zeroed = record {
    cpu = none;
    allocated_memory = 0;
    cache_size = pos 0;
    cache_pages_count = pos 0;
    meters = record { requests_now = 0; requests = 0 };
    requests_by_cache = 0;
    request_body_size = [];
    response_body_size = [];
    backend_processing_time = [];
    cache_processing_time = [];
    full_trip_time = [];
  }

  -- `register` is MustRegister of a registry.
  unfoldable pub new_metrics : {R : Type 0} → (List Collector → R → Go R) → R → Go (Metrics F × R)
  unfolding collectors
  new_metrics register reg = do reg' ← register collectors reg; ret (zeroed, reg')

  -- GlobalMetrics before Init
  abbrev pub unmade : Option (Metrics F)
  unmade = none

  -- A field of GlobalMetrics, `none` before Init, when this is a nil dereference
  abbrev pub on_global : (Metrics F → Metrics F) → Option (Metrics F) → Go (Option (Metrics F))
  on_global f none = panic
  on_global f (some m) = ret (some (f m))

  -- cpu.Percent fails, or gives its shares.
  unfoldable pub update_cpu : Option (List F) → Option (Metrics F) → Go (Option (Metrics F))
  update_cpu none g = ret g
  update_cpu (some shares) g = do
    share ← index shares (pos 0)
    on_global (λ m. record m { cpu = some share }) g

  unfoldable pub update_memory : ℕ → Option (Metrics F) → Go (Option (Metrics F))
  update_memory alloc = on_global (λ m. record m { allocated_memory = alloc })

  unfoldable pub update_cache_size : ℤ → Option (Metrics F) → Go (Option (Metrics F))
  update_cache_size size = on_global (λ m. record m { cache_size = size })

  unfoldable pub update_cache_pages_count : ℤ → Option (Metrics F) → Go (Option (Metrics F))
  update_cache_pages_count delta =
      on_global (λ m. record m { cache_pages_count = m.cache_pages_count +ℤ delta })

  -- What is left of the body is read; `none` is an error of that.
  unfoldable pub update_request_body_size :
      Option String → Option (Metrics F) → Go (Option (Metrics F))
  update_request_body_size none g = ret g
  update_request_body_size (some b) g =
      on_global (λ m. record m { request_body_size = len b ∷ m.request_body_size }) g

  unfoldable pub update_response_body_size : ℕ → Option (Metrics F) → Go (Option (Metrics F))
  update_response_body_size size =
      on_global (λ m. record m { response_body_size = size ∷ m.response_body_size })

  unfoldable pub update_backend_processing_time : ℤ → Option (Metrics F) → Go (Option (Metrics F))
  update_backend_processing_time time =
      on_global (λ m. record m { backend_processing_time = time ∷ m.backend_processing_time })

  unfoldable pub update_cache_processing_time : ℤ → Option (Metrics F) → Go (Option (Metrics F))
  update_cache_processing_time time =
      on_global (λ m. record m { cache_processing_time = time ∷ m.cache_processing_time })

  unfoldable pub update_full_trip_time : ℤ → Option (Metrics F) → Go (Option (Metrics F))
  update_full_trip_time time =
      on_global (λ m. record m { full_trip_time = time ∷ m.full_trip_time })

  -- Init, whatever GlobalMetrics was before; `fresh` is a new registry. Ticks of its goroutine follow.
  unfoldable pub init :
      {R : Type 0} → (List Collector → R → Go R) → R → ℤ → ℕ → Go (Option (Metrics F) × R)
  unfolding new_metrics update_cache_size update_cache_pages_count
  init register fresh cache_size pages_count = do
    (m, reg) ← new_metrics register fresh
    g ← update_cache_size cache_size (some m)
    g' ← update_cache_pages_count (pos pages_count) g
    ret (g', reg)

  -- A tick of the goroutine of Init
  unfoldable pub observe_machine :
      Option (List F) → ℕ → Option (Metrics F) → Go (Option (Metrics F))
  unfolding update_cpu update_memory
  observe_machine shares alloc g = do g' ← update_cpu shares g; update_memory alloc g'
