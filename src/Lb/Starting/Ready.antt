-- ===== src/Lb/Starting/Ready.antt =====
-- main.go up to "Ready!": the state that the load balancer starts with.
use bduts.Prelude.{
  ℕ, zero, suc, ◌+◌, ◌<◌, ◌≡◌, refl, ap, subst, ◌⊎◌, inl, inr, String, Bool, false, List, [], ◌∷◌,
  Option, Option-cases, none, some, length, length-append, arith, All,
}
use bduts.Prelude.Int.{ℤ, pos, half32, int64, ◌*ℤ◌}
use bduts.Prelude.Go.{ret}
use bduts.Http.{Url}
use bduts.Backend.{
  ServerConfig, Backend, new_backend, new_backend_config, make_chan, check_if_alive, health_check,
  millisecond,
}
use bduts.ServerPool.{Heap, ServerPool, store, add_server, new_server_pool, configure_server_pool}
use bduts.ServerPool.Steps.{State, IsValid, Fits, add_server-IsValid, store-Fits, set_alive-Fits}
use bduts.Lb.Starting.{new_load_balancer_with_pool, check_round, start_up}
use bduts.Lb.Starting.Checks.{IsChecked, heap_of, check_round-exact}

-- The limit of a configured server is not negative.
abbrev pub HasCapacity : ServerConfig → Type 0
HasCapacity c = (n : ℕ) × (c.maximal_requests ≡ pos n)

abbrev state : Heap → ServerPool → State
state h p = record { heap = h; pool = p }

abbrev opened : ServerConfig → Url → ℕ → Backend
opened c u n = record {
  url = u;
  health_check_tcp_timeout = int64 (c.health_check_tcp_timeout *ℤ millisecond);
  alive = false;
  request_chan = record { cap = n; queued = 0 };
}

module _ (parse : String → Option Url) where
  new_backend_config-Fits :
      (c : ServerConfig)
      → HasCapacity c
      → (new_backend_config parse c ≡ ret none)
        ⊎ ((b : Backend) × (new_backend_config parse c ≡ ret (some b)) × Fits b)
  unfolding new_backend_config new_backend make_chan
  new_backend_config-Fits c (n, limit) = elim (Option-cases (parse c.url)) [
    | inl bad ↦ inl (rw (new_backend_config, bad) refl)
    | inr (u, good) ↦ inr (opened c u n, rw (new_backend_config, good, limit) refl, omega arith)
  ]

  -- A pool that ConfigureServerPool makes
  abbrev Configured : List ServerConfig → Heap → ServerPool → Type 0
  Configured servers h p =
      (h' : Heap) × (p' : ServerPool) × (configure_server_pool parse servers h p ≡ ret (h', p'))
      × IsValid (state h' p')

  configure_server_pool-IsValid :
      (servers : List ServerConfig) (h : Heap) (p : ServerPool)
      → All HasCapacity servers
      → length p.servers + length servers < half32
      → IsValid (state h p)
      → Configured servers h p
  unfolding configure_server_pool add_server
  configure_server_pool-IsValid [] h p limits room v = (h, p, refl, v)
  configure_server_pool-IsValid (c ∷ servers) h p limits room v =
      elim (new_backend_config-Fits c limits.0) [
        | inl bad ↦
            let (h', p', done, v') =
              configure_server_pool-IsValid servers h p limits.1 (omega arith) v in
            (h', p', rw bad done, v')
        | inr (b, good, fits) ↦
            let grown = length-append p.servers (h.next ∷ []) in
            let v₁ = add_server-IsValid (state h p) b fits (omega arith) v in
            let (h', p', done, v') =
              configure_server_pool-IsValid servers (add_server b h p).0 (add_server b h p).1
                limits.1 (omega (arith, grown)) v₁ in
            (h', p', rw good done, v')
      ]

module _ (dial : String → ℤ → Bool) where
  health_check-Fits : (b : Backend) → Fits b → Fits (health_check dial b)
  unfolding health_check
  health_check-Fits b f = set_alive-Fits (check_if_alive dial b) b f

  check_round-IsValid :
      (servers : List ℕ) (counter left : ℕ) (h h' : Heap) (p : ServerPool)
      → check_round dial servers counter h ≡ ret (h', left)
      → IsValid (state h p)
      → IsValid (state h' p)
  unfolding check_round
  check_round-IsValid [] counter left h h' p e v =
      subst (λ x. IsValid (state x p)) (ap (heap_of h) e) v
  check_round-IsValid (q ∷ servers) zero left h h' p e v = ground (arith, e)
  check_round-IsValid (q ∷ servers) (suc counter) left h h' p e v =
      check_round-IsValid servers counter left (store h q (health_check dial (h.cell q))) h' p e
        (record {
          sane = v.sane;
          allocated = v.allocated;
          fits = store-Fits h q _ (health_check-Fits (h.cell q) (v.fits q)) v.fits;
        })

  new_pool-IsValid : (h : Heap) → ((r : ℕ) → Fits (h.cell r)) → IsValid (state h new_server_pool)
  unfolding new_server_pool
  new_pool-IsValid h fits = record { sane = ground arith; allocated = tt; fits = fits }

  new_pool_length : length (new_server_pool.servers) ≡ 0
  unfolding new_server_pool
  new_pool_length = refl

  -- If no configured limit is negative and there are fewer than 2^31 servers, main gets to
  -- "Ready!": the wait group is at zero, the pool and the heap are valid, and every server is
  -- marked as its dial said. The heap must hold no overfull channel.
  pub start_up-IsValid :
      (parse : String → Option Url) (servers : List ServerConfig) (h : Heap)
      → ((r : ℕ) → Fits (h.cell r))
      → All HasCapacity servers
      → length servers < half32
      → (s : State) × (start_up parse dial servers h ≡ ret (s, 0))
        × IsValid s
        × All (IsChecked dial s.heap) s.pool.servers
  unfolding start_up new_load_balancer_with_pool
  start_up-IsValid parse servers h fits limits room =
      let (h₁, p, made, v) =
        configure_server_pool-IsValid parse servers h new_server_pool limits
          (omega (arith, new_pool_length)) (new_pool-IsValid h fits) in
      let (h₂, done, marks) = check_round-exact dial p.servers h₁ in
      (
        state h₂ p,
        rw (start_up, made, done) refl,
        check_round-IsValid p.servers (length p.servers) 0 h₁ h₂ p done v,
        marks,
      )
