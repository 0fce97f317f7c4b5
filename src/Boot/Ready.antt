-- ===== src/Boot/Ready.antt =====
-- main.go, main: a start that gets to http.Serve.
use bduts.Prelude.{ℕ, ◌≡◌, refl, sym, ap, Bool, true, List, [], ◌∷◌, none, some, All}
use bduts.Prelude.Int.{ℤ}
use bduts.Cache.Disk.{Bytes}
use bduts.Cache.Bolt.{Bolt, IsTransactional, HasBuckets}
use bduts.Cache.Store.{Codec, CachingProperties}
use bduts.Backend.{ServerConfig}
use bduts.ServerPool.Steps.{State, IsValid}
use bduts.Lb.Starting.{FileConfig, LoadBalancerConfig, lb_config, start_up}
use bduts.Lb.Starting.Checks.{IsChecked}
use bduts.Lb.Starting.Ready.{start_up-IsValid}
use bduts.Mail.{Letter}
use bduts.Auth.{Trust, Service}
use bduts.Auth.Limits.{HasLimit, IsDrawn}
use bduts.Auth.SigningUp.{Verifies}
use bduts.Boot.{done, unpanicked, Site, Machine, Parsers, ◌>>=◌, ◌>>◌, lift, pure}
use bduts.Boot.Readers.{load_balancer_configure, servers_configure}
use bduts.Boot.Observing.{observe_early}
use bduts.Boot.Opening.{content_or, new_ticker, prepare_accounts, listen}
use bduts.Boot.Ticking.{new_ticker-checks}
use bduts.Boot.FirstStart.{default_user}
use bduts.Boot.Reached.{
  load_balancer_configure-done, servers_configure-done, Reaches, Reaches-bind, Reaches-then,
  lift-Reaches, HasMetadata, prepare_cache-Reaches,
}
use bduts.Boot.Sequence.{Serving, serving, waited, prepare_cache, prepare_pool, main}
use bduts.Boot.Entering.{IsWellSet, Entered, service_of, listen-done, prepare_accounts-Reaches}

module _ {Db Udb : Type 0} (bolt : Bolt Db) (codec : Codec) where
  unobserved-Reaches :
      (m : Machine) (ticks : List ℤ) (c : CachingProperties Db) (s : Site Db Udb)
      → ticks ≡ []
      → Reaches s (observe_early bolt codec m ticks c) c s
  unfolding observe_early
  unobserved-Reaches m [] c s e = record { reached = refl }
  unobserved-Reaches m (now ∷ later) c s e = cc

module _ {Db Udb : Type 0} (bolt : Bolt Db) (codec : Codec) (users : Bolt Udb) (trust : Trust)
    (deliver : Letter → Bool) (blank : Db) (no_users : Udb) (parsers : Parsers) (m : Machine)
    (file : FileConfig) (servers : List ServerConfig) (set : IsWellSet m parsers file servers) where
  prepare_pool-Reaches :
      (s : Site Db Udb)
      → (state : State) × Reaches s
          (prepare_pool bolt codec users trust deliver blank no_users parsers m (lb_config file))
          state
          s
        × IsValid state
        × All (IsChecked m.dial state.heap) state.pool.servers
  unfolding prepare_pool
  prepare_pool-Reaches s =
      let (state, started, valid, marks) =
        start_up-IsValid m.dial parsers.url servers m.heap set.unfilled set.limits set.few in
      let checked = λ (c : List ServerConfig).
        lift {S = Site Db Udb} (unpanicked (start_up parsers.url m.dial c m.heap)) in
      let tick = unpanicked (new_ticker (lb_config file).health_check_period) in
      let check = λ (st : State). lift {S = Site Db Udb} tick >> pure st in
      let wait = λ (r : State × ℕ). lift {S = Site Db Udb} (waited r) >>= check in
      (
        state,
        Reaches-bind (lift (servers_configure m parsers)) (λ c. checked c >>= wait) s s s servers
            state (lift-Reaches s _ servers (servers_configure-done m parsers servers set.pool))
            (Reaches-bind (checked servers) wait s s s (state, 0) state
              (lift-Reaches s _ (state, 0) (ap unpanicked started))
              (Reaches-bind (lift (done state)) check s s s state state
                (lift-Reaches s (done state) state refl)
                (Reaches-then (lift tick) (pure state) s s s state
                  (lift-Reaches s tick tt (ap unpanicked (new_ticker-checks file set.checks)))
                  (lift-Reaches s (done state) state refl)))),
        valid,
        marks,
      )

  module _ (law : IsTransactional users) (has : HasBuckets users) (pb sb : Bytes)
      (drawn : IsDrawn m.draws pb sb) (limit : HasLimit m.draws) (verifies : Verifies trust m.draws)
      (missing : users.bucket default_user no_users ≡ none) where
    -- If the files, directories, variables, key pair and port that main asks for are there and the
    -- configuration can be started (the periods of the cleaner and of the health check from 1 to
    -- 9223372036854 ms, limits that are not negative, fewer than 2^31 servers, metadata in every
    -- bucket of the cache), and no tick of the cleaner or of the health check comes before, main
    -- gets to http.Serve: the pool is valid, every server is marked as its dial said, the two
    -- databases are those of their files, and the users are those of the file or, where there was
    -- none, have an admin whom "verySecureAdminPassword12345" lets in. Bolt must commit and keep
    -- its buckets as documented, bcrypt must take up to 72 bytes and verify what it hashed, and
    -- rand must fill its slices.
    pub main-serves :
        (s : Site Db Udb)
        → HasMetadata bolt codec
            (content_or blank s.cache_db)
            (bolt.names (content_or blank s.cache_db))
        → (v : Serving Db Udb) × (t : Site Db Udb) × (main bolt codec users trust deliver blank
              no_users parsers m s
            ≡ (done v, t))
          × (v.config ≡ lb_config file)
          × IsValid v.system.state
          × All (IsChecked m.dial v.system.state.heap) v.system.state.pool.servers
          × (t.cache_db ≡ some v.system.cache.db)
          × (t.users_db ≡ some v.system.accounts.db)
          × Entered users trust s.users_db v.system.accounts.db
    unfolding main serving
    main-serves s metadata =
        let config = lb_config file in
        let (c, d, same, cached) =
          prepare_cache-Reaches bolt codec users trust deliver blank no_users parsers m file s
            set.ticks set.made set.made_pages set.opens_pages set.opens_cache metadata in
        let s₁ : Site Db Udb = record s {
          cache_directory = true;
          disk = d;
          cache_db = some (content_or blank s.cache_db);
        } in
        let (state, pooled, valid, marks) = prepare_pool-Reaches s₁ in
        let svc = service_of m parsers file servers set in
        let (after, entered, how) =
          prepare_accounts-Reaches m parsers file servers set users trust deliver law has pb sb
            drawn limit verifies no_users missing s₁ in
        let s₂ : Site Db Udb = record s₁ { users_db = some after } in
        let v = serving bolt config c state (after, svc) in
        let finish =
          λ (cf : LoadBalancerConfig) (x : CachingProperties Db) (st : State) (a : Udb × Service).
            lift (listen m cf.port) >> pure {S = Site Db Udb} (serving bolt cf x st a) in
        let with_ticks = λ (cf : LoadBalancerConfig) (st : State) (x : CachingProperties Db).
          prepare_accounts {Db = Db} m users trust deliver no_users >>= finish cf x st in
        let with_pool = λ (cf : LoadBalancerConfig) (x : CachingProperties Db) (st : State).
          observe_early bolt codec m m.ticks x >>= with_ticks cf st in
        let with_cache = λ (cf : LoadBalancerConfig) (x : CachingProperties Db).
          prepare_pool bolt codec users trust deliver blank no_users parsers m cf
          >>= with_pool cf x in
        let with_file = λ (fc : FileConfig).
          prepare_cache bolt codec users trust deliver blank no_users parsers m (lb_config fc)
          >>= with_cache (lb_config fc) in
        let run =
          Reaches-bind (lift (load_balancer_configure m parsers)) with_file s s s₂ file v
            (lift-Reaches s _ file (load_balancer_configure-done m parsers file set.config))
            (Reaches-bind _ (with_cache config) s s₁ s₂ c v cached (
              Reaches-bind _ (with_pool config c) s₁ s₁ s₂ state v pooled (
                Reaches-bind _ (with_ticks config state) s₁ s₁ s₂ c v
                  (unobserved-Reaches bolt codec m m.ticks c s₁ set.quiet)
                  (Reaches-bind _ (finish config c state) s₁ s₂ s₂ (after, svc) v entered
                    (Reaches-then _ _ s₂ s₂ s₂ v
                      (lift-Reaches s₂ (listen m config.port) tt
                        (listen-done m parsers file servers set))
                      (lift-Reaches s₂ (done v) v refl)))))) in
        (v, s₂, run.reached, refl, valid, marks, ap some (sym same), refl, how)
