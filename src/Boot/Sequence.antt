-- ===== src/Boot/Sequence.antt =====
-- main.go, main up to the call of http.Serve: the parts of the program in the order in which they start.
-- The ticks of Observe that come before are made at once, since no later step has to do with the cache.
-- HealthChecker has no tick before.
use bduts.Prelude.{ℕ, Bool, zero, suc, []}
use bduts.ServerPool.Steps.{State}
use bduts.Cache.Bolt.{Bolt}
use bduts.Cache.Store.{Codec, CachingProperties}
use bduts.Cache.Whole.{calculate_size}
use bduts.Mail.{Letter}
use bduts.Auth.{Trust, Service}
use bduts.Lb.Starting.{LoadBalancerConfig, lb_config, start_up}
use bduts.Main.{System}
use bduts.Boot.{
  cache_directory_denied, Ended, done, waits, Site, Machine, Parsers, Boot, ◌>>=◌, ◌>>◌, pure, lift,
  gets, unpanicked,
}
use bduts.Boot.Readers.{load_balancer_configure, servers_configure}
use bduts.Boot.Observing.{observe_early}
use bduts.Boot.Opening.{
  new_ticker, new_caching_properties, count_pages, make_cache_directory, cache_cleaner_configure,
  open_database, prepare_accounts, listen,
}

-- What http.Serve starts with
pub record Serving (Db Udb : Type 0) : Type 0 where
  pub config : LoadBalancerConfig
  pub system : System Db Udb
  pub service : Service
  pub pages_count : ℕ

-- wg.Wait
abbrev pub waited : State × ℕ → Ended State
waited (s, zero) = done s
waited (s, suc left) = waits

unfoldable pub serving :
    {Db Udb : Type 0}
    → Bolt Db
    → LoadBalancerConfig
    → CachingProperties Db
    → State
    → Udb × Service
    → Serving Db Udb
unfolding count_pages
serving bolt config cache state (db, service) = record {
  config = config;
  system = record { state = state; cache = cache; accounts = record { db = db; outbox = [] } };
  service = service;
  pages_count = count_pages (bolt.names cache.db) cache.disk;
}

module _ {Db Udb : Type 0} (bolt : Bolt Db) (codec : Codec) (users : Bolt Udb) (trust : Trust)
    (deliver : Letter → Bool) (blank : Db) (no_users : Udb) (parsers : Parsers) (m : Machine) where
  unfoldable pub prepare_cache : LoadBalancerConfig → Boot (Site Db Udb) (CachingProperties Db)
  unfolding make_cache_directory open_database new_ticker cache_cleaner_configure
      new_caching_properties calculate_size
  prepare_cache config = do
    make_cache_directory m cache_directory_denied
    db ← open_database m blank
    lift (unpanicked (new_ticker config.observe_frequency))
    cleaner ← cache_cleaner_configure m config.observe_frequency config.max_cache_size
    disk ← gets (λ s. s.disk)
    lift (unpanicked (calculate_size bolt codec (new_caching_properties db cleaner disk)))

  -- The goroutine of HealthChecker makes its ticker at once: a panic there ends the program.
  unfoldable pub prepare_pool : LoadBalancerConfig → Boot (Site Db Udb) State
  unfolding servers_configure start_up new_ticker
  prepare_pool config = do
    servers ← lift (servers_configure m parsers)
    checked ← lift (unpanicked (start_up parsers.url m.dial servers m.heap))
    state ← lift (waited checked)
    lift (unpanicked (new_ticker config.health_check_period))
    pure state

  unfoldable pub main : Boot (Site Db Udb) (Serving Db Udb)
  unfolding load_balancer_configure lb_config prepare_cache prepare_pool observe_early
      prepare_accounts listen serving
  main = do
    file ← lift (load_balancer_configure m parsers)
    let config = lb_config file
    cache ← prepare_cache config
    state ← prepare_pool config
    cache' ← observe_early bolt codec m m.ticks cache
    accounts ← prepare_accounts m users trust deliver no_users
    lift (listen m config.port)
    pure (serving bolt config cache' state accounts)
