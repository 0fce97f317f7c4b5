-- ===== src/Boot/Preparing.antt =====
-- main.go, main: the readers, the cache and the pool are prepared without the file of the users.
use bduts.Prelude.{
  ℕ, zero, suc, ◌≡◌, refl, inl, inr, Bool, true, false, List, [], Option-cases, some, arith,
}
use bduts.Prelude.Int.{ℤ}
use bduts.ServerPool.Steps.{State}
use bduts.Cache.Disk.{Bytes, node, place, directory}
use bduts.Cache.Bolt.{Bolt}
use bduts.Cache.Store.{Codec}
use bduts.Mail.{Letter}
use bduts.Auth.{Trust}
use bduts.Lb.Starting.{LoadBalancerConfig, start_up}
use bduts.Boot.{
  Failure, files_directory_denied, done, Machine, Parsers, unpanicked, cache_directory_denied,
  unless_fatal, pages_unopened,
}
use bduts.Boot.Opening.{
  new_ticker, new_caching_properties, make_cache_directory, make_pages_directory,
  cache_cleaner_configure, open_database, content_or, new_cache_cleaner,
}
use bduts.Cache.Whole.{calculate_size}
use bduts.Boot.Readers.{load_balancer_configure, servers_configure}
use bduts.Boot.Steps.{
  unpanicked-early, first_refl, first-place, Keeps-refl, AllKeep, kept_if, is_late, is_late_failure,
  Prepares, lift-Prepares, gets-Prepares, Prepares-bind,
}
use bduts.Boot.Sequence.{waited, prepare_cache, prepare_pool}

unless_fatal-early :
    (e : Failure) (b : Bool) → is_late_failure e ≡ false → is_late (unless_fatal e b) ≡ false
unless_fatal-early e true h = refl
unless_fatal-early e false h = h

waited-early : (r : State × ℕ) → is_late (waited r) ≡ false
waited-early (s, zero) = refl
waited-early (s, suc left) = refl

module _ (m : Machine) (parsers : Parsers) where
  pub load_balancer_configure-early : is_late (load_balancer_configure m parsers) ≡ false
  unfolding load_balancer_configure
  load_balancer_configure-early = ground arith

  servers_configure-early : is_late (servers_configure m parsers) ≡ false
  unfolding servers_configure
  servers_configure-early = ground arith

module _ {Db Udb : Type 0} where
  module _ (m : Machine) where
    make_cache_directory-Keeps :
        (e : Failure) → AllKeep {Db = Db} {Udb = Udb} (make_cache_directory m e)
    unfolding make_cache_directory
    make_cache_directory-Keeps e = record {
      keeps = λ s. ground (
        arith,
        first_refl s.users_db,
        first_refl s.cache_db,
        λ (p : List Bytes). first_refl (node p s.disk),
      );
    }

    open_database-Keeps : (blank : Db) → AllKeep {Db = Db} {Udb = Udb} (open_database m blank)
    unfolding open_database
    open_database-Keeps blank = record {
      keeps = λ s.
          kept_if (m.opens "./cache-data/database.db") s
            (record s { cache_db = some (content_or blank s.cache_db) }) s _ _
            (record { users = first_refl s.users_db; pages = λ p. first_refl (node p s.disk) })
            (Keeps-refl s);
    }

    make_pages_directory-Keeps : AllKeep {Db = Db} {Udb = Udb} (make_pages_directory m)
    unfolding make_pages_directory
    make_pages_directory-Keeps = record {
      keeps = λ s. elim (Option-cases (node [] s.disk)) [
        | inr (entry, there) ↦ rw (make_pages_directory, there) (Keeps-refl s)
        | inl missing ↦
            rw (make_pages_directory, missing)
              (kept_if (m.denies "./cache-data/db") s s
                (record s { disk = place [] directory s.disk }) _ _ (Keeps-refl s)
                (record {
                  users = first_refl s.users_db;
                  pages = λ p. first-place p s.disk missing;
                }))
      ];
    }

    make_cache_directory-Prepares :
        (e : Failure)
        → is_late_failure e ≡ false
        → Prepares {Db = Db} {Udb = Udb} (make_cache_directory m e)
    unfolding make_cache_directory
    make_cache_directory-Prepares e h = record {
      kept = make_cache_directory-Keeps e;
      users = λ s. ground arith;
      early = λ s. ground arith;
    }

    open_database-Prepares : (blank : Db) → Prepares {Db = Db} {Udb = Udb} (open_database m blank)
    unfolding open_database
    open_database-Prepares blank = record {
      kept = open_database-Keeps blank;
      users = λ s. ground arith;
      early = λ s. ground arith;
    }

    make_pages_directory-Prepares : Prepares {Db = Db} {Udb = Udb} (make_pages_directory m)
    unfolding make_pages_directory
    make_pages_directory-Prepares = record {
      kept = make_pages_directory-Keeps;
      users = λ s. ground arith;
      early = λ s. ground arith;
    }

    cache_cleaner_configure-Prepares :
        (f n : ℤ) → Prepares {Db = Db} {Udb = Udb} (cache_cleaner_configure m f n)
    unfolding cache_cleaner_configure
    cache_cleaner_configure-Prepares f n =
        Prepares-bind _ _ (make_cache_directory-Prepares files_directory_denied refl) λ _.
          Prepares-bind _ _ make_pages_directory-Prepares λ _.
            Prepares-bind _ _
              (lift-Prepares (unless_fatal pages_unopened (m.opens "./cache-data/db"))
                (unless_fatal-early pages_unopened _ refl))
              λ _. lift-Prepares (done (new_cache_cleaner n f)) refl

module _ {Db Udb : Type 0} (bolt : Bolt Db) (codec : Codec) (users : Bolt Udb) (trust : Trust)
    (deliver : Letter → Bool) (blank : Db) (no_users : Udb) (parsers : Parsers) (m : Machine) where
  pub prepare_cache-Prepares :
      (config : LoadBalancerConfig)
      → Prepares (prepare_cache bolt codec users trust deliver blank no_users parsers m config)
  unfolding prepare_cache
  prepare_cache-Prepares config =
      Prepares-bind _ _ (make_cache_directory-Prepares m cache_directory_denied refl) λ _.
        Prepares-bind _ _ (open_database-Prepares m blank) λ db.
          Prepares-bind _ _
            (lift-Prepares (unpanicked (new_ticker config.observe_frequency)) (unpanicked-early _))
            λ _.
              Prepares-bind _ _
                (cache_cleaner_configure-Prepares m config.observe_frequency config.max_cache_size)
                λ cleaner. Prepares-bind _ _ (gets-Prepares (λ s. s.disk)) λ disk.
                  lift-Prepares
                    (unpanicked
                      (calculate_size bolt codec (new_caching_properties db cleaner disk)))
                    (unpanicked-early _)

  pub prepare_pool-Prepares :
      (config : LoadBalancerConfig)
      → Prepares (prepare_pool bolt codec users trust deliver blank no_users parsers m config)
  unfolding prepare_pool
  prepare_pool-Prepares config =
      Prepares-bind _ _
        (lift-Prepares (servers_configure m parsers) (servers_configure-early m parsers))
        λ servers.
          Prepares-bind _ _
            (lift-Prepares (unpanicked (start_up parsers.url m.dial servers m.heap))
              (unpanicked-early _))
            λ checked.
              Prepares-bind _ _ (lift-Prepares (waited checked) (waited-early checked)) λ state.
                Prepares-bind _ _
                  (lift-Prepares (unpanicked (new_ticker config.health_check_period))
                    (unpanicked-early _))
                  λ _. lift-Prepares (done state) refl
