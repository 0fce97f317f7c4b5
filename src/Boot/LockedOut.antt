-- ===== src/Boot/LockedOut.antt =====
-- main.go, main: a first start that ends between the opening of the users' database and
-- SignUpDefaultUser, and the starts after it.
use bduts.Prelude.{
  ◌≡◌, refl, sym, ap, ◌∙◌, subst, Bool, true, false, List, [], ◌∷◌, none, some, arith,
}
use bduts.Prelude.Int.{ℤ}
use bduts.Cache.Disk.{Bytes}
use bduts.Cache.Bolt.{Bolt}
use bduts.Cache.Store.{Codec, CachingProperties}
use bduts.Mail.{Letter}
use bduts.Auth.{Trust, Service, is_authorized}
use bduts.Lb.Starting.{LoadBalancerConfig, lb_config}
use bduts.Boot.{Ended, done, fatal, crashed, waits, Site, Machine, Parsers, ◌>>=◌, ◌>>◌, pure, lift}
use bduts.Boot.Readers.{load_balancer_configure}
use bduts.Boot.Opening.{prepare_accounts, listen}
use bduts.Boot.Observed.{observe_early-Prepares}
use bduts.ServerPool.Steps.{State}
use bduts.Boot.Sequence.{Serving, serving, main}
use bduts.Users.{get_salt_and_hash}
use bduts.Boot.Steps.{first, is_late, Prepares, lift-Prepares, Prepares-bind, done_inj}
use bduts.Boot.Preparing.{
  load_balancer_configure-early, prepare_cache-Prepares, prepare_pool-Prepares,
}
use bduts.Boot.Keeping.{main-Keeps}
use bduts.Boot.Enrolling.{accounts_late, accounts_old}
use bduts.Boot.Late.{LeavesBlank, LeavesBlank-bind, LeavesBlank-last, Finds, Finds-bind, Finds-last}

listen-early : (m : Machine) (port : ℤ) → is_late (listen m port) ≡ false
unfolding listen
listen-early m port = ground arith

module _ {Db Udb : Type 0} (bolt : Bolt Db) (codec : Codec) (users : Bolt Udb) (trust : Trust)
    (deliver : Letter → Bool) (blank : Db) (no_users : Udb) (parsers : Parsers) where
  -- Starts one after the other, with nothing between them
  unfoldable pub starts : List Machine → Site Db Udb → Site Db Udb
  starts [] s = s
  starts (m ∷ later) s =
      starts later (main bolt codec users trust deliver blank no_users parsers m s).1

  module _ (m : Machine) where
    serves_late :
        (port : ℤ) (v : Serving Db Udb)
        → Prepares {Db = Db} {Udb = Udb} (lift (listen m port) >> pure v)
    serves_late port v =
        Prepares-bind _ _ (lift-Prepares (listen m port) (listen-early m port))
          λ _. lift-Prepares (done v) refl

    main-LeavesBlank :
        LeavesBlank no_users (main bolt codec users trust deliver blank no_users parsers m)
    unfolding main
    main-LeavesBlank =
        LeavesBlank-bind no_users _ _
          (lift-Prepares (load_balancer_configure m parsers)
            (load_balancer_configure-early m parsers))
          λ file.
            LeavesBlank-bind no_users _ _
              (prepare_cache-Prepares bolt codec users trust deliver blank no_users parsers m
                (lb_config file))
              λ cache.
                LeavesBlank-bind no_users _ _
                  (prepare_pool-Prepares bolt codec users trust deliver blank no_users parsers m
                    (lb_config file))
                  λ state.
                    LeavesBlank-bind no_users _ _
                      (observe_early-Prepares bolt codec m m.ticks cache)
                      λ cache'.
                        LeavesBlank-last no_users (prepare_accounts m users trust deliver no_users)
                          _ (record { late = accounts_late users trust deliver no_users m })
                          λ accounts.
                            serves_late (lb_config file).port
                              (serving bolt (lb_config file) cache' state accounts)

    listened :
        (r : Ended (Unit {0})) (v b : Serving Db Udb) (s : Site Db Udb)
        → (◌>>◌ (lift r) (pure v) s).0 ≡ done b
        → v ≡ b
    listened (done u) v b s ok = done_inj ok
    listened (fatal e) v b s ok = absurd (ground (arith, ok))
    listened crashed v b s ok = absurd (ground (arith, ok))
    listened waits v b s ok = absurd (ground (arith, ok))

    accounts_Finds :
        (old : Udb) (config : LoadBalancerConfig) (cache : CachingProperties Db) (state : State)
        → Finds {Db = Db} old
            (λ (v : Serving Db Udb). v.system.accounts.db ≡ old)
            (prepare_accounts m users trust deliver no_users >>= (λ accounts.
              lift (listen m config.port) >> pure (serving bolt config cache state accounts)))
    unfolding serving
    accounts_Finds old config cache state =
        Finds-last old (λ (a : Udb × Service). a.0 ≡ old) _
          (prepare_accounts m users trust deliver no_users)
          (λ accounts.
            lift (listen m config.port) >> pure (serving bolt config cache state accounts))
          (record { found = λ s a e ok. accounts_old users trust deliver no_users m s old a e ok })
          λ accounts s v same ok.
            ap (λ (x : Serving Db Udb). x.system.accounts.db)
              (sym
                (listened (listen m config.port) (serving bolt config cache state accounts) v s ok))
            ∙ same

    main-Finds :
        (old : Udb)
        → Finds old
            (λ (v : Serving Db Udb). v.system.accounts.db ≡ old)
            (main bolt codec users trust deliver blank no_users parsers m)
    unfolding main serving
    main-Finds old =
        Finds-bind old _ _ _
          (lift-Prepares (load_balancer_configure m parsers)
            (load_balancer_configure-early m parsers))
          λ file.
            Finds-bind old _ _ _
              (prepare_cache-Prepares bolt codec users trust deliver blank no_users parsers m
                (lb_config file))
              λ cache.
                Finds-bind old _ _ _
                  (prepare_pool-Prepares bolt codec users trust deliver blank no_users parsers m
                    (lb_config file))
                  λ state.
                    Finds-bind old _ _ _ (observe_early-Prepares bolt codec m m.ticks cache)
                      λ cache'. accounts_Finds old (lb_config file) cache' state

  starts-keep :
      (later : List Machine) (s : Site Db Udb) (old : Udb)
      → s.users_db ≡ some old
      → (starts later s).users_db ≡ some old
  unfolding starts
  starts-keep [] s old e = e
  starts-keep (m ∷ later) s old e =
      let t = (main bolt codec users trust deliver blank no_users parsers m s).1 in
      let kept = (main-Keeps bolt codec users trust deliver blank no_users parsers m s).users in
      starts-keep later t old (sym (subst (λ x. first x t.users_db ≡ t.users_db) e kept))

  no_account :
      (name password : Bytes) (db : Udb)
      → users.bucket name db ≡ none
      → is_authorized trust users name password db ≡ false
  unfolding is_authorized get_salt_and_hash
  no_account name password db e = rw (is_authorized, get_salt_and_hash, e) refl

  -- If there was no file of the users and a start ends because the variables of the mail or the
  -- key of the tokens are missing, then no later start makes the first admin: after any number of
  -- further starts, however they end, a start that gets to http.Serve serves a database in which
  -- no password opens any account. The new database of bolt must have no bucket.
  pub main-locked_out :
      (first_start later_start : Machine) (between : List Machine) (s : Site Db Udb)
      (v : Serving Db Udb) (name password : Bytes)
      → s.users_db ≡ none
      → is_late (main bolt codec users trust deliver blank no_users parsers first_start s).0 ≡ true
      → ((key : Bytes) → users.bucket key no_users ≡ none)
      → (main bolt codec users trust deliver blank no_users parsers later_start (
          starts between
            (main bolt codec users trust deliver blank no_users parsers first_start s).1)).0
        ≡ done v
      → is_authorized trust users name password v.system.accounts.db ≡ false
  main-locked_out first_start later_start between s v name password new late empty serves =
      let t = (main bolt codec users trust deliver blank no_users parsers first_start s).1 in
      let left = (main-LeavesBlank first_start).late s new late in
      let db =
        (main-Finds later_start no_users).found (starts between t) v
          (starts-keep between t no_users left) serves in
      no_account name password v.system.accounts.db (ap (users.bucket name) db ∙ empty name)
