-- ===== src/Boot/Keeping.antt =====
-- main.go, main: what a start leaves of the files that were there before, however it ends.
use bduts.Prelude.{◌≡◌, refl, sym, ap, subst, Bool, true, false, Option, none, some, arith}
use bduts.Cache.Disk.{node}
use bduts.Cache.Bolt.{Bolt, DbError}
use bduts.Cache.Store.{Codec}
use bduts.Mail.{Letter}
use bduts.Auth.{Draws, Trust, Service}
use bduts.Lb.Starting.{lb_config}
use bduts.Boot.{
  done, Site, Machine, Parsers, Boot, ◌>>=◌, pure, lift, gets, or_fatal, sign_key_missing,
}
use bduts.Boot.Opening.{
  new_service, listen, connect, prepare_accounts, content_or, settled, make_sender, is_file_exist,
  prepare_users,
}
use bduts.Boot.Readers.{load_balancer_configure}
use bduts.Boot.Steps.{
  first, first_refl, first_content, Keeps, Keeps-refl, Keeps-bind, goes_on, AllKeep, lift-Keeps,
  kept_if, done_inj,
}
use bduts.Boot.Preparing.{prepare_cache-Prepares, prepare_pool-Prepares}
use bduts.Boot.Observed.{observe_early-Prepares}
use bduts.Boot.Sequence.{serving, main}

module _ {Db Udb : Type 0} where
  -- A step from `t`, where `s` was first and `P` is known
  record KeepsFrom {ℓ} {A : Type ℓ} (P : Type 0) (s t : Site Db Udb) (m : Boot (Site Db Udb) A)
      : Type ℓ where
    keeps : P → Keeps s (m t).1

  from-bind {κ} :
      {A : Type 0} {B : Type κ} (P : Type 0) (s t : Site Db Udb) (m : Boot (Site Db Udb) A)
      (f : A → Boot (Site Db Udb) B)
      → (P → Keeps s (m t).1)
      → ((a : A) → KeepsFrom (P × ((m t).0 ≡ done a)) s (m t).1 (f a))
      → KeepsFrom P s t (m >>= f)
  from-bind P s t m f h k = record {
    keeps = λ p. goes_on f s (m t).1 (m t).0 (h p) (λ a e. (k a).keeps (p, e));
  }

  module _ (m : Machine) where
    connect-Keeps : (blank : Udb) → AllKeep {Db = Db} (connect m blank)
    unfolding connect
    connect-Keeps blank = record {
      keeps = λ s.
          kept_if (m.opens "./db/users.db") s
            (record s { users_db = some (content_or blank s.users_db) }) s _ _
            (record {
              users = first_content blank s.users_db;
              pages = λ p. first_refl (node p s.disk);
            })
            (Keeps-refl s);
    }

    connect-done :
        (blank db : Udb) (s : Site Db Udb)
        → (connect m blank s).0 ≡ done db
        → ((connect m blank s).1 ≡ record s { users_db = some db })
          × (db ≡ content_or blank s.users_db)
    unfolding connect
    connect-done blank db s e = ground (arith, e)

    settled-Keeps :
        (s : Site Db Udb) (db : Udb) (r : Udb × Option (Option DbError))
        → first s.users_db (some r.0) ≡ some r.0
        → Keeps s (settled m r (record s { users_db = some db })).1
    settled-Keeps s db (after, none) h = record {
      users = h;
      pages = λ p. first_refl (node p s.disk);
    }
    settled-Keeps s db (after, some e) h = record {
      users = h;
      pages = λ p. first_refl (node p s.disk);
    }

module _ {Udb : Type 0} (users : Bolt Udb) (trust : Trust) (deliver : Letter → Bool)
    (blank : Udb) where
  -- SignUpDefaultUser is called only where there was no file.
  prepare_users-kept :
      (svc : Service) (draws : Draws) (u : Option Udb) (exists : Bool) (db : Udb)
      → is_file_exist u ≡ exists
      → db ≡ content_or blank u
      → let after = (prepare_users users trust deliver svc exists draws db).0 in
        first u (some after) ≡ some after
  unfolding prepare_users is_file_exist
  prepare_users-kept svc draws none exists db e h = refl
  prepare_users-kept svc draws (some old) true db e h = ap some (sym h)
  prepare_users-kept svc draws (some old) false db e h = cc

  settled_after :
      {Db : Type 0} (m : Machine) (s : Site Db Udb) (svc : Service) (exists : Bool) (db : Udb)
      → is_file_exist s.users_db ≡ exists
      → (connect m blank s).0 ≡ done db
      → Keeps s
          (settled m
            (prepare_users users trust deliver svc exists m.draws db)
            (connect m blank s).1).1
  settled_after m s svc exists db found opened =
      let made = prepare_users users trust deliver svc exists m.draws db in
      let (same, content) = connect-done m blank db s opened in
      subst (λ x. Keeps s (settled m made x).1) (sym same)
        (settled-Keeps m s db made
          (prepare_users-kept svc m.draws s.users_db exists db found content))

  prepare_accounts-Keeps :
      {Db : Type 0} (m : Machine) (s : Site Db Udb)
      → KeepsFrom Unit s s (prepare_accounts m users trust deliver blank)
  unfolding prepare_accounts
  prepare_accounts-Keeps m s =
      let kept = (connect-Keeps m blank).keeps s in
      let t = (connect m blank s).1 in
      from-bind _ s s (gets (λ s'. is_file_exist s'.users_db)) _ (λ _. Keeps-refl s)
        λ exists.
          from-bind _ s s (connect m blank) _ (λ _. kept)
            λ db.
              from-bind _ s t (lift (make_sender m)) _ (λ _. kept)
                λ sender.
                  from-bind _ s t (lift (or_fatal sign_key_missing (m.variable "JWT_SIGNING_KEY")))
                    _ (λ _. kept)
                    λ key.
                      let svc = new_service sender key in
                      from-bind _ s t
                        (settled m (prepare_users users trust deliver svc exists m.draws db))
                        (λ after. pure (after, svc))
                        (λ known.
                          settled_after m s svc exists db (done_inj known.0.0.0.1) known.0.0.1)
                        λ after. record {
                          keeps = λ known.
                              settled_after m s svc exists db (done_inj known.0.0.0.0.1)
                                known.0.0.0.1;
                        }

  accounts_kept :
      {Db : Type 0} (m : Machine) → AllKeep {Db = Db} (prepare_accounts m users trust deliver blank)
  accounts_kept m = record { keeps = λ s. (prepare_accounts-Keeps m s).keeps tt }

module _ {Db Udb : Type 0} (bolt : Bolt Db) (codec : Codec) (users : Bolt Udb) (trust : Trust)
    (deliver : Letter → Bool) (blank : Db) (no_users : Udb) (parsers : Parsers) (m : Machine) where
  main-AllKeep : AllKeep (main bolt codec users trust deliver blank no_users parsers m)
  unfolding main
  main-AllKeep = Keeps-bind _ _ (lift-Keeps (load_balancer_configure m parsers)) λ file.
      Keeps-bind _ _
        (prepare_cache-Prepares bolt codec users trust deliver blank no_users parsers m
          (lb_config file)).kept
        λ cache.
          Keeps-bind _ _
            (prepare_pool-Prepares bolt codec users trust deliver blank no_users parsers m
              (lb_config file)).kept
            λ state.
              Keeps-bind _ _ (observe_early-Prepares bolt codec m m.ticks cache).kept λ cache'.
                Keeps-bind _ _ (accounts_kept users trust deliver no_users m) λ accounts.
                  Keeps-bind _ _ (lift-Keeps (listen m (lb_config file).port))
                    λ _. lift-Keeps (done (serving bolt (lb_config file) cache' state accounts))

  -- However main ends, by logger.Fatal, a panic, or serving, and whatever ticks of the cleaner
  -- came before, it leaves a database of the users that was there before as it was, and every file
  -- and directory of the pages.
  pub main-Keeps :
      (s : Site Db Udb) → Keeps s (main bolt codec users trust deliver blank no_users parsers m s).1
  main-Keeps s = main-AllKeep.keeps s
