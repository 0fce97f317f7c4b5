-- ===== src/Boot/Enrolling.antt =====
-- main.go, main: what becomes of the users' database between Connect and SignUpDefaultUser.
use bduts.Prelude.{
  ◌≡◌, refl, sym, ap, ◌∙◌, subst, Bool, Bool-cases, inl, inr, true, false, Option, none, some,
}
use bduts.Cache.Disk.{Bytes}
use bduts.Cache.Bolt.{Bolt, DbError}
use bduts.Mail.{Sender, Letter}
use bduts.Auth.{Trust, Service}
use bduts.Boot.{
  Ended, done, fatal, crashed, waits, Site, Machine, Boot, ◌>>=◌, pure, lift, or_fatal,
  users_unopened, sign_key_missing,
}
use bduts.Boot.Opening.{
  new_service, settled, content_or, is_file_exist, make_sender, prepare_users, prepare_accounts,
  enter_users, connect,
}
use bduts.Boot.Steps.{is_late, done_inj}

module _ {Db Udb : Type 0} (m : Machine) where
  -- What `enter_users` does, by the sender, the key and the databases that it can come to
  abbrev enrolling :
      Ended Sender
      → Ended Bytes
      → (Service → Udb × Option (Option DbError))
      → Boot (Site Db Udb) (Udb × Service)
  enrolling r k made = do
    sender ← lift r
    key ← lift k
    let svc = new_service sender key
    after ← settled m (made svc)
    pure (after, svc)

  settled_late :
      (svc : Service) (after : Udb × Option (Option DbError)) (s : Site Db Udb)
      → is_late {A = Udb × Service} (◌>>=◌ (settled m after) (λ db. pure (db, svc)) s).0 ≡ false
  settled_late svc (db, none) s = refl
  settled_late svc (db, some e) s = refl

  settled_old :
      (svc : Service) (db : Udb) (s : Site Db Udb) (a : Udb × Service)
      → (◌>>=◌ (settled m (db, none)) (λ db'. pure (db', svc)) s).0 ≡ done a
      → a.0 ≡ db
  settled_old svc db s a ok = ap (λ (x : Udb × Service). x.0) (sym (done_inj ok))

  enrolling_late :
      (r : Ended Sender) (k : Ended Bytes) (made : Service → Udb × Option (Option DbError))
      (s : Site Db Udb)
      → is_late (enrolling r k made s).0 ≡ true
      → (enrolling r k made s).1 ≡ s
  enrolling_late (done sender) (done key) made s late =
      let svc = new_service sender key in let early = settled_late svc (made svc) s in cc
  enrolling_late (done sender) (fatal e) made s late = refl
  enrolling_late (done sender) crashed made s late = refl
  enrolling_late (done sender) waits made s late = refl
  enrolling_late (fatal e) k made s late = refl
  enrolling_late crashed k made s late = refl
  enrolling_late waits k made s late = refl

  enrolling_old :
      (r : Ended Sender) (k : Ended Bytes) (db : Udb) (s : Site Db Udb) (a : Udb × Service)
      → (enrolling r k (λ svc. (db, none)) s).0 ≡ done a
      → a.0 ≡ db
  enrolling_old (done sender) (done key) db s a ok = settled_old (new_service sender key) db s a ok
  enrolling_old (done sender) (fatal e) db s a ok = cc
  enrolling_old (done sender) crashed db s a ok = cc
  enrolling_old (done sender) waits db s a ok = cc
  enrolling_old (fatal e) k db s a ok = cc
  enrolling_old crashed k db s a ok = cc
  enrolling_old waits k db s a ok = cc

module _ {Db Udb : Type 0} (users : Bolt Udb) (trust : Trust) (deliver : Letter → Bool)
    (blank : Udb) (m : Machine) where
  abbrev opened : Site Db Udb → Option Udb → Site Db Udb
  opened s u = record s { users_db = some (content_or blank u) }

  enroll_late :
      (exists : Bool) (db : Udb) (s : Site Db Udb)
      → is_late (enter_users m users trust deliver exists db s).0 ≡ true
      → (enter_users m users trust deliver exists db s).1 ≡ s
  unfolding enter_users
  enroll_late exists db s late =
      enrolling_late m (make_sender m) (or_fatal sign_key_missing (m.variable "JWT_SIGNING_KEY"))
        (λ svc. prepare_users users trust deliver svc exists m.draws db) s late

  enroll_old :
      (db : Udb) (s : Site Db Udb) (a : Udb × Service)
      → (enter_users m users trust deliver true db s).0 ≡ done a
      → a.0 ≡ db
  unfolding enter_users prepare_users
  enroll_old db s a ok =
      enrolling_old m (make_sender m) (or_fatal sign_key_missing (m.variable "JWT_SIGNING_KEY")) db
        s a ok

  accounts_opened :
      (s : Site Db Udb) (u : Option Udb)
      → s.users_db ≡ u
      → m.opens "./db/users.db" ≡ true
      → prepare_accounts m users trust deliver blank s
        ≡ enter_users m users trust deliver (is_file_exist u) (content_or blank u) (opened s u)
  unfolding prepare_accounts
  accounts_opened s u e opens =
      subst
        (λ x.
          prepare_accounts m users trust deliver blank s
          ≡ enter_users m users trust deliver (is_file_exist x) (content_or blank x) (opened s x))
        e (rw (prepare_accounts, connect, ◌>>=◌, opens) (rw (connect, opens) refl))

  accounts_shut :
      (s : Site Db Udb)
      → m.opens "./db/users.db" ≡ false
      → prepare_accounts m users trust deliver blank s ≡ (fatal users_unopened, s)
  unfolding prepare_accounts
  accounts_shut s opens = rw (prepare_accounts, connect, ◌>>=◌, opens) (rw (connect, opens) refl)

  pub accounts_late :
      (s : Site Db Udb)
      → s.users_db ≡ none
      → is_late (prepare_accounts m users trust deliver blank s).0 ≡ true
      → (prepare_accounts m users trust deliver blank s).1.users_db ≡ some blank
  unfolding is_file_exist
  accounts_late s e late = elim (Bool-cases (m.opens "./db/users.db")) [
    | inl opens ↦
        let same = accounts_opened s none e opens in
        let stays =
          enroll_late false blank (opened s none) (subst (λ r. is_late r.0 ≡ true) same late) in
        ap (λ (r : Ended (Udb × Service) × Site Db Udb). r.1.users_db) same
        ∙ ap (λ (t : Site Db Udb). t.users_db) stays
    | inr shut ↦
        let same = accounts_shut s shut in
        let early = subst (λ r. is_late r.0 ≡ true) same late in cc
  ]

  pub accounts_old :
      (s : Site Db Udb) (old : Udb) (a : Udb × Service)
      → s.users_db ≡ some old
      → (prepare_accounts m users trust deliver blank s).0 ≡ done a
      → a.0 ≡ old
  unfolding is_file_exist
  accounts_old s old a e ok = elim (Bool-cases (m.opens "./db/users.db")) [
    | inl opens ↦
        enroll_old old (opened s (some old)) a
          (subst (λ r. r.0 ≡ done a) (accounts_opened s (some old) e opens) ok)
    | inr shut ↦ let never = subst (λ r. r.0 ≡ done a) (accounts_shut s shut) ok in cc
  ]
