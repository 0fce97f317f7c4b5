-- ===== src/Boot/Opening.antt =====
-- main.go, the steps that make and open what main needs: the directories and the database of the cache
-- with cacheCleanerConfigure, the database of the users, the first admin, and the listener; with
-- OpenDatabase and NewCachingProperties (cache/cache.go), NewCacheCleaner (cache/cacheCleaner.go),
-- Connect (db/db.go) and New (auth/auth.go).
use bduts.Prelude.{ℕ, suc, Bool, true, false, List, [], ◌∷◌, Option, none, some, if◌then◌else◌}
use bduts.Prelude.Int.{ℤ, pos, leb_ℤ}
use bduts.Prelude.Go.{Go, ret, panic}
use bduts.Cache.Disk.{Bytes, Disk, directory, node, place}
use bduts.Cache.Bolt.{Bolt, DbError}
use bduts.Cache.Store.{CachingProperties}
use bduts.Cache.Whole.{check_disk}
use bduts.Mail.{Sender, Letter, new_sender}
use bduts.Auth.{Draws, Trust, Service}
use bduts.Auth.Handlers.{sign_up_default_user}
use bduts.Boot.{
  Failure, cache_unopened, files_directory_denied, pages_directory_denied, pages_unopened,
  users_unopened, sign_key_missing, default_user_failed, key_pair_unread, listener_failed, Ended,
  done, fatal, Site, Machine, Boot, ◌>>=◌, ◌>>◌, pure, lift, gets, or_fatal, unless_fatal, sent_by,
}

-- time.NewTicker, which panics unless the duration is positive
unfoldable pub new_ticker : ℤ → Go (Unit {0})
new_ticker d = if leb_ℤ d (pos 0) then panic else ret tt

-- CacheCleaner, without its open directory and its fill factor; see is_size_exceeded for the latter.
pub record CacheCleaner : Type 0 where
  pub max_file_size : ℤ
  pub frequency : ℤ

unfoldable pub new_cache_cleaner : ℤ → ℤ → CacheCleaner
new_cache_cleaner max_file_size frequency = record {
  max_file_size = max_file_size;
  frequency = frequency;
}

unfoldable pub new_caching_properties :
    {Db : Type 0} → Db → CacheCleaner → Disk → CachingProperties Db
new_caching_properties db cleaner disk = record {
  db = db;
  disk = disk;
  size = pos 0;
  max_file_size = cleaner.max_file_size;
  untold = [];
}

-- auth.New; the database and the validator are arguments of the handlers.
unfoldable pub new_service : Sender → Bytes → Service
new_service sender sign_key = record { sender = sender; sign_key = sign_key }

-- The pagesCount that CalculateSize comes to, where every bucket has its metadata
unfoldable pub count_pages : List Bytes → Disk → ℕ
unfolding check_disk
count_pages [] d = 0
count_pages (name ∷ rest) d = let n = count_pages rest d in if check_disk name d then suc n else n

-- os.Getenv
abbrev pub get_env : Option Bytes → Bytes
get_env none = []
get_env (some value) = value

-- isFileExist
unfoldable pub is_file_exist : {A : Type 0} → Option A → Bool
is_file_exist none = false
is_file_exist (some file) = true

-- bolt.Open: a file that is not there is made, with no bucket.
abbrev pub content_or : {A : Type 0} → A → Option A → A
content_or blank none = blank
content_or blank (some db) = db

-- The accounts' database when the serving begins, where the file of the users was there before or not,
-- and the error that main ends with
unfoldable pub prepare_users :
    {Udb : Type 0}
    → Bolt Udb
    → Trust
    → (Letter → Bool)
    → Service
    → Bool
    → Draws
    → Udb
    → Udb × Option (Option DbError)
unfolding sign_up_default_user
prepare_users users trust deliver svc exists draws db =
    if exists then (db, none) else sign_up_default_user users trust deliver svc draws db

module _ (m : Machine) where
  unfoldable pub make_sender : Ended Sender
  unfolding new_sender
  make_sender = sent_by (
      new_sender (get_env (m.variable "SMTP_USER")) (get_env (m.variable "SMTP_PASSWORD"))
        (get_env (m.variable "SMTP_HOST")) (get_env (m.variable "SMTP_PORT")) true)

  -- tls.LoadX509KeyPair and tls.Listen
  unfoldable pub listen : ℤ → Ended (Unit {0})
  listen port =
      if m.has_key_pair
      then unless_fatal listener_failed (m.listens port)
      else fatal key_pair_unread

module _ {Db Udb : Type 0} (m : Machine) where
  -- os.Mkdir of cache.DbDirectory; that it exists is no failure.
  unfoldable pub make_cache_directory : Failure → Boot (Site Db Udb) (Unit {0})
  make_cache_directory e s =
      if s.cache_directory
      then (done tt, s)
      else if m.denies "./cache-data"
      then (fatal e, s)
      else (done tt, record s { cache_directory = true })

  -- os.Mkdir of cache.PagesPath
  unfoldable pub make_pages_directory : Boot (Site Db Udb) (Unit {0})
  make_pages_directory s = elim (node [] s.disk) [
    | some entry ↦ (done tt, s)
    | none ↦
        if m.denies "./cache-data/db"
        then (fatal pages_directory_denied, s)
        else (done tt, record s { disk = place [] directory s.disk })
  ]

  unfoldable pub cache_cleaner_configure : ℤ → ℤ → Boot (Site Db Udb) CacheCleaner
  unfolding make_cache_directory make_pages_directory new_cache_cleaner
  cache_cleaner_configure frequency max_cache_size = do
    make_cache_directory files_directory_denied
    make_pages_directory
    lift (unless_fatal pages_unopened (m.opens "./cache-data/db"))
    pure (new_cache_cleaner max_cache_size frequency)

  -- OpenDatabase; a failure leaves the file as it was.
  unfoldable pub open_database : Db → Boot (Site Db Udb) Db
  open_database blank s =
      let db = content_or blank s.cache_db in
      if m.opens "./cache-data/database.db"
      then (done db, record s { cache_db = some db })
      else (fatal cache_unopened, s)

  -- Connect
  unfoldable pub connect : Udb → Boot (Site Db Udb) Udb
  connect blank s =
      let db = content_or blank s.users_db in
      if m.opens "./db/users.db"
      then (done db, record s { users_db = some db })
      else (fatal users_unopened, s)

  -- The database after SignUpDefaultUser is what its file has.
  abbrev pub settled : Udb × Option (Option DbError) → Boot (Site Db Udb) Udb
  settled (db, none) s = (done db, record s { users_db = some db })
  settled (db, some e) s = (fatal default_user_failed, record s { users_db = some db })

  -- After Connect: the sender of letters, the key of the tokens, and the first admin
  unfoldable pub enter_users :
      Bolt Udb → Trust → (Letter → Bool) → Bool → Udb → Boot (Site Db Udb) (Udb × Service)
  unfolding make_sender new_service prepare_users
  enter_users users trust deliver exists db = do
    sender ← lift (make_sender m)
    sign_key ← lift (or_fatal sign_key_missing (m.variable "JWT_SIGNING_KEY"))
    let svc = new_service sender sign_key
    after ← settled (prepare_users users trust deliver svc exists m.draws db)
    pure (after, svc)

  unfoldable pub prepare_accounts :
      Bolt Udb → Trust → (Letter → Bool) → Udb → Boot (Site Db Udb) (Udb × Service)
  unfolding is_file_exist connect enter_users
  prepare_accounts users trust deliver blank = do
    exists ← gets (λ s. is_file_exist s.users_db)
    db ← connect blank
    enter_users users trust deliver exists db
