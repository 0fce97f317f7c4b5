-- ===== src/Boot/Entering.antt =====
-- main.go, main: the users' database in a start in which nothing fails.
use bduts.Prelude.{
  ℕ, ◌<◌, ◌≡◌, ◌⊎◌, refl, ap, inl, inr, Bool, true, false, List, [], Option, none, some, length,
  All,
}
use bduts.Prelude.Int.{half32}
use bduts.Cache.Disk.{Bytes}
use bduts.Cache.Bolt.{Bolt, DbError, IsTransactional, HasBuckets}
use bduts.Backend.{ServerConfig}
use bduts.ServerPool.Steps.{Fits}
use bduts.Lb.Starting.{FileConfig, lb_config}
use bduts.Lb.Starting.Ready.{HasCapacity}
use bduts.Mail.{Sender, Letter, is_blank}
use bduts.Auth.{Trust, Service, is_authorized}
use bduts.Auth.Limits.{HasLimit, IsDrawn}
use bduts.Auth.SigningUp.{Verifies}
use bduts.Boot.{done, or_fatal, sign_key_missing, Site, Machine, Parsers, ◌>>=◌, lift, gets, pure}
use bduts.Boot.Opening.{
  get_env, content_or, new_service, connect, make_sender, is_file_exist, prepare_users, enter_users,
  settled, prepare_accounts, listen,
}
use bduts.Boot.FirstStart.{default_user, default_password, prepare_users-opens}
use bduts.Boot.Ticking.{Ticks}
use bduts.Boot.Reached.{Reads, Reaches, Reaches-bind, lift-Reaches, gets-Reaches}

-- The machine gives main what it asks for: the two files, the directories and databases, the variables
-- of the environment, the key pair and the port; and the files say what can be started.
pub record IsWellSet (m : Machine) (parsers : Parsers) (file : FileConfig)
    (servers : List ServerConfig) : Type 0 where
  pub config : Reads parsers.config (m.reading "./resources/config.json") file
  pub pool : Reads parsers.servers (m.reading "./resources/servers.json") servers
  pub ticks : Ticks file.observe_frequency
  pub checks : Ticks file.health_check_period
  pub quiet : m.ticks ≡ []
  pub made : m.denies "./cache-data" ≡ false
  pub made_pages : m.denies "./cache-data/db" ≡ false
  pub opens_pages : m.opens "./cache-data/db" ≡ true
  pub opens_cache : m.opens "./cache-data/database.db" ≡ true
  pub opens_users : m.opens "./db/users.db" ≡ true
  pub user : is_blank (get_env (m.variable "SMTP_USER")) ≡ false
  pub password : is_blank (get_env (m.variable "SMTP_PASSWORD")) ≡ false
  pub host : is_blank (get_env (m.variable "SMTP_HOST")) ≡ false
  pub smtp_port : is_blank (get_env (m.variable "SMTP_PORT")) ≡ false
  pub key : Bytes
  pub keyed : m.variable "JWT_SIGNING_KEY" ≡ some key
  pub pair : m.has_key_pair ≡ true
  pub free_port : m.listens file.port ≡ true
  pub limits : All HasCapacity servers
  pub few : length servers < half32
  pub unfilled : (r : ℕ) → Fits (m.heap.cell r)

-- The users are those of the file, or the first admin.
abbrev pub Entered : {Udb : Type 0} → Bolt Udb → Trust → Option Udb → Udb → Type 0
Entered users trust before after =
    (before ≡ some after)
    ⊎ ((before ≡ none) × (is_authorized trust users default_user default_password after ≡ true))

module _ (m : Machine) (parsers : Parsers) (file : FileConfig) (servers : List ServerConfig)
    (set : IsWellSet m parsers file servers) where
  -- The sender of letters and the service that the variables make
  abbrev pub sender_of : Sender
  sender_of = record {
    auth = record {
      identity = [];
      username = get_env (m.variable "SMTP_USER");
      password = get_env (m.variable "SMTP_PASSWORD");
      host = get_env (m.variable "SMTP_HOST");
    };
    from = get_env (m.variable "SMTP_USER");
    host = get_env (m.variable "SMTP_HOST");
    port = get_env (m.variable "SMTP_PORT");
  }

  abbrev pub service_of : Service
  service_of = new_service sender_of set.key

  make_sender-done : make_sender m ≡ done sender_of
  unfolding make_sender
  make_sender-done = rw (make_sender, set.user, set.password, set.host, set.smtp_port) refl

  pub listen-done : listen m (lb_config file).port ≡ done tt
  unfolding listen lb_config
  listen-done = rw (listen, set.pair, set.free_port) refl

  module _ {Db Udb : Type 0} (users : Bolt Udb) (trust : Trust) (deliver : Letter → Bool) where
    settled-Reaches :
        (t : Site Db Udb) (made : Udb × Option (Option DbError)) (after : Udb)
        → made ≡ (after, none)
        → Reaches t (settled m made) after (record t { users_db = some after })
    settled-Reaches t made after e = record { reached = ap (λ x. settled m x t) e }

    enter_users-Reaches :
        (exists : Bool) (db after : Udb) (t : Site Db Udb)
        → prepare_users users trust deliver service_of exists m.draws db ≡ (after, none)
        → Reaches t
            (enter_users m users trust deliver exists db)
            (after, service_of)
            (record t { users_db = some after })
    unfolding enter_users
    enter_users-Reaches exists db after t prepared =
        let u : Site Db Udb = record t { users_db = some after } in
        let made = λ (sv : Service). prepare_users users trust deliver sv exists m.draws db in
        let finish =
          λ (sv : Service) (x : Udb). pure {S = Site Db Udb} {A = Udb × Service} (x, sv) in
        let keyed = λ (sd : Sender) (k : Bytes).
          settled m (made (new_service sd k)) >>= finish (new_service sd k) in
        let key_of_tokens = or_fatal sign_key_missing (m.variable "JWT_SIGNING_KEY") in
        let sent = λ (sd : Sender). lift key_of_tokens >>= keyed sd in
        Reaches-bind (lift (make_sender m)) sent t t u sender_of (after, service_of)
          (lift-Reaches t (make_sender m) sender_of make_sender-done)
          (Reaches-bind (lift key_of_tokens) (keyed sender_of) t t u set.key (after, service_of)
            (lift-Reaches t key_of_tokens set.key (ap (or_fatal sign_key_missing) set.keyed))
            (Reaches-bind (settled m (made service_of)) (finish service_of) t u u after
              (after, service_of) (settled-Reaches t (made service_of) after prepared)
              (lift-Reaches u (done (after, service_of)) (after, service_of) refl)))

    connect-Reaches :
        (blank : Udb) (s : Site Db Udb)
        → let db = content_or blank s.users_db in
          Reaches s (connect m blank) db (record s { users_db = some db })
    unfolding connect
    connect-Reaches blank s = record { reached = rw (connect, set.opens_users) refl }

  module _ {Udb : Type 0} (users : Bolt Udb) (trust : Trust) (deliver : Letter → Bool)
      (law : IsTransactional users) (has : HasBuckets users) (pb sb : Bytes)
      (drawn : IsDrawn m.draws pb sb) (limit : HasLimit m.draws) (verifies : Verifies trust m.draws)
      (blank : Udb) (missing : users.bucket default_user blank ≡ none) where
    prepared :
        (u : Option Udb)
        → (after : Udb) × (prepare_users users trust deliver service_of
              (is_file_exist u)
              m.draws
              (content_or blank u)
            ≡ (after, none))
          × Entered users trust u after
    unfolding is_file_exist prepare_users
    prepared (some db) = (db, refl, inl refl)
    prepared none =
        let ((after, made, opens), kept) =
          prepare_users-opens users trust deliver service_of law has m.draws pb sb drawn limit
            verifies blank missing in
        (after, made, inr (refl, opens))

    pub prepare_accounts-Reaches :
        {Db : Type 0} (s : Site Db Udb)
        → (after : Udb) × Reaches s
            (prepare_accounts m users trust deliver blank)
            (after, service_of)
            (record s { users_db = some after })
          × Entered users trust s.users_db after
    unfolding prepare_accounts
    prepare_accounts-Reaches {Db} s =
        let u = s.users_db in
        let db = content_or blank u in
        let (after, made, entered) = prepared u in
        let s₁ : Site Db Udb = record s { users_db = some db } in
        let s₂ : Site Db Udb = record s { users_db = some after } in
        let go =
          λ (exists : Bool) (x : Udb). enter_users {Db = Db} m users trust deliver exists x in
        (
          after,
          Reaches-bind (gets (λ t. is_file_exist t.users_db))
              (λ exists. connect m blank >>= go exists) s s s₂ (is_file_exist u) (after, service_of)
              (gets-Reaches s (λ t. is_file_exist t.users_db))
              (Reaches-bind (connect m blank) (go (is_file_exist u)) s s₁ s₂ db (after, service_of)
                (connect-Reaches users trust deliver blank s)
                (enter_users-Reaches users trust deliver (is_file_exist u) db after s₁ made)),
          entered,
        )
