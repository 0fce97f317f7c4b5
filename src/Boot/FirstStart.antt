-- ===== src/Boot/FirstStart.antt =====
-- main.go with SignUpDefaultUser (auth/auth.go): the first admin.
use bduts.Prelude.{◌≤◌, ◌≡◌, ◌≢◌, refl, Bool, true, false, [], none, length, arith}
use bduts.Cache.Disk.{Bytes}
use bduts.Cache.Bolt.{Bolt, IsTransactional, HasBuckets}
use bduts.Users.Accounts.{insert_user-Account}
use bduts.Mail.{ascii, Letter}
use bduts.Auth.{base64, Draws, Trust, Service, is_authorized}
use bduts.Auth.Limits.{HasLimit, IsDrawn, hashed-short}
use bduts.Auth.Handlers.{sign_up_default_user}
use bduts.Auth.SigningUp.{Verifies, Opens, is_authorized-Opens}
use bduts.Boot.Opening.{prepare_users}

abbrev pub default_user : Bytes
default_user = ascii "admin"

abbrev pub default_password : Bytes
default_password = ascii "verySecureAdminPassword12345"

default_user_named : default_user ≢ []
unfolding ascii
default_user_named e = ground (arith, e)

default_password_short : length default_password ≤ 44
unfolding ascii
default_password_short = omega arith

module _ {Udb : Type 0} (users : Bolt Udb) (trust : Trust) (deliver : Letter → Bool)
    (svc : Service) where
  open users use {bucket}

  -- Where the file of the users is not there, main makes an admin whom
  -- "verySecureAdminPassword12345" lets in; where it is there, main changes nothing. Bolt must
  -- commit and keep its buckets as documented, bcrypt must take up to 72 bytes and verify what it
  -- hashed, and rand must fill its slices.
  pub prepare_users-opens :
      IsTransactional users
      → HasBuckets users
      → (draws : Draws) (pb sb : Bytes) → IsDrawn draws pb sb
      → HasLimit draws
      → Verifies trust draws
      → (db : Udb) → bucket default_user db ≡ none
      → ((after : Udb) × (prepare_users users trust deliver svc false draws db ≡ (after, none))
          × (is_authorized trust users default_user default_password after ≡ true))
        × (prepare_users users trust deliver svc true draws db ≡ (db, none))
  unfolding prepare_users sign_up_default_user
  prepare_users-opens law has draws pb sb drawn limit verifies db missing =
      let (h, made, done) =
        hashed-short draws pb sb drawn limit default_password default_password_short in
      let (after, stored, account) =
        insert_user-Account users law has default_user (base64 sb) h (ascii "admin@localhost") db
          default_user_named missing in
      let opens : Opens users trust deliver svc default_user default_password after = record {
        salt = base64 sb;
        hash = h;
        email = ascii "admin@localhost";
        account = account;
        matches = verifies _ h made;
      } in
      (
        (
          after,
          rw (sign_up_default_user, done, stored) refl,
          is_authorized-Opens users trust deliver svc default_user default_password after opens,
        ),
        refl,
      )
