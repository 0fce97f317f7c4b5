-- ===== src/Auth/SigningUp.antt =====
-- auth/auth.go, SignUp: the account that it makes.
use bduts.Prelude.{◌≤◌, ◌≡◌, ◌≢◌, ap, [], ◌++◌, none, some, length, Bool, true, arith}
use bduts.Http.{ResponseWriter}
use bduts.Cache.Disk.{Bytes}
use bduts.Cache.Bolt.{Bolt, IsTransactional, HasBuckets}
use bduts.Users.Accounts.{Account, insert_user-Account}
use bduts.Mail.{ascii, Letter, letter, credentials, send_sign_up_email}
use bduts.Auth.{base64, Draws, Trust, Service, Accounts, SignUpUser, is_authorized}
use bduts.Auth.Limits.{HasLimit, IsDrawn, password-drawn, hashed-short, length-password}
use bduts.Auth.Handlers.{register, inserted, notified}

-- bcrypt finds again what it hashed.
abbrev pub Verifies : Trust → Draws → Type 0
Verifies trust draws =
    (p h : Bytes) → draws.generate_hash p ≡ some h → trust.compare_hash h p ≡ true

module _ {Db : Type 0} (bolt : Bolt Db) (trust : Trust) (deliver : Letter → Bool)
    (svc : Service) where
  open bolt use {bucket}

  -- An account that a password opens
  pub record Opens (username password : Bytes) (db : Db) : Type 0 where
    pub salt : Bytes
    pub hash : Bytes
    pub email : Bytes
    pub account : Account bolt username salt hash email db
    pub matches : trust.compare_hash hash (password ++ salt) ≡ true

  pub is_authorized-Opens :
      (username password : Bytes) (db : Db)
      → Opens username password db
      → is_authorized trust bolt username password db ≡ true
  unfolding is_authorized
  is_authorized-Opens username password db k = rw (is_authorized, k.account.secret) k.matches

  -- The letter that SignUp sends: its text has the password in it.
  abbrev pub invitation : SignUpUser → Bytes → Letter
  invitation user password =
      letter svc.sender user.email (ascii "Your credentials for BDUTS load balancer")
        (credentials user.username password)

  module _ (law : IsTransactional bolt) (has : HasBuckets bolt) (draws : Draws) (pb sb : Bytes)
      (drawn : IsDrawn draws pb sb) (limit : HasLimit draws) (verifies : Verifies trust draws)
      (user : SignUpUser) (acc : Accounts Db) (rw₀ : ResponseWriter) where
    -- A new user's account is made, whatever becomes of the letter.
    pub register-Opens :
        user.username ≢ []
        → bucket user.username acc.db ≡ none
        → (after : Db) × (register bolt trust deliver svc draws user acc rw₀
            ≡ notified bolt trust deliver svc after rw₀ (
                send_sign_up_email deliver svc.sender user.email user.username
                  (base64 pb)
                  acc.outbox))
          × Opens user.username (base64 pb) after
    unfolding register
    register-Opens named missing =
        let short : length (base64 pb) ≤ 44 =
          let l = length-password draws pb sb drawn in omega arith in
        let (hash, made, done) = hashed-short draws pb sb drawn limit (base64 pb) short in
        let (after, stored, account) =
          insert_user-Account bolt law has user.username (base64 sb) hash user.email acc.db named
            missing in
        (
          after,
          rw (register, password-drawn draws pb sb drawn, done)
              (ap (inserted bolt trust deliver svc user (base64 pb) acc.outbox rw₀) stored),
          record {
            salt = base64 sb;
            hash = hash;
            email = user.email;
            account = account;
            matches = verifies (base64 pb ++ base64 sb) hash made;
          },
        )
