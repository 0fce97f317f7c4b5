-- ===== src/Auth/Undelivered.antt =====
-- auth/auth.go, SignUp where the letter cannot be sent.
use bduts.Prelude.{
  ◌≤◌, ◌≡◌, ◌≢◌, refl, ap, inr, List, [], none, some, Bool, true, false, length, arith,
}
use bduts.Http.{ResponseWriter, write_header, http_error}
use bduts.Cache.Disk.{Bytes}
use bduts.Cache.Bolt.{Bolt, Bucket, IsTransactional, HasBuckets}
use bduts.Users.Accounts.{insert_user-existing, bucket_lem}
use bduts.Mail.{Letter, send_letter, send_sign_up_email}
use bduts.Auth.{
  base64, Draws, Trust, Service, Accounts, SignUpUser, is_valid_sign_up, is_authorized,
}
use bduts.Auth.Limits.{HasLimit, IsDrawn, password-drawn, hashed-short, length-password}
use bduts.Auth.Handlers.{register, sign_up, inserted, notified}
use bduts.Auth.SigningUp.{Verifies, is_authorized-Opens, invitation, register-Opens}

module _ {Db : Type 0} (bolt : Bolt Db) (trust : Trust) (deliver : Letter → Bool)
    (svc : Service) where
  open bolt use {bucket}

  send_sign_up_email-lost :
      (user : SignUpUser) (password : Bytes) (outbox : List Letter)
      → deliver (invitation bolt trust deliver svc user password) ≡ false
      → send_sign_up_email deliver svc.sender user.email user.username password outbox
        ≡ (outbox, false)
  unfolding send_sign_up_email send_letter
  send_sign_up_email-lost user password outbox d = rw d refl

  module _ (law : IsTransactional bolt) (has : HasBuckets bolt) where
    -- Who has a bucket is not signed up again.
    sign_up-existing :
        (draws : Draws) (pb sb : Bytes)
        → IsDrawn draws pb sb
        → HasLimit draws
        → (user : SignUpUser) (acc : Accounts Db) (w : ResponseWriter) (b : Bucket)
        → is_valid_sign_up trust user ≡ true
        → bucket user.username acc.db ≡ some b
        → sign_up bolt trust deliver svc draws "POST" (inr user) acc w
          ≡ (acc, http_error "User already exists" 409 w)
    unfolding sign_up register
    sign_up-existing draws pb sb drawn limit user acc w b valid there =
        let short : length (base64 pb) ≤ 44 =
          let l = length-password draws pb sb drawn in omega arith in
        let (hash, _, done) = hashed-short draws pb sb drawn limit (base64 pb) short in
        rw (valid, register, password-drawn draws pb sb drawn, done)
          (ap (inserted bolt trust deliver svc user (base64 pb) acc.outbox w) (
            insert_user-existing bolt law has user.username (base64 sb) hash user.email acc.db b
              there))

    -- A valid sign-up of a new user whose letter cannot be sent ends with WriteHeader(500), and
    -- the account is there all the same: the drawn password opens it, which nobody was told, and
    -- signing up again is answered by 409 and changes nothing. Bolt must commit, roll back and
    -- keep its buckets as documented, bcrypt must take up to 72 bytes and verify what it hashed,
    -- and rand must fill its slices.
    pub sign_up-undelivered :
        (draws : Draws) (pb sb : Bytes)
        → IsDrawn draws pb sb
        → HasLimit draws
        → Verifies trust draws
        → (user : SignUpUser) (acc : Accounts Db) (w w' : ResponseWriter)
        → is_valid_sign_up trust user ≡ true
        → user.username ≢ []
        → bucket user.username acc.db ≡ none
        → deliver (invitation bolt trust deliver svc user (base64 pb)) ≡ false
        → (after : Db) × (sign_up bolt trust deliver svc draws "POST" (inr user) acc w
            ≡ (record acc { db = after }, write_header 500 w))
          × (is_authorized trust bolt user.username (base64 pb) after ≡ true)
          × (sign_up bolt trust deliver svc draws "POST" (inr user) (record acc { db = after }) w'
              ≡ (record acc { db = after }, http_error "User already exists" 409 w'))
    unfolding sign_up
    sign_up-undelivered draws pb sb drawn limit verifies user acc w w' valid named missing lost =
        let (after, made, opens) =
          register-Opens bolt trust deliver svc law has draws pb sb drawn limit verifies user acc w
            named missing in
        let (b, there) =
          bucket_lem bolt user.username opens.salt opens.hash after opens.account.secret in
        (
          after,
          rw (valid, made)
              (ap (notified bolt trust deliver svc after w)
                (send_sign_up_email-lost user (base64 pb) acc.outbox lost)),
          is_authorized-Opens bolt trust deliver svc user.username (base64 pb) after opens,
          sign_up-existing draws pb sb drawn limit user (record acc { db = after }) w' b valid
              there,
        )
