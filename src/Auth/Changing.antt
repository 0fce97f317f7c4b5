-- ===== src/Auth/Changing.antt =====
-- auth/auth.go, ChangePassword: which passwords open an account afterwards.
use bduts.Prelude.{
  ◌≤◌, ◌<◌, ◌≡◌, refl, ap, ◌∙◌, inl, inr, ◌∷◌, ◌++◌, some, Bool, Bool-cases, true, length,
  if◌then◌else◌, ◌⊎◌, le_or_lt,
}
use bduts.Http.{ResponseWriter, write_header}
use bduts.Cache.Disk.{Bytes}
use bduts.Cache.Bolt.{Bolt, IsTransactional, HasBuckets}
use bduts.Users.Accounts.{change_password-Account, bucket_lem}
use bduts.Mail.{ascii, Letter, letter, send_letter, send_changed_password_email}
use bduts.Auth.{
  base64, Draws, Trust, Service, Accounts, ChangePasswordUser, is_valid_change, is_authorized,
}
use bduts.Auth.Limits.{HasLimit, IsDrawn, hashed-short, hashed-long}
use bduts.Auth.Handlers.{renew, renewed, addressed, confirmed, change_password_handler}
use bduts.Auth.SigningUp.{Verifies, Opens, is_authorized-Opens}

module _ {Db : Type 0} (bolt : Bolt Db) (trust : Trust) (deliver : Letter → Bool)
    (svc : Service) where
  open bolt use {bucket}

  -- The letter after a change
  abbrev pub notice : Bytes → Letter
  notice email = letter svc.sender email (ascii "Your password has been changed") (
      ascii
        "Your password has been changed.\nIf you did not change your password, please contact the administrator.")

  abbrev pub answer_of :
      Accounts Db → Accounts Db → ResponseWriter → Letter → Accounts Db × ResponseWriter
  answer_of before after w l =
      if deliver l
      then (record after { outbox = l ∷ before.outbox }, write_header 200 w)
      else (after, write_header 500 w)

  confirmed_lem :
      (email : Bytes) (acc : Accounts Db) (after : Db) (w : ResponseWriter)
      → confirmed bolt trust deliver svc after w
          (send_changed_password_email deliver svc.sender email acc.outbox)
        ≡ answer_of acc (record acc { db = after }) w (notice email)
  unfolding send_changed_password_email send_letter
  confirmed_lem email acc after w = elim (Bool-cases (deliver (notice email))) [
    | inl taken ↦ rw taken refl
    | inr lost ↦ rw lost refl
  ]

  module _ (law : IsTransactional bolt) (has : HasBuckets bolt) (draws : Draws) (pb sb : Bytes)
      (drawn : IsDrawn draws pb sb) (limit : HasLimit draws) (verifies : Verifies trust draws)
      (username : Bytes) (acc : Accounts Db) (client : ResponseWriter) where
    renew-Opens :
        (old new : Bytes)
        → length new ≤ 44
        → (k : Opens bolt trust deliver svc username old acc.db)
        → (after : Db) × (renew bolt trust deliver svc draws username new acc client
            ≡ answer_of acc (record acc { db = after }) client (notice k.email))
          × Opens bolt trust deliver svc username new after
    unfolding renew
    renew-Opens old new short k =
        let (b, there) = bucket_lem bolt username k.salt k.hash acc.db k.account.secret in
        let (hash, made, done) = hashed-short draws pb sb drawn limit new short in
        let (after, stored, account) =
          change_password-Account bolt law has username (base64 sb) hash k.salt k.hash k.email
            acc.db b there k.account in
        (
          after,
          rw (renew, done)
              (ap (renewed bolt trust deliver svc username acc.outbox client) stored
                ∙ ap (addressed bolt trust deliver svc after acc.outbox client) account.address
                ∙ confirmed_lem k.email acc after client),
          record {
            salt = base64 sb;
            hash = hash;
            email = k.email;
            account = account;
            matches = verifies (new ++ base64 sb) hash made;
          },
        )

    renew-long :
        (new : Bytes)
        → 44 < length new
        → renew bolt trust deliver svc draws username new acc client
          ≡ (acc, write_header 500 client)
    unfolding renew
    renew-long new long = rw (renew, hashed-long draws pb sb drawn limit new long) refl

    authorized :
        (user : ChangePasswordUser)
        → is_valid_change trust user ≡ true
        → is_authorized trust bolt username user.old_password acc.db ≡ true
        → change_password_handler bolt trust deliver svc draws "PATCH"
            (inr user)
            (some username)
            acc
            client
          ≡ renew bolt trust deliver svc draws username user.new_password acc client
    unfolding change_password_handler
    authorized user valid right = rw (valid, right) refl

    -- If the form is valid and the old password opens the account: a new password of at most 44
    -- bytes then opens it, and the answer is 200 with a notice sent, or 500 if the notice cannot
    -- be sent; a longer one is answered by 500, and nothing is changed. Bolt must commit and keep
    -- its buckets as documented, bcrypt must take up to 72 bytes and verify what it hashed, and
    -- rand must fill its slices.
    pub change_password_handler-Opens :
        (user : ChangePasswordUser)
        → is_valid_change trust user ≡ true
        → (k : Opens bolt trust deliver svc username user.old_password acc.db)
        → ((length user.new_password ≤ 44)
            × (after : Db) × (change_password_handler bolt trust deliver svc draws "PATCH"
                  (inr user)
                  (some username)
                  acc
                  client
                ≡ answer_of acc (record acc { db = after }) client (notice k.email))
            × (is_authorized trust bolt username user.new_password after ≡ true))
          ⊎ ((44 < length user.new_password)
              × (change_password_handler bolt trust deliver svc draws "PATCH"
                    (inr user)
                    (some username)
                    acc
                    client
                  ≡ (acc, write_header 500 client)))
    change_password_handler-Opens user valid k =
        let go =
          authorized user valid
            (is_authorized-Opens bolt trust deliver svc username user.old_password acc.db k) in
        elim (le_or_lt (length user.new_password) 44) [
          | inl short ↦
              let (after, done, opens) = renew-Opens user.old_password user.new_password short k in
              inl (
                short,
                after,
                go ∙ done,
                is_authorized-Opens bolt trust deliver svc username user.new_password after opens,
              )
          | inr long ↦ inr (long, go ∙ renew-long user.new_password long)
        ]
