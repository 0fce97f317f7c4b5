-- ===== src/Auth/Handlers.antt =====
-- auth/auth.go: SignUp, SignIn, ChangePassword, DeleteUser and SignUpDefaultUser.
use bduts.Prelude.{
  String, str_eq, Bool, true, false, List, ◌++◌, ◌⊎◌, inl, inr, Option, none, some, if◌then◌else◌,
}
use bduts.Prelude.Int.{ℤ}
use bduts.Http.{ResponseWriter, ◌^^◌, write_header, header_set, http_error}
use bduts.Cache.Disk.{Bytes}
use bduts.Cache.Bolt.{Bolt, DbError, bucket_not_found}
use bduts.Cache.Store.{is_bucket_exists}
use bduts.Users.{insert_user, change_password, get_email, delete_user}
use bduts.Mail.{Letter, ascii, send_sign_up_email, send_changed_password_email}
use bduts.Auth.{
  SignUpUser, SignInUser, ChangePasswordUser, Trust, Draws, Service, Accounts, is_valid_sign_up,
  is_valid_sign_in, is_valid_change, generate_random_password, generate_salt, generate_token,
  is_authorized,
}

-- errors.Is(err, bolt.ErrBucketNotFound)
abbrev pub is_bucket_not_found : DbError → Bool
is_bucket_not_found bucket_not_found = true
is_bucket_not_found _ = false

-- The password, the salt and the hash of the two, where none of the three fails
abbrev pub hashed : Draws → Option Bytes → Option Bytes → Option (Bytes × (Bytes × Bytes))
hashed draws none salt = none
hashed draws (some password) none = none
hashed draws (some password) (some salt) = elim (draws.generate_hash (password ++ salt)) [
  | none ↦ none
  | some hash ↦ some (password, (salt, hash))
]

-- The body of a request: the text of the error of Decode, or what was decoded
abbrev pub Body : Type 0 → Type 0
Body A = String ⊎ A

module _ {Db : Type 0} (bolt : Bolt Db) (trust : Trust) (deliver : Letter → Bool)
    (svc : Service) where
  -- What handlers leave
  abbrev pub Reply : Type 0
  Reply = Accounts Db × ResponseWriter

  -- After SendSignUpEmail
  abbrev pub notified : Db → ResponseWriter → List Letter × Bool → Reply
  notified db rw (outbox, true) = (record { db = db; outbox = outbox }, write_header 201 rw)
  notified db rw (outbox, false) = (record { db = db; outbox = outbox }, write_header 500 rw)

  -- After InsertUser
  abbrev pub inserted :
      SignUpUser → Bytes → List Letter → ResponseWriter → Db × Option DbError → Reply
  inserted user password outbox rw (db, none) =
      notified db rw
        (send_sign_up_email deliver svc.sender user.email user.username password outbox)
  inserted user password outbox rw (db, some e) = (
    record { db = db; outbox = outbox },
    if is_bucket_exists e then http_error "User already exists" 409 rw else write_header 500 rw,
  )

  -- After the validation
  unfoldable pub register : Draws → SignUpUser → Accounts Db → ResponseWriter → Reply
  unfolding generate_random_password generate_salt insert_user send_sign_up_email
  register draws user acc rw =
      elim (hashed draws (generate_random_password draws) (generate_salt draws)) [
        | none ↦ (acc, write_header 500 rw)
        | some (password, (salt, hash)) ↦
            inserted user password acc.outbox rw
              (insert_user bolt user.username salt hash user.email acc.db)
      ]

  unfoldable pub sign_up : Draws → String → Body SignUpUser → Accounts Db → ResponseWriter → Reply
  unfolding register is_valid_sign_up
  sign_up draws method body acc rw =
      if str_eq method "POST"
      then (elim body [
        | inl text ↦ (acc, http_error text 400 rw)
        | inr user ↦ if is_valid_sign_up trust user then register draws user acc rw else (
          acc,
          http_error
              "Username must be between 4 and 20 characters. Username must contain only letters and numbers. Email must be valid."
              400 rw,
        )
      ])
      else (acc, write_header 405 rw)

  -- The password goes to the log only. `none` is success.
  unfoldable pub sign_up_default_user : Draws → Db → Db × Option (Option DbError)
  unfolding generate_salt insert_user ascii
  sign_up_default_user draws db =
      elim (hashed draws (some (ascii "verySecureAdminPassword12345")) (generate_salt draws)) [
        | none ↦ (db, some none)
        | some (password, (salt, hash)) ↦
            let done = insert_user bolt (ascii "admin") salt hash (ascii "admin@localhost") db in
            (done.0, elim done.1 [ none ↦ none | some e ↦ some (some e) ])
      ]

  abbrev pub tokened : ResponseWriter → Option String → ResponseWriter
  tokened rw none = write_header 500 rw
  tokened rw (some token) = write_header 200 (header_set "Authorization" ("Bearer " ^^ token) rw)

  unfoldable pub sign_in : ℤ → String → Body SignInUser → Db → ResponseWriter → ResponseWriter
  unfolding is_valid_sign_in is_authorized generate_token
  sign_in now method body db rw =
      if str_eq method "POST"
      then (elim body [
        | inl text ↦ write_header 400 rw
        | inr user ↦
            if is_valid_sign_in trust user
            then (if is_authorized trust bolt user.username user.password db
                then tokened rw (generate_token trust svc.sign_key now user.username)
                else http_error "Invalid username or password" 401 rw)
            else http_error
                "Username must be between 4 and 20 characters. Username must contain only letters and numbers. Password required."
                400 rw
      ])
      else write_header 405 rw

  -- After SendChangedPasswordEmail
  abbrev pub confirmed : Db → ResponseWriter → List Letter × Bool → Reply
  confirmed db rw (outbox, true) = (record { db = db; outbox = outbox }, write_header 200 rw)
  confirmed db rw (outbox, false) = (record { db = db; outbox = outbox }, write_header 500 rw)

  -- After GetEmail
  abbrev pub addressed : Db → List Letter → ResponseWriter → Bytes × Option DbError → Reply
  addressed db outbox rw (address, some e) =
      (record { db = db; outbox = outbox }, write_header 500 rw)
  addressed db outbox rw (address, none) =
      confirmed db rw (send_changed_password_email deliver svc.sender address outbox)

  -- After ChangePassword of the database
  abbrev pub renewed : Bytes → List Letter → ResponseWriter → Db × Option DbError → Reply
  renewed username outbox rw (db, some e) =
      (record { db = db; outbox = outbox }, write_header 500 rw)
  renewed username outbox rw (db, none) = addressed db outbox rw (get_email bolt username db)

  -- After the old password was compared
  unfoldable pub renew : Draws → Bytes → Bytes → Accounts Db → ResponseWriter → Reply
  unfolding generate_salt change_password get_email send_changed_password_email
  renew draws username new_password acc rw =
      elim (hashed draws (some new_password) (generate_salt draws)) [
        | none ↦ (acc, write_header 500 rw)
        | some (password, (salt, hash)) ↦
            renewed username acc.outbox rw (change_password bolt username salt hash acc.db)
      ]

  -- `caller` is the username of the context, if it is a string.
  unfoldable pub change_password_handler :
      Draws → String → Body ChangePasswordUser → Option Bytes → Accounts Db → ResponseWriter → Reply
  unfolding renew is_valid_change is_authorized
  change_password_handler draws method body caller acc rw =
      if str_eq method "PATCH"
      then (elim body [
        | inl text ↦ (acc, write_header 400 rw)
        | inr user ↦
            if is_valid_change trust user
            then (elim caller [
              | none ↦ (acc, write_header 500 rw)
              | some username ↦
                  if is_authorized trust bolt username user.old_password acc.db
                  then renew draws username user.new_password acc rw
                  else (acc, write_header 401 rw)
            ])
            else (
              acc,
              http_error
                  "Password length must be between 10 and 25 characters. New password and new password confirmation must match."
                  422 rw,
            )
      ])
      else (acc, write_header 405 rw)

  -- `user` is r.URL.Query().Get("username"), "" where it is missing.
  unfoldable pub delete_user_handler : String → Bytes → Accounts Db → ResponseWriter → Reply
  unfolding delete_user
  delete_user_handler method user acc rw =
      if str_eq method "DELETE"
      then (let done = delete_user bolt user acc.db in
          let acc' : Accounts Db = record acc { db = done.0 } in
          elim done.1 [
            | none ↦ (acc', write_header 204 rw)
            | some e ↦ (acc', write_header (if is_bucket_not_found e then 404 else 500) rw)
          ])
      else (acc, write_header 405 rw)
