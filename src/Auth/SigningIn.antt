-- ===== src/Auth/SigningIn.antt =====
-- auth/auth.go, SignUp and SignIn together with AuthenticationMiddleware: from the letter to the token.
use bduts.Prelude.{◌≡◌, ◌≢◌, refl, ap, inr, String, List, [], ◌∷◌, none, some, Bool, true}
use bduts.Prelude.Int.{ℤ, ◌<ℤ◌, ◌+ℤ◌}
use bduts.Http.{ResponseWriter, ◌^^◌, write_header, header_set}
use bduts.Cache.Disk.{Bytes}
use bduts.Cache.Bolt.{Bolt, IsTransactional, HasBuckets}
use bduts.Mail.{Letter, send_letter, send_sign_up_email}
use bduts.Auth.{
  base64, Draws, Trust, Service, Accounts, SignUpUser, SignInUser, is_valid_sign_up,
  is_valid_sign_in, generate_token, access, granted, twenty_minutes, unix,
}
use bduts.Auth.Tokens.{Issues, bearer, access-generate_token}
use bduts.Auth.Limits.{HasLimit, IsDrawn}
use bduts.Auth.Handlers.{sign_up, sign_in, notified, tokened}
use bduts.Auth.SigningUp.{Verifies, Opens, is_authorized-Opens, invitation, register-Opens}

module _ {Db : Type 0} (bolt : Bolt Db) (trust : Trust) (deliver : Letter → Bool)
    (svc : Service) where
  open bolt use {bucket}

  send_sign_up_email-delivered :
      (user : SignUpUser) (password : Bytes) (outbox : List Letter)
      → deliver (invitation bolt trust deliver svc user password) ≡ true
      → send_sign_up_email deliver svc.sender user.email user.username password outbox
        ≡ (invitation bolt trust deliver svc user password ∷ outbox, true)
  unfolding send_sign_up_email send_letter
  send_sign_up_email-delivered user password outbox d = rw d refl

  sign_in-Opens :
      (now : ℤ) (user : SignInUser) (db : Db) (client : ResponseWriter) (token : String)
      → is_valid_sign_in trust user ≡ true
      → Opens bolt trust deliver svc user.username user.password db
      → generate_token trust svc.sign_key now user.username ≡ some token
      → sign_in bolt trust deliver svc now "POST" (inr user) db client
        ≡ tokened bolt trust deliver svc client (some token)
  unfolding sign_in
  sign_in-Opens now user db client token valid opens signed =
      rw
        (
          valid,
          is_authorized-Opens bolt trust deliver svc user.username user.password db opens,
          signed,
        )
        refl

  module _ (law : IsTransactional bolt) (has : HasBuckets bolt) (draws : Draws) (pb sb : Bytes)
      (drawn : IsDrawn draws pb sb) (limit : HasLimit draws) (verifies : Verifies trust draws)
      (issues : Issues trust) (user : SignUpUser) (acc : Accounts Db) (rw₀ : ResponseWriter) where
    -- A valid sign-up of a new user whose letter is delivered ends with WriteHeader(201), and the
    -- one letter that it sends is the invitation with the drawn password in it; SignIn with that
    -- username and password, if it is valid and jwt signs, then sets a token and ends with
    -- WriteHeader(200), and the token's bearer is one whom AuthenticationMiddleware lets in under
    -- that username until the token expires. Bolt must commit and keep its buckets as documented,
    -- bcrypt must verify what it hashed up to 72 bytes, jwt must read back what it signed, and
    -- rand must fill its slices.
    pub sign_up-sign_in :
        is_valid_sign_up trust user ≡ true
        → user.username ≢ []
        → bucket user.username acc.db ≡ none
        → deliver (invitation bolt trust deliver svc user (base64 pb)) ≡ true
        → (issued now : ℤ) (client : ResponseWriter) (token : String)
        → is_valid_sign_in trust (record { username = user.username; password = base64 pb }) ≡ true
        → generate_token trust svc.sign_key issued user.username ≡ some token
        → unix now <ℤ unix (issued +ℤ twenty_minutes)
        → (after : Db) × (sign_up bolt trust deliver svc draws "POST" (inr user) acc rw₀ ≡ (
          record {
            db = after;
            outbox = invitation bolt trust deliver svc user (base64 pb) ∷ acc.outbox;
          },
          write_header 201 rw₀,
        ))
          × (sign_in bolt trust deliver svc issued "POST"
                (inr (record { username = user.username; password = base64 pb }))
                after
                client
              ≡ write_header 200 (header_set "Authorization" ("Bearer " ^^ token) client))
          × (access trust svc.sign_key now (bearer token) ≡ granted (some user.username))
    unfolding sign_up
    sign_up-sign_in valid named missing delivered issued now client token valid' signed early =
        let (after, made, opens) =
          register-Opens bolt trust deliver svc law has draws pb sb drawn limit verifies user acc
            rw₀ named missing in
        (
          after,
          rw (valid, made)
              (ap (notified bolt trust deliver svc after rw₀)
                (send_sign_up_email-delivered user (base64 pb) acc.outbox delivered)),
          sign_in-Opens issued (record { username = user.username; password = base64 pb }) after
              client token valid' opens signed,
          access-generate_token trust issues user.username svc.sign_key issued now token signed
              early,
        )
