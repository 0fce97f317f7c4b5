-- ===== src/Auth/Deleting.antt =====
-- auth/auth.go, DeleteUser, isAuthorized and AuthenticationMiddleware: what is left of a deleted user.
use bduts.Prelude.{◌≡◌, refl, ap, String, Bool, false, none, some}
use bduts.Prelude.Int.{ℤ, ◌<ℤ◌, ◌+ℤ◌}
use bduts.Http.{ResponseWriter, write_header}
use bduts.Cache.Disk.{Bytes}
use bduts.Cache.Bolt.{Bolt, Bucket, IsTransactional, HasSeparateBuckets}
use bduts.Users.{delete_user, get_salt_and_hash}
use bduts.Mail.{Letter}
use bduts.Auth.{
  Trust, Service, Accounts, is_authorized, generate_token, access, granted, twenty_minutes, unix,
}
use bduts.Auth.Tokens.{Issues, bearer, access-generate_token}
use bduts.Auth.Handlers.{delete_user_handler}

module _ {Db : Type 0} (bolt : Bolt Db) (trust : Trust) (deliver : Letter → Bool)
    (svc : Service) where
  open bolt use {bucket, delete_bucket}

  is_authorized-missing :
      (user password : Bytes) (db : Db)
      → bucket user db ≡ none
      → is_authorized trust bolt user password db ≡ false
  unfolding is_authorized get_salt_and_hash
  is_authorized-missing user password db gone = rw (is_authorized, get_salt_and_hash, gone) refl

  delete_user_handler_lem :
      (user : Bytes) (acc : Accounts Db) (w : ResponseWriter) (after : Db)
      → delete_user bolt user acc.db ≡ (after, none)
      → delete_user_handler bolt trust deliver svc "DELETE" user acc w
        ≡ (record acc { db = after }, write_header 204 w)
  unfolding delete_user_handler
  delete_user_handler_lem user acc w after e = rw (delete_user_handler, e, e) refl

  module _ (law : IsTransactional bolt) (separate : HasSeparateBuckets bolt)
      (issues : Issues trust) where
    -- DeleteUser of a user who is there ends with WriteHeader(204), and no password opens the
    -- account any more; but a token that was signed for the user before still lets its bearer in
    -- under that username until it expires. Bolt must commit and delete buckets as documented, and
    -- jwt must read back what it signed.
    pub delete_user_handler-access :
        (user : Bytes) (acc : Accounts Db) (w : ResponseWriter) (b : Bucket)
        → bucket user acc.db ≡ some b
        → (issued now : ℤ) (token : String)
        → generate_token trust svc.sign_key issued user ≡ some token
        → unix now <ℤ unix (issued +ℤ twenty_minutes)
        → (after : Db) × (delete_user_handler bolt trust deliver svc "DELETE" user acc w
            ≡ (record acc { db = after }, write_header 204 w))
          × ((password : Bytes) → is_authorized trust bolt user password after ≡ false)
          × (access trust svc.sign_key now (bearer token) ≡ granted (some user))
    unfolding delete_user
    delete_user_handler-access user acc w b there issued now token signed early =
        let after = (delete_bucket user acc.db).0 in
        let (done, gone) = separate.delete_old user acc.db b there in
        let run : delete_bucket user acc.db ≡ (after, none) = ap (λ e. (after, e)) done in
        (
          after,
          delete_user_handler_lem user acc w after
              (law.commits (delete_bucket user) acc.db after run),
          λ password. is_authorized-missing user password after gone,
          access-generate_token trust issues user svc.sign_key issued now token signed early,
        )
