-- ===== src/Auth.antt =====
-- auth/auth.go: the service that signs admins up and in and changes and deletes them, and the
-- middleware that lets requests with a token through. A Go string is its bytes; tokens are texts.
pub mod Base64
pub mod Handlers
pub mod Tokens
pub mod Limits
pub mod SigningUp
pub mod SigningIn
pub mod Changing
pub mod Undelivered
pub mod Deleting
use bduts.Prelude.{
  ℕ, zero, suc, ◌+◌, ◌*◌, ◌/◌, ◌%◌, ◌-◌, String, str_eq, Bool, true, false, ◌&&◌, not, List, [],
  ◌∷◌, ◌++◌, Option, none, some, length, ltb, ◌==◌, if◌then◌else◌,
}
use bduts.Prelude.Int.{ℤ, pos, negsuc, ◌+ℤ◌, ◌-ℤ◌}
use bduts.Http.{Header, ResponseWriter, ◌^^◌, is_empty, write_header, header_set, http_error}
use bduts.Text.{split}
use bduts.Cache.Disk.{Bytes, same_bytes}
use bduts.Cache.Directives.{header_get}
use bduts.Cache.Bolt.{Bolt, DbError, bucket_exists, bucket_not_found}
use bduts.Cache.Store.{is_bucket_exists}
use bduts.Users.{insert_user, get_salt_and_hash, change_password, get_email, delete_user}
use bduts.Mail.{Sender, Letter, ascii, send_sign_up_email, send_changed_password_email}

-- The tags of the validator, with the other field's value at eqfield
pub data Tag : Type 0 where
  required alphanum email : Tag
  min max : ℕ → Tag
  eqfield : Bytes → Tag

pub record SignUpUser : Type 0 where
  pub username : Bytes
  pub email : Bytes

pub record SignInUser : Type 0 where
  pub username : Bytes
  pub password : Bytes

pub record ChangePasswordUser : Type 0 where
  pub old_password : Bytes
  pub new_password : Bytes
  pub new_password_confirm : Bytes

-- The methods that a token may name
pub data SigningMethod : Type 0 where
  hmac : String → SigningMethod
  other_method : String → SigningMethod

-- jwt.Parse: an error, or a token with its flag and its claims; the claims may not be a map, and the
-- username in them may not be a string.
pub data Parsed : Type 0 where
  unparsed : Parsed
  parsed : Bool → Option (Option Bytes) → Parsed

-- What the service uses of third parties: the validator, bcrypt and jwt. `parse` takes the function
-- that chooses the key, the valid methods, the token and the time.
pub record Trust : Type 0 where
  pub holds : Tag → Bytes → Bool
  pub compare_hash : Bytes → Bytes → Bool
  pub parse : (SigningMethod → Option Bytes) → List String → String → ℤ → Parsed
  pub sign : String → Bytes → ℤ → Bytes → Option String

-- What one request draws: the bytes of rand.Read for the password and for the salt, `none` where it
-- fails, and bcrypt's hash, `none` where it fails.
pub record Draws : Type 0 where
  pub password_bytes : Option Bytes
  pub salt_bytes : Option Bytes
  pub generate_hash : Bytes → Option Bytes

pub record Service : Type 0 where
  pub sender : Sender
  pub sign_key : Bytes

-- The database of the users and the letters that were sent
pub record Accounts (Db : Type 0) : Type 0 where
  pub db : Db
  pub outbox : List Letter

abbrev pub all_hold : (Tag → Bytes → Bool) → List Tag → Bytes → Bool
all_hold holds [] v = true
all_hold holds (t ∷ ts) v = holds t v && all_hold holds ts v

-- What the middleware makes of a request: a status, or the username for the context
pub data Access : Type 0 where
  refused : ℕ → Access
  granted : Option Bytes → Access

unfoldable pub access_of : Parsed → Access
access_of unparsed = refused 401
access_of (parsed true (some username)) = granted username
access_of (parsed true none) = refused 401
access_of (parsed false claims) = refused 401

-- The key of a token by its method
unfoldable pub key_of : Bytes → SigningMethod → Option Bytes
key_of sign_key (hmac name) = some sign_key
key_of sign_key (other_method name) = none

-- The URL alphabet of base64
abbrev pub base64_char : ℕ → ℕ
base64_char n =
    if ltb n 26
    then n + b'A'
    else if ltb n 52
    then n - 26 + b'a'
    else if ltb n 62
    then n - 52 + b'0'
    else if n == 62
    then b'-'
    else b'_'

-- base64.URLEncoding.EncodeToString
unfoldable pub base64 : Bytes → Bytes
base64 [] = []
base64 (a ∷ []) = base64_char (a / 4) ∷ base64_char (a % 4 * 16) ∷ b'=' ∷ b'=' ∷ []
base64 (a ∷ b ∷ []) =
    base64_char (a / 4) ∷ base64_char (a % 4 * 16 + b / 16) ∷ base64_char (b % 16 * 4) ∷ b'=' ∷ []
base64 (a ∷ b ∷ c ∷ rest) =
    base64_char (a / 4)
    ∷ base64_char (a % 4 * 16 + b / 16)
    ∷ base64_char (b % 16 * 4 + c / 64)
    ∷ base64_char (c % 64)
    ∷ base64 rest

abbrev pub encoded : Option Bytes → Option Bytes
encoded none = none
encoded (some bytes) = some (base64 bytes)

unfoldable pub generate_random_password : Draws → Option Bytes
unfolding base64
generate_random_password draws = encoded draws.password_bytes

unfoldable pub generate_salt : Draws → Option Bytes
unfolding base64
generate_salt draws = encoded draws.salt_bytes

abbrev pub second : List String → String
second [] = ""
second (a ∷ []) = ""
second (a ∷ b ∷ rest) = b

abbrev pub twenty_minutes : ℤ
twenty_minutes = pos 1200000000000

-- time.Time.Unix, of a time in nanoseconds since the year 1 (62135596800 seconds before 1970)
abbrev pub unix : ℤ → ℤ
unix (pos n) = pos (n / 1000000000) -ℤ pos 62135596800
unix (negsuc n) = negsuc (n / 1000000000) -ℤ pos 62135596800

module _ (trust : Trust) where
  open trust use {holds, compare_hash, parse, sign}

  -- validator.Struct
  unfoldable pub is_valid_sign_up : SignUpUser → Bool
  is_valid_sign_up u =
      all_hold holds (required ∷ min 4 ∷ max 20 ∷ alphanum ∷ []) u.username
      && all_hold holds (required ∷ email ∷ []) u.email

  unfoldable pub is_valid_sign_in : SignInUser → Bool
  is_valid_sign_in u =
      all_hold holds (required ∷ min 4 ∷ max 20 ∷ alphanum ∷ []) u.username
      && all_hold holds (required ∷ []) u.password

  unfoldable pub is_valid_change : ChangePasswordUser → Bool
  is_valid_change u =
      all_hold holds (required ∷ []) u.old_password
      && (all_hold holds (required ∷ min 10 ∷ max 25 ∷ []) u.new_password
          && all_hold holds (required ∷ eqfield u.new_password ∷ []) u.new_password_confirm)

  unfoldable pub access : Bytes → ℤ → Header → Access
  unfolding access_of key_of
  access sign_key now h =
      let authorization_header = header_get "Authorization" h in
      if is_empty authorization_header
      then refused 401
      else (let bearer_token = split b' ' authorization_header in
          if length bearer_token == 2
          then access_of (parse (key_of sign_key) ("HS512" ∷ []) (second bearer_token) now)
          else refused 400)

  -- `done` makes the result where the middleware answers, `next` where the next handler does.
  unfoldable pub authentication_middleware :
      {R : Type 0}
      → Bytes
      → ℤ
      → Header
      → (ResponseWriter → R)
      → (Option Bytes → ResponseWriter → R)
      → ResponseWriter
      → R
  unfolding access
  authentication_middleware sign_key now h done next rw = elim (access sign_key now h) [
    | refused code ↦ done (write_header code rw)
    | granted username ↦ next username rw
  ]

  -- The token expires 20 minutes after `now`, in whole seconds since 1970.
  unfoldable pub generate_token : Bytes → ℤ → Bytes → Option String
  generate_token sign_key now username =
      sign "HS512" username (unix (now +ℤ twenty_minutes)) sign_key

  module _ {Db : Type 0} (bolt : Bolt Db) where
    -- The comparison of isAuthorized
    abbrev pub compared : Bytes → (Bytes × Bytes) × Option DbError → Bool
    compared password (_, some e) = false
    compared password ((salt, hash), none) = compare_hash hash (password ++ salt)

    unfoldable pub is_authorized : Bytes → Bytes → Db → Bool
    unfolding get_salt_and_hash
    is_authorized username password db = compared password (get_salt_and_hash bolt username db)
