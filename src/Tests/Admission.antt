-- ===== src/Tests/Admission.antt =====
-- The theorems on signing up and in and on changing a password, for one admin.
use bduts.Prelude.{
  ◌<◌, ◌≤◌, ◌≡◌, ◌≢◌, refl, inr, Bool, true, false, List, [], ◌∷◌, none, some, length, arith, All,
  ◌⊎◌,
}
use bduts.Prelude.Int.{ℤ, pos, ◌+ℤ◌, ◌-ℤ◌, ◌<ℤ◌}
use bduts.Http.{fresh_writer, ◌^^◌, write_header, header_set, http_error}
use bduts.Cache.Disk.{Bytes}
use bduts.Cache.Bolt.{Bucket, put_in, empty_bucket}
use bduts.Users.{get_salt_and_hash, get_email}
use bduts.Users.Accounts.{Account}
use bduts.Users.Directory.{Operation, inserts, changes, removes, name_of, view}
use bduts.Users.History.{secret_of, address_of, spec_history, history, history-refines}
use bduts.Mail.{Letter}
use bduts.Auth.{
  base64, Accounts, SignUpUser, ChangePasswordUser, is_valid_sign_up, is_valid_sign_in,
  is_valid_change, is_authorized, generate_token, generate_random_password, generate_salt, access,
  granted, unix, twenty_minutes,
}
use bduts.Auth.Tokens.{bearer}
use bduts.Auth.Limits.{hashed-limits}
use bduts.Auth.Handlers.{hashed, sign_up, sign_in, change_password_handler, delete_user_handler}
use bduts.Auth.SigningUp.{Opens, invitation}
use bduts.Auth.SigningIn.{sign_up-sign_in}
use bduts.Auth.Changing.{notice, answer_of, change_password_handler-Opens}
use bduts.Auth.Deleting.{delete_user_handler-access}
use bduts.Auth.Undelivered.{sign_up-undelivered}
use bduts.Tests.Store.{
  Buckets, bolt, bolt-IsTransactional, bolt-HasBuckets, bolt-HasSeparateBuckets,
}
use bduts.Tests.Trusts.{
  admin, noon, trust, trust-Issues, trust-Verifies, pb, sb, draws, draws-IsDrawn, draws-HasLimit,
  svc,
}

abbrev pub delivers : Letter → Bool
delivers l = true

abbrev loses : Letter → Bool
loses l = false

abbrev root : SignUpUser
root = record { username = admin; email = b'a' ∷ b'@' ∷ b'b' ∷ [] }

abbrev pub nobody : Accounts Buckets
nobody = record { db = []; outbox = [] }

admin_named : admin ≢ []
admin_named e = ground (arith, e)

abbrev soon : ℤ
soon = pos 62135597810000000000

valid_root : is_valid_sign_up trust root ≡ true
unfolding is_valid_sign_up
valid_root = refl

valid_entry : is_valid_sign_in trust (record { username = admin; password = base64 pb }) ≡ true
unfolding is_valid_sign_in
valid_entry = refl

token_made : generate_token trust svc.sign_key noon admin ≡ some "token"
unfolding generate_token ◌+ℤ◌ ◌-ℤ◌
token_made = refl

early : unix soon <ℤ unix (noon +ℤ twenty_minutes)
unfolding ◌+ℤ◌ ◌-ℤ◌
early = omega arith

sign_up-sign_in_example :
    (after : Buckets) × (sign_up bolt trust delivers svc draws "POST" (inr root) nobody fresh_writer
      ≡ (
        record { db = after; outbox = invitation bolt trust delivers svc root (base64 pb) ∷ [] },
        write_header 201 fresh_writer,
      ))
    × (sign_in bolt trust delivers svc noon "POST"
          (inr (record { username = admin; password = base64 pb }))
          after
          fresh_writer
        ≡ write_header 200 (header_set "Authorization" ("Bearer " ^^ "token") fresh_writer))
    × (access trust svc.sign_key soon (bearer "token") ≡ granted (some admin))
sign_up-sign_in_example =
    sign_up-sign_in bolt trust delivers svc bolt-IsTransactional bolt-HasBuckets draws pb sb
      draws-IsDrawn draws-HasLimit trust-Verifies trust-Issues root nobody fresh_writer valid_root
      admin_named refl refl noon soon fresh_writer "token" valid_entry token_made early

sign_up-undelivered_example :
    (after : Buckets) × (sign_up bolt trust loses svc draws "POST" (inr root) nobody fresh_writer
      ≡ (record { db = after; outbox = [] }, write_header 500 fresh_writer))
    × (is_authorized trust bolt admin (base64 pb) after ≡ true)
    × (sign_up bolt trust loses svc draws "POST"
          (inr root)
          (record { db = after; outbox = [] })
          fresh_writer
        ≡ (record { db = after; outbox = [] }, http_error "User already exists" 409 fresh_writer))
sign_up-undelivered_example =
    sign_up-undelivered bolt trust loses svc bolt-IsTransactional bolt-HasBuckets draws pb sb
      draws-IsDrawn draws-HasLimit trust-Verifies root nobody fresh_writer fresh_writer valid_root
      admin_named refl refl

hashed-limits_example :
    ((h : Bytes) × (hashed draws (generate_random_password draws) (generate_salt draws)
        ≡ some (base64 pb, (base64 sb, h))))
    × (((length sb ≤ 44)
          × (h : Bytes) × (hashed draws (some sb) (generate_salt draws)
              ≡ some (sb, (base64 sb, h))))
        ⊎ ((44 < length sb) × (hashed draws (some sb) (generate_salt draws) ≡ none)))
hashed-limits_example = hashed-limits draws pb sb draws-IsDrawn draws-HasLimit sb

-- root with the password "old", and no salt
abbrev old : Bytes
old = b'o' ∷ b'l' ∷ b'd' ∷ []

abbrev account : Bucket
account = put_in "email" (b'm' ∷ []) (put_in "hash" old (put_in "salt" [] empty_bucket))

abbrev one : Accounts Buckets
one = record { db = (admin, account) ∷ []; outbox = [] }

abbrev wanted : ChangePasswordUser
wanted = record { old_password = old; new_password = pb; new_password_confirm = pb }

valid_wanted : is_valid_change trust wanted ≡ true
unfolding is_valid_change
valid_wanted = refl

one-Account : Account bolt admin [] old (b'm' ∷ []) one.db
unfolding get_salt_and_hash get_email
one-Account = record { secret = refl; address = refl }

abbrev one_opens : Opens bolt trust delivers svc admin old one.db
one_opens = record {
  salt = [];
  hash = old;
  email = b'm' ∷ [];
  account = one-Account;
  matches = refl;
}

change_password_handler-Opens_example :
    ((length pb ≤ 44)
      × (after : Buckets) × (change_password_handler bolt trust delivers svc draws "PATCH"
            (inr wanted)
            (some admin)
            one
            fresh_writer
          ≡ answer_of bolt trust delivers svc one
              (record one { db = after })
              fresh_writer
              (notice bolt trust delivers svc (b'm' ∷ [])))
      × (is_authorized trust bolt admin pb after ≡ true))
    ⊎ ((44 < length pb)
        × (change_password_handler bolt trust delivers svc draws "PATCH"
              (inr wanted)
              (some admin)
              one
              fresh_writer
            ≡ (one, write_header 500 fresh_writer)))
change_password_handler-Opens_example =
    change_password_handler-Opens bolt trust delivers svc bolt-IsTransactional bolt-HasBuckets draws
      pb sb draws-IsDrawn draws-HasLimit trust-Verifies admin one fresh_writer wanted valid_wanted
      one_opens

abbrev life : List Operation
life =
    inserts admin (1 ∷ []) (2 ∷ []) (3 ∷ []) ∷ changes admin (4 ∷ []) (5 ∷ []) ∷ removes admin ∷ []

life_named : All (λ op. name_of op ≢ []) life
life_named = (admin_named, (admin_named, (admin_named, tt)))

history-refines_example :
    ((view bolt (history bolt life []).0, (history bolt life []).1)
      ≡ spec_history life (view bolt []))
    × ((name : Bytes)
        → (get_salt_and_hash bolt name (history bolt life []).0
            ≡ secret_of ((spec_history life (view bolt [])).0 name))
          × (get_email bolt name (history bolt life []).0
              ≡ address_of ((spec_history life (view bolt [])).0 name)))
history-refines_example =
    history-refines bolt bolt-IsTransactional bolt-HasBuckets bolt-HasSeparateBuckets life []
      life_named

delete_user_handler-access_example :
    (after : Buckets) × (delete_user_handler bolt trust delivers svc "DELETE" admin one fresh_writer
      ≡ (record one { db = after }, write_header 204 fresh_writer))
    × ((password : Bytes) → is_authorized trust bolt admin password after ≡ false)
    × (access trust svc.sign_key soon (bearer "token") ≡ granted (some admin))
delete_user_handler-access_example =
    delete_user_handler-access bolt trust delivers svc bolt-IsTransactional bolt-HasSeparateBuckets
      trust-Issues admin one fresh_writer account refl noon soon "token" token_made early
