-- ===== src/Auth/Tokens.antt =====
-- auth/auth.go, generateToken and AuthenticationMiddleware: tokens and their bearers.
use Prim.Native.Nat.{Ordering}
use Prim.Native.String.{String as Text, compare}
use Prim.Native.String.compare.{cons-nil}
use text.Mathlib.TextLemmas.{append_assoc, cons-append, nil-append}
use bduts.Prelude.{◌≡◌, refl, ap, ◌∙◌, String, true, false, [], ◌∷◌, Option, some}
use bduts.Prelude.Int.{ℤ, ◌<ℤ◌, ◌+ℤ◌}
use bduts.Http.{Header, ◌^^◌, is_empty}
use bduts.Text.{split}
use bduts.Text.Parts.{has_char, split-append, split_whole}
use bduts.Cache.Disk.{Bytes}
use bduts.Cache.Directives.{header_get}
use bduts.Auth.{
  Trust, SigningMethod, hmac, parsed, granted, access_of, key_of, twenty_minutes, unix, access,
  generate_token,
}

-- jwt reads back what it signed, until it expires, and writes tokens without spaces.
pub record Issues (trust : Trust) : Type 0 where
  pub reads_back :
      (f : SigningMethod → Option Bytes) (username key : Bytes) (exp now : ℤ) (token : String)
      → trust.sign "HS512" username exp key ≡ some token
      → f (hmac "HS512") ≡ some key
      → unix now <ℤ exp
      → trust.parse f ("HS512" ∷ []) token now ≡ parsed true (some (some username))
  pub no_space :
      (username key : Bytes) (exp : ℤ) (token : String)
      → trust.sign "HS512" username exp key ≡ some token
      → has_char b' ' token ≡ false

pub bearer_parts :
    (token : String)
    → has_char b' ' token ≡ false
    → split b' ' ("Bearer " ^^ token) ≡ "Bearer" ∷ token ∷ []
bearer_parts token free =
    let cut : "Bearer " ^^ token ≡ "Bearer" ^^ Text.◌∷◌ " " token =
      append_assoc "Bearer" " " token
      ∙ ap (λ t. "Bearer" ^^ t) (cons-append " " "" token ∙ ap (Text.◌∷◌ " ") (nil-append token)) in
    rw cut (
      split-append b' ' "Bearer" token " " refl refl
      ∙ ap (λ ps. "Bearer" ∷ ps) (split_whole b' ' token free))

abbrev pub bearer : String → Header
bearer token = ("Authorization", ("Bearer " ^^ token) ∷ []) ∷ []

bearer_not_empty : (token : String) → is_empty ("Bearer " ^^ token) ≡ false
bearer_not_empty token =
    let later : compare (Text.◌∷◌ "B" ("earer " ^^ token)) "" ≡ Ordering.gt =
      cons-nil "B" ("earer " ^^ token) in
    rw (cons-append "B" "earer " token, later) refl

module _ (trust : Trust) where
  access-bearer :
      (key : Bytes) (now : ℤ) (token : String)
      → has_char b' ' token ≡ false
      → access trust key now (bearer token)
        ≡ access_of (trust.parse (key_of key) ("HS512" ∷ []) token now)
  unfolding access header_get
  access-bearer key now token free =
      rw (access, bearer_not_empty token, bearer_parts token free) refl

  -- x
  pub access-generate_token :
      (law : Issues trust) (username key : Bytes) (issued now : ℤ) (token : String)
      → generate_token trust key issued username ≡ some token
      → unix now <ℤ unix (issued +ℤ twenty_minutes)
      → access trust key now (bearer token) ≡ granted (some username)
  unfolding generate_token access_of key_of
  access-generate_token law username key issued now token signed early =
      access-bearer key now token
        (law.no_space username key (unix (issued +ℤ twenty_minutes)) token signed)
      ∙ ap access_of (
          law.reads_back (key_of key) username key (unix (issued +ℤ twenty_minutes)) now token
            signed refl early)
