-- ===== src/Tests/Trusts.antt =====
-- A validator, bcrypt, jwt, a source of random bytes and a sender for the tests.
use bduts.Prelude.{
  ℕ, ◌≡◌, refl, ap, sym, subst, String, Bool, true, false, ◌&&◌, [], ◌∷◌, Option, none, some,
  length, leb, ◌==◌, ==_iff, arith, if◌then◌else◌,
}
use bduts.Prelude.Int.{ℤ, pos, negsuc, ltb_ℤ, ◌<ℤ◌}
use bduts.Cache.Disk.{Bytes, same_bytes}
use bduts.Cache.Disk.Writing.{same_bytes_refl}
use bduts.Users.Directory.{same_bytes_eq}
use bduts.Mail.{Sender}
use bduts.Auth.{hmac, Parsed, unparsed, parsed, Trust, Draws, Service, unix}
use bduts.Auth.Tokens.{Issues}
use bduts.Auth.Limits.{HasLimit, IsDrawn}
use bduts.Auth.SigningUp.{Verifies}

abbrev pub admin : Bytes
admin = b'r' ∷ b'o' ∷ b'o' ∷ b't' ∷ []

-- 1000 seconds after 1970 began
abbrev pub noon : ℤ
noon = pos 62135597800000000000

abbrev expiry : ℕ
expiry = 2200

abbrev is_expiry : ℤ → Bool
is_expiry (pos n) = n == expiry
is_expiry (negsuc n) = false

abbrev signed_if : Bool → Option String
signed_if true = some "token"
signed_if false = none

abbrev parsed_by : Option Bytes → ℤ → Parsed
parsed_by none now = unparsed
parsed_by (some key) now =
    if ltb_ℤ (unix now) (pos expiry) then parsed true (some (some admin)) else unparsed

-- It signs one token, for root at noon, and hashes by doing nothing.
abbrev pub trust : Trust
trust = record {
  holds = λ tag v. true;
  compare_hash = same_bytes;
  parse = λ f methods token now. parsed_by (f (hmac "HS512")) now;
  sign = λ method username exp key. signed_if (same_bytes username admin && is_expiry exp);
}

is_expiry_lem : (exp : ℤ) → is_expiry exp ≡ true → exp ≡ pos expiry
is_expiry_lem (pos n) e = ap pos ((==_iff n expiry).0 e)
is_expiry_lem (negsuc n) e = ground (arith, e)

abbrev text_of : Option String → String
text_of none = "token"
text_of (some token) = token

signed_true :
    (b c : Bool) (token : String)
    → signed_if (b && c) ≡ some token
    → (b ≡ true) × (c ≡ true) × (token ≡ "token")
signed_true true true token e = (refl, refl, sym (ap text_of e))
signed_true true false token e = absurd (ground (arith, e))
signed_true false c token e = absurd (ground (arith, e))

signed_lem :
    (username : Bytes) (exp : ℤ) (token : String)
    → signed_if (same_bytes username admin && is_expiry exp) ≡ some token
    → (username ≡ admin) × (exp ≡ pos expiry) × (token ≡ "token")
signed_lem username exp token e =
    let (same, due, text) = signed_true (same_bytes username admin) (is_expiry exp) token e in
    (same_bytes_eq username admin same, is_expiry_lem exp due, text)

early_lem :
    (key : Option Bytes) (good : Bytes) (now : ℤ)
    → key ≡ some good
    → unix now <ℤ pos expiry
    → parsed_by key now ≡ parsed true (some (some admin))
early_lem none good now e early = absurd (ground (arith, e))
early_lem (some key) good now e early =
    let soon : ltb_ℤ (unix now) (pos expiry) ≡ true = ground (arith, early) in rw soon refl

pub trust-Issues : Issues trust
trust-Issues = record {
  reads_back = λ f username key exp now token signed known early.
      let (name, due, text) = signed_lem username exp token signed in
      rw name (early_lem (f (hmac "HS512")) key now known (subst (λ e. unix now <ℤ e) due early));
  no_space = λ username key exp token signed.
      let (name, due, text) = signed_lem username exp token signed in rw text refl;
}

abbrev pub pb : Bytes
pb =
    1 ∷ 2 ∷ 3 ∷ 4 ∷ 5 ∷ 6 ∷ 7 ∷ 8 ∷ 9 ∷ 10 ∷ 11 ∷ 12 ∷ 13 ∷ 14 ∷ 15 ∷ 16 ∷ 17 ∷ 18 ∷ 19 ∷ 20 ∷ 21
    ∷ 22 ∷ 23 ∷ 24 ∷ 25 ∷ []

abbrev pub sb : Bytes
sb = 20 ∷ 19 ∷ 18 ∷ 17 ∷ 16 ∷ 15 ∷ 14 ∷ 13 ∷ 12 ∷ 11 ∷ 10 ∷ 9 ∷ 8 ∷ 7 ∷ 6 ∷ 5 ∷ 4 ∷ 3 ∷ 2 ∷ 1 ∷ []

abbrev pub draws : Draws
draws = record {
  password_bytes = some pb;
  salt_bytes = some sb;
  generate_hash = λ p. if leb (length p) 72 then some p else none;
}

pub draws-IsDrawn : IsDrawn draws pb sb
draws-IsDrawn = record { password = refl; salt = refl; password_length = refl; salt_length = refl }

pub draws-HasLimit : HasLimit draws
draws-HasLimit = record {
  accepts =
      λ p short. let fits : leb (length p) 72 ≡ true = ground (arith, short) in (p, rw fits refl);
  rejects = λ p long. let over : leb (length p) 72 ≡ false = ground (arith, long) in rw over refl;
}

abbrev bytes_of : Bytes → Option Bytes → Bytes
bytes_of p none = p
bytes_of p (some h) = h

hashed_lem : (fits : Bool) (p h : Bytes) → (if fits then some p else none) ≡ some h → p ≡ h
hashed_lem true p h e = ap (bytes_of p) e
hashed_lem false p h e = absurd (ground (arith, e))

pub trust-Verifies : Verifies trust draws
trust-Verifies p h made =
    subst (λ x. same_bytes x p ≡ true) (hashed_lem (leb (length p) 72) p h made) (same_bytes_refl p)

abbrev pub sender : Sender
sender = record {
  auth = record { identity = []; username = 1 ∷ []; password = 2 ∷ []; host = 3 ∷ [] };
  from = 1 ∷ [];
  host = 3 ∷ [];
  port = 4 ∷ [];
}

abbrev pub svc : Service
svc = record { sender = sender; sign_key = 9 ∷ 9 ∷ [] }
