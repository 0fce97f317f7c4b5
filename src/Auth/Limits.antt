-- ===== src/Auth/Limits.antt =====
-- auth/auth.go: bcrypt takes at most 72 bytes, and the service hashes a password with a salt behind it.
use bduts.Prelude.{
  ◌≤◌, ◌<◌, ◌≡◌, refl, ◌++◌, none, some, length, length-append, arith, ◌⊎◌, inl, inr, le_or_lt,
}
use bduts.Cache.Disk.{Bytes}
use bduts.Auth.{base64, Draws, generate_random_password, generate_salt}
use bduts.Auth.Base64.{length-base64}
use bduts.Auth.Handlers.{hashed}

-- bcrypt.GenerateFromPassword fails beyond 72 bytes, and not before.
pub record HasLimit (draws : Draws) : Type 0 where
  pub accepts : (p : Bytes) → length p ≤ 72 → (h : Bytes) × (draws.generate_hash p ≡ some h)
  pub rejects : (p : Bytes) → 72 < length p → draws.generate_hash p ≡ none

-- rand.Read has filled both slices.
pub record IsDrawn (draws : Draws) (pb sb : Bytes) : Type 0 where
  pub password : draws.password_bytes ≡ some pb
  pub salt : draws.salt_bytes ≡ some sb
  pub password_length : length pb ≡ 25
  pub salt_length : length sb ≡ 20

module _ (draws : Draws) (pb sb : Bytes) (drawn : IsDrawn draws pb sb) where
  pub password-drawn : generate_random_password draws ≡ some (base64 pb)
  unfolding generate_random_password
  password-drawn = rw drawn.password refl

  pub salt-drawn : generate_salt draws ≡ some (base64 sb)
  unfolding generate_salt
  salt-drawn = rw drawn.salt refl

  pub length-password : length (base64 pb) ≡ 36
  length-password = let e = length-base64 pb in let l = drawn.password_length in omega arith

  length-salt : length (base64 sb) ≡ 28
  length-salt = let e = length-base64 sb in let l = drawn.salt_length in omega arith

  module _ (limit : HasLimit draws) where
    pub hashed-short :
        (p : Bytes)
        → length p ≤ 44
        → (h : Bytes) × (draws.generate_hash (p ++ base64 sb) ≡ some h)
          × (hashed draws (some p) (generate_salt draws) ≡ some (p, (base64 sb, h)))
    hashed-short p short =
        let l = length-append p (base64 sb) in
        let k = length-salt in
        let (h, made) = limit.accepts (p ++ base64 sb) (omega arith) in
        (h, made, rw (salt-drawn, hashed, made) refl)

    pub hashed-long :
        (p : Bytes) → 44 < length p → hashed draws (some p) (generate_salt draws) ≡ none
    hashed-long p long =
        let l = length-append p (base64 sb) in
        let k = length-salt in
        rw (salt-drawn, hashed, limit.rejects (p ++ base64 sb) (omega arith)) refl

    -- If rand fills its slices and bcrypt takes up to 72 bytes, the generated password can always
    -- be hashed with its salt; a chosen password can be if it has at most 44 bytes, and cannot be
    -- if it is longer.
    pub hashed-limits :
        (p : Bytes)
        → ((h : Bytes) × (hashed draws (generate_random_password draws) (generate_salt draws)
              ≡ some (base64 pb, (base64 sb, h))))
          × (((length p ≤ 44)
                × (h : Bytes) × (hashed draws (some p) (generate_salt draws)
                    ≡ some (p, (base64 sb, h))))
              ⊎ ((44 < length p) × (hashed draws (some p) (generate_salt draws) ≡ none)))
    hashed-limits p =
        let l = length-password in
        let (h, _, made) = hashed-short (base64 pb) (omega arith) in
        (
          (h, rw password-drawn made),
          elim (le_or_lt (length p) 44) [
            | inl short ↦ let (h, _, done) = hashed-short p short in inl (short, h, done)
            | inr long ↦ inr (long, hashed-long p long)
          ],
        )
