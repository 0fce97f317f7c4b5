-- ===== src/Auth/Base64.antt =====
-- encoding/base64 as auth/auth.go uses it: lengths.
use bduts.Prelude.{◌+◌, ◌*◌, ◌/◌, ◌≡◌, [], ◌∷◌, length, arith}
use bduts.Cache.Disk.{Bytes}
use bduts.Auth.{base64}

-- Three bytes are four characters, and a rest is filled up.
pub length-base64 : (bs : Bytes) → length (base64 bs) ≡ (length bs + 2) / 3 * 4
unfolding base64
length-base64 [] = omega arith
length-base64 (a ∷ []) = omega arith
length-base64 (a ∷ b ∷ []) = omega arith
length-base64 (a ∷ b ∷ c ∷ rest) = let ih = length-base64 rest in omega arith
