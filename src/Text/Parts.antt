-- ===== src/Text/Parts.antt =====
-- strings.Split: a text without the separator is one part, and two parts are found again.
use Prim.Native.String.{String as Text, ◌++◌ as ◌<>◌}
use Prim.Native.Char.{Char, code}
use text.Mathlib.TextLemmas.{cons-append, nil-append}
use bduts.Prelude.{ℕ, ◌≡◌, refl, Bool, true, false, ◌||◌, [], ◌∷◌, ◌==◌, ==_iff, arith}
use bduts.Text.{split}

-- Whether a character of this code stands in the text
abbrev pub has_char : ℕ → Text → Bool
has_char n Text.[] = false
has_char n (Text.◌∷◌ c s) = code c == n || has_char n s

pub split_whole : (n : ℕ) (s : Text) → has_char n s ≡ false → split n s ≡ s ∷ []
unfolding split
split_whole n Text.[] h = refl
split_whole n (Text.◌∷◌ c s) h =
    let ih : split n s ≡ s ∷ [] = split_whole n s (ground arith) in
    let other : (code c == n) ≡ false = ground arith in rw (ih, other) refl

pub split-append :
    (n : ℕ) (s t : Text) (c : Char)
    → has_char n s ≡ false
    → code c ≡ n
    → split n (s <> (Text.◌∷◌ c t)) ≡ s ∷ split n t
unfolding split
split-append n Text.[] t c free at =
    let same : (code c == n) ≡ true = (==_iff (code c) n).1 at in
    rw (nil-append (Text.◌∷◌ c t), same) refl
split-append n (Text.◌∷◌ d s) t c free at =
    let ih = split-append n s t c (ground arith) at in
    let other : (code d == n) ≡ false = ground arith in
    rw (cons-append d s (Text.◌∷◌ c t), ih, other) refl
