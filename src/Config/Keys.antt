-- ===== src/Config/Keys.antt =====
-- config/cacheConfig.go, ParseRequestKey: keys that are written with semicolons.
use Prim.Native.String.{String as Text, ◌++◌ as ◌<>◌}
use bduts.Prelude.{◌≡◌, refl, ap, ◌∙◌, String, false, List, [], ◌∷◌, map, none, All, if◌then◌else◌}
use bduts.Prelude.Go.{ret, panic}
use bduts.Http.{is_empty}
use bduts.Text.{split}
use bduts.Text.Parts.{has_char, split_whole, split-append}
use bduts.Config.{
  KeyRequest, KeyPart, req_method, req_host, req_uri, req_query, value_of, key_part, key_functions,
  parse_request_key,
}

-- A word of a key: the name of a part, or another word
data Word : Type 0 where
  known : KeyPart → Word
  unknown : String → Word

abbrev text_of : Word → String
text_of (known req_method) = "REQ_METHOD"
text_of (known req_host) = "REQ_HOST"
text_of (known req_uri) = "REQ_URI"
text_of (known req_query) = "REQ_QUERY"
text_of (unknown s) = s

-- Another word is not a part's name and has no semicolon.
abbrev IsWord : Word → Type 0
IsWord (known p) = Unit
IsWord (unknown s) = (key_part s ≡ none) × (has_char b';' s ≡ false)

-- The words with semicolons between them
abbrev written : Word → List Word → String
written w [] = text_of w
written w (v ∷ ws) = text_of w <> Text.◌∷◌ ";" (written v ws)

-- The functions of the known words, in their order
abbrev meant : List Word → List (KeyRequest → String)
meant [] = []
meant (known p ∷ ws) = value_of p ∷ meant ws
meant (unknown s ∷ ws) = meant ws

word_free : (w : Word) → IsWord w → has_char b';' (text_of w) ≡ false
word_free (known req_method) ok = refl
word_free (known req_host) ok = refl
word_free (known req_uri) ok = refl
word_free (known req_query) ok = refl
word_free (unknown s) ok = ok.1

split-written :
    (w : Word) (ws : List Word)
    → All IsWord (w ∷ ws)
    → split b';' (written w ws) ≡ map text_of (w ∷ ws)
split-written w [] words = split_whole b';' (text_of w) (word_free w words.0)
split-written w (v ∷ ws) words =
    split-append b';' (text_of w) (written v ws) ";" (word_free w words.0) refl
    ∙ ap (◌∷◌ (text_of w)) (split-written v ws words.1)

key_functions_lem : (ws : List Word) → All IsWord ws → key_functions (map text_of ws) ≡ meant ws
unfolding key_functions key_part
key_functions_lem [] words = refl
key_functions_lem (known req_method ∷ ws) words =
    ap (◌∷◌ (value_of req_method)) (key_functions_lem ws words.1)
key_functions_lem (known req_host ∷ ws) words =
    ap (◌∷◌ (value_of req_host)) (key_functions_lem ws words.1)
key_functions_lem (known req_uri ∷ ws) words =
    ap (◌∷◌ (value_of req_uri)) (key_functions_lem ws words.1)
key_functions_lem (known req_query ∷ ws) words =
    ap (◌∷◌ (value_of req_query)) (key_functions_lem ws words.1)
key_functions_lem (unknown s ∷ ws) words =
    rw (key_functions, words.0.0) (key_functions_lem ws words.1)

-- A key that is written as words with semicolons between them, names of parts and other words
-- without a semicolon, is read by ParseRequestKey as the functions of the names in their order;
-- the other words are skipped. It panics exactly where the key is empty.
parse_request_key-written :
    (w : Word) (ws : List Word)
    → All IsWord (w ∷ ws)
    → parse_request_key (written w ws)
      ≡ (if is_empty (written w ws) then panic else ret (meant (w ∷ ws)))
unfolding parse_request_key
parse_request_key-written w ws words =
    ap (λ fs. if is_empty (written w ws) then panic else ret fs)
      (ap key_functions (split-written w ws words) ∙ key_functions_lem (w ∷ ws) words)
