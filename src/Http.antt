-- ===== src/Http.antt =====
-- net/http as far as the handlers use it: requests, responses and the response writer, on which
-- the first status wins and the headers are frozen when it is sent.
pub mod Sending
use Prim.Native.String
use bduts.Prelude.{
  ℕ, String, str_eq, Bool, true, false, ◌&&◌, not, List, [], ◌∷◌, ◌++◌, Option, none, some,
  if◌then◌else◌,
}

-- net/url.URL without user information; `rest` is everything from the path on.
pub record Url : Type 0 where
  pub scheme : String
  pub host : String
  pub rest : String

infixr 66 ◌^^◌
abbrev pub ◌^^◌ : String → String → String
s ^^ t = String.◌++◌ s t

abbrev pub is_empty : String → Bool
is_empty s = str_eq s ""

-- (*URL).String
unfoldable pub url_string : Url → String
url_string u =
    (if is_empty u.scheme then "" else u.scheme ^^ ":")
    ^^ (if not (is_empty u.scheme && is_empty u.host) && not (is_empty u.host && is_empty u.rest)
        then "//"
        else "")
    ^^ u.host
    ^^ u.rest

abbrev pub Header : Type 0
Header = List (String × List String)

pub record Request : Type 0 where
  pub method : String
  pub proto : String
  pub host : String
  pub request_uri : String
  pub url : Url
  pub header : Header

-- Errors: those that errors.Is knows, those of a text, and errors.New("Error: " + the status).
pub data Err : Type 0 where
  canceled : Err
  eof : Err
  failed : String → Err
  bad_status : ℕ → Err

-- A response whose body can be read to the end, or fails to.
pub record Response : Type 0 where
  pub status_code : ℕ
  pub header : Header
  pub content : String
  pub read_err : Option Err

-- `broken` says that the client's connection takes no more bytes.
pub record ResponseWriter : Type 0 where
  pub header : List (String × String)
  pub status : Option ℕ
  pub sent_header : List (String × String)
  pub body : List String
  pub broken : Bool

abbrev pub fresh_writer : ResponseWriter
fresh_writer = record { header = []; status = none; sent_header = []; body = []; broken = false }

-- A second WriteHeader is superfluous and is ignored.
unfoldable pub write_header : ℕ → ResponseWriter → ResponseWriter
write_header code rw = elim rw.status [
  | none ↦ record rw { status = some code; sent_header = rw.header }
  | some _ ↦ rw
]

-- Write sends status 200 first if none was sent; the flag says whether it returned no error.
unfoldable pub write : String → ResponseWriter → ResponseWriter × Bool
unfolding write_header
write chunk rw =
    let sent = write_header 200 rw in
    if rw.broken then (sent, false) else (record sent { body = sent.body ++ chunk ∷ [] }, true)

unfoldable pub header_add : String → String → ResponseWriter → ResponseWriter
header_add key value rw = record rw { header = rw.header ++ (key, value) ∷ [] }

unfoldable pub header_del : String → List (String × String) → List (String × String)
header_del key [] = []
header_del key ((k, v) ∷ h) = if str_eq k key then header_del key h else (k, v) ∷ header_del key h

unfoldable pub header_set : String → String → ResponseWriter → ResponseWriter
unfolding header_del
header_set key value rw = record rw { header = header_del key rw.header ++ (key, value) ∷ [] }

-- http.Error
unfoldable pub http_error : String → ℕ → ResponseWriter → ResponseWriter
unfolding header_set write_header write
http_error message code rw =
    (write (message ^^ "\n") (
      write_header code (
        header_set "X-Content-Type-Options" "nosniff"
          (header_set "Content-Type" "text/plain; charset=utf-8" rw)))).0

abbrev pub add_values : String → List String → ResponseWriter → ResponseWriter
add_values key [] rw = rw
add_values key (value ∷ values) rw = add_values key values (header_add key value rw)

-- `for key, values := range h { for _, value := range values { rw.Header().Add(key, value) } }`
abbrev pub add_headers : Header → ResponseWriter → ResponseWriter
add_headers [] rw = rw
add_headers ((key, values) ∷ h) rw = add_headers h (add_values key values rw)
