-- ===== src/Config.antt =====
-- config/cacheConfig.go, ParseRequestKey: which parts of a request make the key of its page.
pub mod Keys
use bduts.Prelude.{String, str_eq, List, [], ◌∷◌, Option, none, some, if◌then◌else◌}
use bduts.Prelude.Go.{Go, ret, panic}
use bduts.Http.{is_empty}
use bduts.Text.{split}

-- The parts of a request that a key can have: r.Method, r.Host, r.URL.Path and r.URL.RawQuery
pub record KeyRequest : Type 0 where
  pub method : String
  pub host : String
  pub path : String
  pub raw_query : String

pub data KeyPart : Type 0 where
  req_method req_host req_uri req_query : KeyPart

-- The function of a part
unfoldable pub value_of : KeyPart → KeyRequest → String
value_of req_method r = r.method
value_of req_host r = r.host
value_of req_uri r = r.path
value_of req_query r = r.raw_query

-- The switch; `none` is its default branch.
unfoldable pub key_part : String → Option KeyPart
key_part v =
    if str_eq v "REQ_METHOD"
    then some req_method
    else if str_eq v "REQ_HOST"
    then some req_host
    else if str_eq v "REQ_URI"
    then some req_uri
    else if str_eq v "REQ_QUERY"
    then some req_query
    else none

-- The loop
unfoldable pub key_functions : List String → List (KeyRequest → String)
unfolding key_part value_of
key_functions [] = []
key_functions (v ∷ keys) =
    let rest = key_functions keys in elim (key_part v) [ none ↦ rest | some p ↦ value_of p ∷ rest ]

unfoldable pub parse_request_key : String → Go (List (KeyRequest → String))
unfolding key_functions
parse_request_key request_key =
    if is_empty request_key then panic else ret (key_functions (split b';' request_key))
