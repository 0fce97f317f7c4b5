-- ===== src/Backend.antt =====
-- backend/backend.go: one backend server, its bounded channel of requests in flight, and the
-- forwarding of a request to it. The channel carries only `true`, so its state is a count.
use bduts.Prelude.{
  ℕ, suc, ◌-◌, String, Bool, true, false, ◌&&◌, not, Option, none, some, ltb, leb, ◌==◌,
  if◌then◌else◌,
}
use bduts.Prelude.Int.{ℤ, pos, negsuc, int64, ◌*ℤ◌}
use bduts.Prelude.Go.{Go, ret, panic, ◌>>=◌}
use bduts.Http.{
  Url, Request, Response, ResponseWriter, Err, canceled, eof, bad_status, write, http_error,
  add_headers,
}

-- config/serversConfig.go
pub record ServerConfig : Type 0 where
  pub url : String
  pub health_check_tcp_timeout : ℤ
  pub maximal_requests : ℤ

pub record Chan : Type 0 where
  pub cap : ℕ
  pub queued : ℕ

-- The mutex makes `set_alive` one step; it keeps no state between steps.
pub record Backend : Type 0 where
  pub url : Url
  pub health_check_tcp_timeout : ℤ
  pub alive : Bool
  pub request_chan : Chan

-- make(chan bool, n) panics on a negative size.
unfoldable pub make_chan : ℤ → Go Chan
make_chan (pos n) = ret (record { cap = n; queued = 0 })
make_chan (negsuc n) = panic

unfoldable pub new_backend : Url → ℤ → ℤ → Go Backend
unfolding make_chan
new_backend url timeout max_requests = do
  c ← make_chan max_requests
  ret (record { url = url; health_check_tcp_timeout = timeout; alive = false; request_chan = c })

abbrev pub millisecond : ℤ
millisecond = pos 1000000

-- `none` is the nil that a URL which does not parse gives; `parse` is url.Parse.
unfoldable pub new_backend_config : (String → Option Url) → ServerConfig → Go (Option Backend)
unfolding new_backend
new_backend_config parse server = elim (parse server.url) [
  | none ↦ ret none
  | some u ↦ do
    b ←
        new_backend u (int64 (server.health_check_tcp_timeout *ℤ millisecond))
          server.maximal_requests
    ret (some b)
]

-- The select of a send with a timer of 100 ms, at the moment when it resolves: the send goes
-- through if the channel has room then, and the timer fires only while it has none.
unfoldable pub assign_request : Backend → Backend × Bool
assign_request b =
    if ltb b.request_chan.queued b.request_chan.cap
    then (
      record b {
        request_chan = record { cap = b.request_chan.cap; queued = suc b.request_chan.queued };
      },
      true,
    )
    else (b, false)

unfoldable pub free : Backend → Backend × Bool
free b =
    if ltb 0 b.request_chan.queued
    then (
      record b {
        request_chan = record { cap = b.request_chan.cap; queued = b.request_chan.queued - 1 };
      },
      true,
    )
    else (b, false)

unfoldable pub maximal_requests : Backend → ℕ
maximal_requests b = b.request_chan.cap

unfoldable pub set_alive : Bool → Backend → Backend
set_alive alive b = record b { alive = alive }

-- `dial` is the outcome of net.DialTimeout to a host within a timeout: whether it connected.
unfoldable pub check_if_alive : (String → ℤ → Bool) → Backend → Bool
check_if_alive dial b = dial b.url.host b.health_check_tcp_timeout

-- main.go, `healthCheckFunc`
unfoldable pub health_check : (String → ℤ → Bool) → Backend → Backend
unfolding check_if_alive set_alive
health_check dial b = set_alive (check_if_alive dial b) b

-- `*r` is copied, but its URL is a pointer: both copies see the new host and scheme. The first
-- component is the caller's request afterwards, the second the one to send.
unfoldable pub prepare_request : Backend → Request → Request × Request
prepare_request b r =
    let shared : Url = record r.url { host = b.url.host; scheme = b.url.scheme } in
    (record r { url = shared }, record r { url = shared; host = b.url.host; request_uri = "" })

-- What http.DefaultClient.Do returns: a response, a *url.Error around an error, or another error.
pub data DoResult : Type 0 where
  responded : Response → DoResult
  url_error : Err → DoResult
  other_error : Err → DoResult

pub record ResponseError : Type 0 where
  pub status_code : ℤ
  pub err : Option Err

abbrev pub is_canceled : Err → Bool
is_canceled canceled = true
is_canceled _ = false

abbrev pub is_eof : Err → Bool
is_eof eof = true
is_eof _ = false

-- 5xx, but for 505 and 501
abbrev pub is_backend_fault : ℕ → Bool
is_backend_fault status =
    leb 500 status && ltb status 600 && not (status == 505) && not (status == 501)

pub data Made : Type 0 where
  made : Response → Made
  refused : ResponseError → Made

unfoldable pub make_request : DoResult → Made
make_request (responded resp) =
    if is_backend_fault resp.status_code
    then refused
        (record { status_code = pos resp.status_code; err = some (bad_status resp.status_code) })
    else made resp
make_request (url_error e) =
    refused (record { status_code = if is_canceled e then negsuc 0 else pos 500; err = some e })
make_request (other_error e) = refused (record { status_code = pos 0; err = none })

abbrev pub returned : Made → Option Response × Option Err
returned (made resp) = (some resp, none)
returned (refused e) = (none, e.err)

-- `do_request` is http.DefaultClient.Do. The result is the caller's request afterwards, the
-- response or nil, and the error or nil.
unfoldable pub send_request_to_backend :
    (Request → DoResult) → Backend → Request → Request × (Option Response × Option Err)
unfolding prepare_request make_request
send_request_to_backend do_request b req =
    let (caller, r) = prepare_request b req in (caller, returned (make_request (do_request r)))

abbrev pub read_failed : Option Err → Option Err
read_failed none = none
read_failed (some e) = if is_eof e then none else some e

abbrev pub written : String → ResponseWriter × Bool → ResponseWriter × Option String
written content (rw, true) = (rw, some content)
written content (rw, false) = (http_error "Internal Server Error" 500 rw, none)

-- `none` in the result is a non-nil error.
unfoldable pub write_body_and_return : ResponseWriter → Response → ResponseWriter × Option String
unfolding http_error write
write_body_and_return rw resp =
    let headed = add_headers resp.header rw in
    elim (read_failed resp.read_err) [
      | some e ↦ (http_error "Internal Server Error" 500 headed, none)
      | none ↦ written resp.content (write resp.content headed)
    ]
