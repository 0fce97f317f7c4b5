-- ===== src/Tests/Data.antt =====
-- Three backends, a pool of them, requests and answers for the tests.
use bduts.Prelude.{ℕ, String, Bool, true, false, [], ◌∷◌, none, if◌then◌else◌, ◌==◌}
use bduts.Prelude.Int.{pos, negsuc}
use bduts.Http.{Url, Request, Response}
use bduts.Backend.{Backend, DoResult, responded}
use bduts.ServerPool.Steps.{State}

abbrev pub url_of : String → Url
url_of host = record { scheme = "http"; host = host; rest = "" }

abbrev pub server : String → Bool → ℕ → ℕ → Backend
server host alive cap queued = record {
  url = url_of host;
  health_check_tcp_timeout = pos 1000000;
  alive = alive;
  request_chan = record { cap = cap; queued = queued };
}

abbrev pub cells : ℕ → Backend
cells r =
    if r == 0
    then server "a" true 2 0
    else if r == 1
    then server "b" false 2 0
    else server "c" true 2 0

-- a and c are alive, b is down; the last request went to a.
abbrev pub three : State
three = record {
  heap = record { cell = cells; next = 3 };
  pool = record { servers = 0 ∷ 1 ∷ 2 ∷ []; current = pos 0 };
}

-- One alive server without any place.
abbrev pub blocked : State
blocked = record {
  heap = record { cell = λ r. server "z" true 0 0; next = 1 };
  pool = record { servers = 0 ∷ []; current = negsuc 0 };
}

abbrev pub page_request : Request
page_request = record {
  method = "GET";
  proto = "HTTP/1.1";
  host = "balancer";
  request_uri = "/hello";
  url = record { scheme = ""; host = ""; rest = "/hello" };
  header = [];
}

abbrev pub reply : ℕ → Response
reply code = record { status_code = code; header = []; content = "hi"; read_err = none }

abbrev pub answers_with : ℕ → Request → DoResult
answers_with code req = responded (reply code)
