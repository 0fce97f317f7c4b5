-- ===== src/Lb/Handler.antt =====
-- lb/lbHandlers.go, backendHandler: choose a server, take a place in its channel, send the
-- request, give the place back, and answer the client or try the next server. The `goto` loop is
-- a state machine whose steps are the points at which other goroutines can come in between.
pub mod Effects
pub mod InFlight
pub mod Quiet
pub mod Progress
pub mod Livelock
pub mod Replies
pub mod Metered
use bduts.Prelude.{ℕ, String, Bool, true, false, List, [], ◌∷◌, Option, none, some, if◌then◌else◌}
use bduts.Prelude.Go.{Go, ret, panic}
use bduts.Http.{Request, Response, ResponseWriter, Err, http_error}
use bduts.Backend.{
  Backend, DoResult, assign_request, free, set_alive, is_canceled, send_request_to_backend,
  write_body_and_return,
}
use bduts.ServerPool.{Heap, ServerPool, store, get_next_peer}
use bduts.ServerPool.Steps.{State}

-- The response and the error of SendRequestToBackend.
abbrev pub Sent : Type 0
Sent = Option Response × Option Err

pub data Outcome : Type 0 where
  -- GetNextPeer's error, answered by 503
  unavailable : Outcome
  -- the client went away
  gone : ℕ → Outcome
  -- the body could not be passed on
  unwritten : ℕ → Outcome
  -- passed on, with the bytes that go to the cache
  passed : ℕ → Response → String → Outcome
  -- a panic: a bad index or a nil response
  crashed : Outcome

pub data Phase : Type 0 where
  choosing : Phase
  assigning sending : ℕ → Phase
  releasing judging : ℕ → Sent → Phase
  finished : Outcome → Phase

pub record Handler : Type 0 where
  pub phase : Phase
  pub writer : ResponseWriter
  pub request : Request

abbrev pub on_heap : State → ℕ → Backend → State
on_heap s r b = record s { heap = store s.heap r b }

abbrev pub at_phase : Handler → Phase → Handler
at_phase hd p = record hd { phase = p }

choose : Go (ServerPool × Option ℕ) → State → Handler → State × Handler
choose panic s hd = (s, at_phase hd (finished crashed))
choose (ret (p', none)) s hd = (
  record s { pool = p' },
  record hd {
    phase = finished unavailable;
    writer = http_error "all backends are turned down" 503 hd.writer;
  },
)
choose (ret (p', some r)) s hd = (record s { pool = p' }, at_phase hd (assigning r))

-- `goto ChooseServer` when the channel stayed full.
assign : ℕ → State → Handler → State × Handler
assign r s hd =
    let (b, ok) = assign_request (s.heap.cell r) in
    (on_heap s r b, at_phase hd (if ok then sending r else choosing))

send : (Request → DoResult) → ℕ → State → Handler → State × Handler
send do_request r s hd =
    let (req, sent) = send_request_to_backend do_request (s.heap.cell r) hd.request in
    (s, record hd { phase = releasing r sent; request = req })

release : ℕ → Sent → State → Handler → State × Handler
release r sent s hd = (on_heap s r (free (s.heap.cell r)).0, at_phase hd (judging r sent))

answered : ℕ → Response → ResponseWriter × Option String → Handler → Handler
answered r resp (rw, none) hd = record hd { phase = finished (unwritten r); writer = rw }
answered r resp (rw, some bytes) hd = record hd {
  phase = finished (passed r resp bytes);
  writer = rw;
}

judge : ℕ → Sent → State → Handler → State × Handler
unfolding answered
judge r (_, some e) s hd =
    if is_canceled e
    then (s, at_phase hd (finished (gone r)))
    else (on_heap s r (set_alive false (s.heap.cell r)), at_phase hd choosing)
judge r (none, none) s hd = (s, at_phase hd (finished crashed))
judge r (some resp, none) s hd = (s, answered r resp (write_body_and_return hd.writer resp) hd)

pub dispatch : (Request → DoResult) → Phase → State → Handler → State × Handler
unfolding choose assign send release judge
dispatch do_request choosing s hd = choose (get_next_peer s.heap s.pool) s hd
dispatch do_request (assigning r) s hd = assign r s hd
dispatch do_request (sending r) s hd = send do_request r s hd
dispatch do_request (releasing r sent) s hd = release r sent s hd
dispatch do_request (judging r sent) s hd = judge r sent s hd
dispatch do_request (finished o) s hd = (s, hd)

-- One step of the handler; `do_request` is what http.DefaultClient.Do would answer now.
unfoldable pub advance : (Request → DoResult) → State → Handler → State × Handler
unfolding dispatch
advance do_request s hd = dispatch do_request hd.phase s hd

-- backendHandler, called with this writer and request
abbrev pub backend_handler : ResponseWriter → Request → Handler
backend_handler rw req = record { phase = choosing; writer = rw; request = req }

-- The handler alone, for as many steps as there are answers of the network.
unfoldable pub drive : List (Request → DoResult) → State → Handler → State × Handler
unfolding advance
drive [] s hd = (s, hd)
drive (answer ∷ answers) s hd = let (s', hd') = advance answer s hd in drive answers s' hd'
