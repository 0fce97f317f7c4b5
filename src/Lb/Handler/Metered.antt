-- ===== src/Lb/Handler/Metered.antt =====
-- lb/lbHandlers.go, backendHandler with its metrics (metrics/handlerFunc.go): RequestsNow is raised, and
-- the two deferred calls are put down, each time that a place in a channel was taken.
pub mod Passing
pub mod Counts
use bduts.Prelude.{
  String, sym, ap, ◌∙◌, ℕ, zero, suc, ◌+◌, ◌-◌, ◌≡◌, refl, List, [], ◌∷◌, Bool, Bool-cases, inl,
  inr, true, false, Option, none, some, arith, if◌then◌else◌,
}
use bduts.Prelude.Go.{Go, ret, panic}
use bduts.Metrics.{Meters}
use bduts.Http.{Request, Response, ResponseWriter}
use bduts.Backend.{
  DoResult, assign_request, free, is_canceled, write_body_and_return, send_request_to_backend,
}
use bduts.ServerPool.{ServerPool, get_next_peer}
use bduts.ServerPool.Steps.{State}
use bduts.Lb.Handler.{
  Phase, choosing, assigning, sending, releasing, judging, finished, Handler, Sent, choose, assign,
  send, release, judge, answered, dispatch, advance, drive,
}

-- The handler with the number of deferred pairs RequestsNow.Dec() and Requests.Inc()
pub record Metered : Type 0 where
  pub handler : Handler
  pub meters : Meters
  pub deferred : ℕ

-- Whether the lines of the metrics were passed in a step
abbrev pub passed_meters : Phase → Phase → ℕ
passed_meters (assigning r) (sending q) = 1
passed_meters _ _ = 0

-- The deferred calls run when the handler has ended.
abbrev pub settle : Phase → Metered → Metered
settle (finished o) m = record m {
  meters = record {
    requests_now = m.meters.requests_now - m.deferred;
    requests = m.meters.requests + m.deferred;
  };
  deferred = 0;
}
settle _ m = m

abbrev pub entered : ℕ → Handler → Metered → Metered
entered n hd m = record {
  handler = hd;
  meters = record m.meters { requests_now = m.meters.requests_now + n };
  deferred = m.deferred + n;
}

unfoldable pub metered_advance : (Request → DoResult) → State → Metered → State × Metered
unfolding advance
metered_advance answer s m =
    let (s', hd) = advance answer s m.handler in
    (s', settle hd.phase (entered (passed_meters m.handler.phase hd.phase) hd m))

unfoldable pub metered_drive : List (Request → DoResult) → State → Metered → State × Metered
unfolding metered_advance
metered_drive [] s m = (s, m)
metered_drive (answer ∷ answers) s m =
    let (s', m') = metered_advance answer s m in metered_drive answers s' m'

-- A handler that is about to send
abbrev pub about_to_send : Phase → ℕ
about_to_send (sending r) = 1
about_to_send _ = 0

-- How often the request is sent to a backend
unfoldable pub sends : List (Request → DoResult) → State → Handler → ℕ
unfolding advance
sends [] s hd = 0
sends (answer ∷ answers) s hd =
    let (s', hd') = advance answer s hd in about_to_send hd.phase + sends answers s' hd'
