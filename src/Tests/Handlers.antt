-- ===== src/Tests/Handlers.antt =====
-- The theorems on backendHandler at concrete pools and answers.
use bduts.Prelude.{◌+◌, ℕ, ◌≤◌, ◌≡◌, refl, false, List, [], ◌∷◌, none, some, arith, inl, All}
use bduts.Http.{Request, fresh_writer}
use bduts.Backend.{
  DoResult, assign_request, maximal_requests, send_request_to_backend, write_body_and_return,
}
use bduts.Prelude.Int.{int32, ◌+ℤ◌}
use bduts.ServerPool.{get_next_peer}
use bduts.ServerPool.Steps.{IsValid}
use bduts.Lb.Handler.{
  Phase, releasing, finished, passed, Outcome, Handler, advance, drive, backend_handler,
}
use bduts.Lb.Handler.InFlight.{
  System, Runs, arrives, advances, start, next, IsAccounted, in_flight, in_flight-bounded,
}
use bduts.Metrics.{Meters}
use bduts.Lb.Handler.Metered.{metered_drive, sends}
use bduts.Lb.Handler.Metered.Counts.{unmetered, metered_drive-ended}
use bduts.Lb.Handler.Effects.{queued_at}
use bduts.Lb.Handler.Quiet.{is_finished}
use bduts.Lb.Handler.Progress.{backend_handler_ends}
use bduts.Lb.Handler.Livelock.{backend_handler_spins}
use bduts.Lb.Handler.Replies.{IsProper, IsDocumented, backend_handler-IsProper}
use bduts.Tests.Data.{three, blocked, page_request, reply, answers_with}

abbrev six_answers : List (Request → DoResult)
six_answers =
    answers_with 200
    ∷ answers_with 200
    ∷ answers_with 200
    ∷ answers_with 200
    ∷ answers_with 200
    ∷ answers_with 200
    ∷ []

abbrev eleven_answers : List (Request → DoResult)
eleven_answers =
    answers_with 200
    ∷ answers_with 200
    ∷ answers_with 200
    ∷ answers_with 200
    ∷ answers_with 200
    ∷ six_answers

backend_handler_ends_example :
    (o : Outcome) × ((drive eleven_answers three
        (backend_handler fresh_writer page_request)).1.phase
      ≡ finished o)
backend_handler_ends_example =
    backend_handler_ends eleven_answers three fresh_writer page_request (omega arith) (omega arith)
      (omega arith)

backend_handler_spins_example :
    is_finished (drive six_answers blocked (backend_handler fresh_writer page_request)).1.phase
    ≡ false
backend_handler_spins_example =
    backend_handler_spins six_answers blocked fresh_writer page_request 0 (omega arith) (inl refl)
      refl ((λ a. omega arith), tt)

three-IsValid : IsValid three
three-IsValid = record { sane = omega arith; allocated = omega arith; fits = λ r. ground arith }

answers_with-IsDocumented : (code : ℕ) → IsDocumented (answers_with code)
answers_with-IsDocumented code req e eq = cc

answers_ok-IsDocumented : All IsDocumented six_answers
answers_ok-IsDocumented = let d = answers_with-IsDocumented 200 in (d, (d, (d, (d, (d, (d, tt))))))

-- Two other requests are being processed, and seven were.
abbrev meters : Meters
meters = record { requests_now = 2; requests = 7 }

abbrev final : Phase
final = (drive six_answers three (backend_handler fresh_writer page_request)).1.phase

-- c answers, and its body is passed on.
served : final ≡ finished (passed 2 (reply 200) "hi")
unfolding drive get_next_peer int32 ◌+ℤ◌ assign_request send_request_to_backend
    write_body_and_return
served = refl

backend_handler-IsProper_example : IsProper (passed 2 (reply 200) "hi")
backend_handler-IsProper_example =
    backend_handler-IsProper six_answers three fresh_writer page_request (passed 2 (reply 200) "hi")
      answers_ok-IsDocumented three-IsValid served

metered_drive-ended_example :
    ((metered_drive six_answers three
        (unmetered meters (backend_handler fresh_writer page_request))).0
      ≡ (drive six_answers three (backend_handler fresh_writer page_request)).0)
    × ((metered_drive six_answers three
          (unmetered meters (backend_handler fresh_writer page_request))).1.handler
        ≡ (drive six_answers three (backend_handler fresh_writer page_request)).1)
    × ((metered_drive six_answers three
          (unmetered meters (backend_handler fresh_writer page_request))).1.meters.requests_now
        ≡ 2)
    × ((metered_drive six_answers three
          (unmetered meters (backend_handler fresh_writer page_request))).1.meters.requests
        ≡ 7 + sends six_answers three (backend_handler fresh_writer page_request))
metered_drive-ended_example =
    metered_drive-ended six_answers three meters fresh_writer page_request
      (passed 2 (reply 200) "hi") served

abbrev idle : System
idle = record { state = three; handlers = [] }

abbrev arrived : System
arrived = record { state = three; handlers = backend_handler fresh_writer page_request ∷ [] }

abbrev network : Request → DoResult
network = answers_with 200

-- The only handler of the system makes a step.
abbrev stepped : System → Handler → System
stepped y hd = record {
  state = (advance network y.state hd).0;
  handlers = (advance network y.state hd).1 ∷ [];
}

abbrev first_handler : Handler
first_handler = backend_handler fresh_writer page_request

abbrev assigning_handler : Handler
assigning_handler = (advance network three first_handler).1

abbrev chosen : System
chosen = stepped arrived first_handler

abbrev sending_handler : Handler
sending_handler = (advance network chosen.state assigning_handler).1

abbrev assigned : System
assigned = stepped chosen assigning_handler

abbrev releasing_handler : Handler
releasing_handler = (advance network assigned.state sending_handler).1

abbrev answered : System
answered = stepped assigned sending_handler

runs : Runs idle answered
runs =
    next
      (next
        (next (next start (arrives fresh_writer page_request))
          (advances {y = arrived} network [] first_handler [] refl))
        (advances {y = chosen} network [] assigning_handler [] refl))
      (advances {y = assigned} network [] sending_handler [] refl)

idle-IsAccounted : IsAccounted idle
idle-IsAccounted = record { valid = three-IsValid; known = tt; counted = λ r. ground arith }

in_flight-bounded_example :
    (queued_at answered.state 2 ≡ in_flight 2 answered.handlers)
    × (in_flight 2 answered.handlers ≤ maximal_requests (answered.state.heap.cell 2))
in_flight-bounded_example = in_flight-bounded {y = idle} {z = answered} idle-IsAccounted runs 2

-- One request is in flight on c at that moment.
one_in_flight : in_flight 2 answered.handlers ≡ 1
unfolding advance get_next_peer int32 ◌+ℤ◌ assign_request send_request_to_backend
    write_body_and_return
one_in_flight = refl

releases : releasing_handler.phase ≡ releasing 2 (some (reply 200), none)
unfolding advance get_next_peer int32 ◌+ℤ◌ assign_request send_request_to_backend
    write_body_and_return
releases = refl
