-- ===== src/Lb/Handler/Replies.antt =====
-- lb/lbHandlers.go with backend/backend.go: which answers of a backend reach the client.
use bduts.Prelude.{
  ℕ, ◌≡◌, ◌≢◌, refl, inl, inr, Bool, true, false, String, List, [], ◌∷◌, Option, none, some, arith,
  subst, Bool-cases, Option-cases, All,
}
use bduts.Prelude.Go.{Go, ret, panic}
use bduts.Http.{Request, Response, ResponseWriter, Err, write, add_headers}
use bduts.Backend.{
  Backend, assign_request, DoResult, responded, url_error, other_error, is_backend_fault,
  is_canceled, make_request, returned, written, read_failed, send_request_to_backend,
  write_body_and_return,
}
use bduts.ServerPool.{ServerPool}
use bduts.ServerPool.RoundRobin.{get_next_peer-find}
use bduts.ServerPool.Steps.{State, IsValid}
use bduts.Lb.Handler.{
  Sent, Outcome, unavailable, gone, unwritten, passed, crashed, Phase, choosing, assigning, sending,
  releasing, judging, finished, Handler, choose, assign, send, release, judge, answered, dispatch,
  advance, drive, backend_handler,
}
use bduts.Lb.Handler.Effects.{dispatch-Moves, Moves-IsValid}

-- net/http documents that the error of Client.Do is a *url.Error.
abbrev pub IsDocumented : (Request → DoResult) → Type 0
IsDocumented do_request = (req : Request) (e : Err) → do_request req ≢ other_error e

-- What SendRequestToBackend may return: a response that is no fault of the backend, or an error.
abbrev pub IsReply : Sent → Type 0
IsReply (none, none) = ⊥
IsReply (some resp, none) = is_backend_fault resp.status_code ≡ false
IsReply (_, some e) = Unit {0}

abbrev pub IsProper : Outcome → Type 0
IsProper unavailable = Unit {0}
IsProper (gone r) = Unit {0}
IsProper (unwritten r) = Unit {0}
IsProper (passed r resp bytes) =
    (is_backend_fault resp.status_code ≡ false) × (bytes ≡ resp.content)
IsProper crashed = ⊥

abbrev Honest : Phase → Type 0
Honest (releasing r sent) = IsReply sent
Honest (judging r sent) = IsReply sent
Honest (finished o) = IsProper o
Honest _ = Unit {0}

make_request-IsReply :
    (result : DoResult)
    → ((e : Err) → result ≢ other_error e)
    → IsReply (returned (make_request result))
unfolding make_request
make_request-IsReply (responded resp) d = elim (Bool-cases (is_backend_fault resp.status_code)) [
  | inl fault ↦ rw fault tt
  | inr fine ↦ rw fine fine
]
make_request-IsReply (url_error e) d = tt
make_request-IsReply (other_error e) d = absurd (d e refl)

-- SendRequestToBackend returns a response that is no fault of the backend (5xx but 501 and 505),
-- or an error, and never neither of them, if the errors of Client.Do are *url.Error as documented.
send_request_to_backend-IsReply :
    (do_request : Request → DoResult) (b : Backend) (req : Request)
    → IsDocumented do_request
    → IsReply (send_request_to_backend do_request b req).1
unfolding send_request_to_backend
send_request_to_backend-IsReply do_request b req d = make_request-IsReply _ (d _)

choose-Honest :
    (g : Go (ServerPool × Option ℕ)) (s : State) (hd : Handler)
    → g ≢ panic
    → Honest (choose g s hd).1.phase
unfolding choose
choose-Honest panic s hd n = absurd (n refl)
choose-Honest (ret (p', none)) s hd n = tt
choose-Honest (ret (p', some r)) s hd n = tt

written-bytes :
    (content : String) (w : ResponseWriter × Bool) (rw : ResponseWriter) (bytes : String)
    → written content w ≡ (rw, some bytes)
    → bytes ≡ content
written-bytes content (w, true) rw bytes e = ground arith
written-bytes content (w, false) rw bytes e = cc

-- What goes to the cache is the body of the response.
write_body_and_return-bytes :
    (w w' : ResponseWriter) (resp : Response) (bytes : String)
    → write_body_and_return w resp ≡ (w', some bytes)
    → bytes ≡ resp.content
unfolding write_body_and_return
write_body_and_return-bytes w w' resp bytes e = elim (Option-cases (read_failed resp.read_err)) [
  | inl fine ↦
      written-bytes resp.content (write resp.content (add_headers resp.header w)) w' bytes
        (rw (fine, write_body_and_return) at e)
  | inr (x, failed) ↦ cc (rw (failed, write_body_and_return) at e)
]

answered-Honest :
    (q : ℕ) (resp : Response) (w : ResponseWriter × Option String) (hd : Handler)
    → is_backend_fault resp.status_code ≡ false
    → ((rw : ResponseWriter) (bytes : String) → w ≡ (rw, some bytes) → bytes ≡ resp.content)
    → Honest (answered q resp w hd).phase
unfolding answered
answered-Honest q resp (w, none) hd f k = tt
answered-Honest q resp (w, some bytes) hd f k = (f, k w bytes refl)

judge-Honest :
    (q : ℕ) (sent : Sent) (s : State) (hd : Handler)
    → IsReply sent
    → Honest (judge q sent s hd).1.phase
unfolding judge
judge-Honest q (resp, some e) s hd h = elim (Bool-cases (is_canceled e)) [
  | inl left ↦ rw (left, judge) tt
  | inr down ↦ rw (down, judge) tt
]
judge-Honest q (none, none) s hd h = absurd h
judge-Honest q (some resp, none) s hd h =
    answered-Honest q resp _ hd h
      (λ w' bytes e. write_body_and_return-bytes hd.writer w' resp bytes e)

assign-Honest : (q : ℕ) (s : State) (hd : Handler) → Honest (assign q s hd).1.phase
unfolding assign
assign-Honest q s hd = elim (Bool-cases (assign_request (s.heap.cell q)).1) [
  | inl ok ↦ rw ok tt
  | inr full ↦ rw full tt
]

dispatch-Honest :
    (do_request : Request → DoResult) (s : State) (hd : Handler) (p : Phase)
    → IsDocumented do_request
    → IsValid s
    → hd.phase ≡ p
    → Honest p
    → Honest (dispatch do_request p s hd).1.phase
unfolding dispatch send release
dispatch-Honest do_request s hd choosing d v e h =
    let (_, found, _) = get_next_peer-find s.heap s.pool v.sane in
    choose-Honest _ s hd (λ c. cc (found, c))
dispatch-Honest do_request s hd (assigning q) d v e h = assign-Honest q s hd
dispatch-Honest do_request s hd (sending q) d v e h =
    send_request_to_backend-IsReply do_request (s.heap.cell q) hd.request d
dispatch-Honest do_request s hd (releasing q sent) d v e h = h
dispatch-Honest do_request s hd (judging q sent) d v e h = judge-Honest q sent s hd h
dispatch-Honest do_request s hd (finished o) d v e h = rw e h

drive-Honest :
    (answers : List (Request → DoResult)) (s : State) (hd : Handler)
    → All IsDocumented answers
    → IsValid s
    → Honest hd.phase
    → Honest (drive answers s hd).1.phase
unfolding drive advance
drive-Honest [] s hd d v h = h
drive-Honest (answer ∷ answers) s hd (d, ds) v h =
    drive-Honest answers (advance answer s hd).0 (advance answer s hd).1 ds
      (Moves-IsValid (dispatch-Moves answer s hd hd.phase) v)
      (dispatch-Honest answer s hd hd.phase d v refl h)

-- If the errors of Client.Do are *url.Error as documented, backendHandler run alone on a valid
-- state does not end in a panic, and a response that it has passed on is no fault of the backend
-- (5xx but 501 and 505), with its body being what is then offered to the cache.
pub backend_handler-IsProper :
    (answers : List (Request → DoResult)) (s : State) (rw : ResponseWriter) (req : Request)
    (o : Outcome)
    → All IsDocumented answers
    → IsValid s
    → (drive answers s (backend_handler rw req)).1.phase ≡ finished o
    → IsProper o
backend_handler-IsProper answers s w req o d v e =
    subst Honest e (drive-Honest answers s (backend_handler w req) d v tt)
