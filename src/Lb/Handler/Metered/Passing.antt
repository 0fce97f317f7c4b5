-- ===== src/Lb/Handler/Metered/Passing.antt =====
-- lb/lbHandlers.go, backendHandler: when the lines of the metrics are passed.
use bduts.Prelude.{String, ℕ, ◌≡◌, refl, Bool-cases, inl, inr, Option, none, some}
use bduts.Prelude.Go.{Go, ret, panic}
use bduts.Http.{Request, Response, ResponseWriter}
use bduts.Backend.{DoResult, assign_request, is_canceled, write_body_and_return}
use bduts.ServerPool.{ServerPool, get_next_peer}
use bduts.ServerPool.Steps.{State}
use bduts.Lb.Handler.{
  Phase, choosing, assigning, sending, releasing, judging, finished, Handler, Sent, choose, assign,
  send, release, judge, answered, dispatch, advance,
}
use bduts.Lb.Handler.Metered.{passed_meters, about_to_send}

choose-passed :
    (found : Go (ServerPool × Option ℕ)) (s : State) (hd : Handler)
    → 0 ≡ about_to_send (choose found s hd).1.phase
unfolding choose
choose-passed panic s hd = refl
choose-passed (ret (p, none)) s hd = refl
choose-passed (ret (p, some r)) s hd = refl

assign-passed :
    (r : ℕ) (s : State) (hd : Handler)
    → passed_meters (assigning r) (assign r s hd).1.phase ≡ about_to_send (assign r s hd).1.phase
unfolding assign
assign-passed r s hd = elim (Bool-cases (assign_request (s.heap.cell r)).1) [
  | inl ok ↦ rw (assign, ok) refl
  | inr full ↦ rw (assign, full) refl
]

release-passed :
    (r : ℕ) (sent : Sent) (s : State) (hd : Handler)
    → 0 ≡ about_to_send (release r sent s hd).1.phase
unfolding release
release-passed r sent s hd = refl

send-passed :
    (answer : Request → DoResult) (r : ℕ) (s : State) (hd : Handler)
    → 0 ≡ about_to_send (send answer r s hd).1.phase
unfolding send
send-passed answer r s hd = refl

answered-passed :
    (r : ℕ) (resp : Response) (w : ResponseWriter × Option String) (hd : Handler)
    → 0 ≡ about_to_send (answered r resp w hd).phase
unfolding answered
answered-passed r resp (w, none) hd = refl
answered-passed r resp (w, some bytes) hd = refl

judge-passed :
    (r : ℕ) (sent : Sent) (s : State) (hd : Handler) → 0 ≡ about_to_send (judge r sent s hd).1.phase
unfolding judge
judge-passed r (o, some e) s hd = elim (Bool-cases (is_canceled e)) [
  | inl gone ↦ rw (judge, gone) refl
  | inr fault ↦ rw (judge, fault) refl
]
judge-passed r (none, none) s hd = refl
judge-passed r (some resp, none) s hd =
    answered-passed r resp (write_body_and_return hd.writer resp) hd

dispatch-passed :
    (answer : Request → DoResult) (p : Phase) (s : State) (hd : Handler)
    → hd.phase ≡ p
    → passed_meters p (dispatch answer p s hd).1.phase
      ≡ about_to_send (dispatch answer p s hd).1.phase
unfolding dispatch
dispatch-passed answer choosing s hd e = choose-passed (get_next_peer s.heap s.pool) s hd
dispatch-passed answer (assigning r) s hd e = assign-passed r s hd
dispatch-passed answer (sending r) s hd e = send-passed answer r s hd
dispatch-passed answer (releasing r sent) s hd e = release-passed r sent s hd
dispatch-passed answer (judging r sent) s hd e = judge-passed r sent s hd
dispatch-passed answer (finished o) s hd e = rw e refl

pub advance-passed :
    (answer : Request → DoResult) (s : State) (hd : Handler)
    → passed_meters hd.phase (advance answer s hd).1.phase
      ≡ about_to_send (advance answer s hd).1.phase
unfolding advance
advance-passed answer s hd = dispatch-passed answer hd.phase s hd refl
