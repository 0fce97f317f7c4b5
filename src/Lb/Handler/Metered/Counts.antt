-- ===== src/Lb/Handler/Metered/Counts.antt =====
-- lb/lbHandlers.go, backendHandler with its metrics: what the gauge and the counter show at the end.
use bduts.Prelude.{subst, ap, ◌∙◌, ℕ, ◌+◌, ◌≡◌, refl, List, [], ◌∷◌, arith}
use bduts.Http.{Request, ResponseWriter}
use bduts.Backend.{DoResult}
use bduts.ServerPool.Steps.{State}
use bduts.Lb.Handler.{
  Phase, choosing, assigning, sending, releasing, judging, finished, Handler, advance, drive,
  Outcome, backend_handler,
}
use bduts.Metrics.{Meters}
use bduts.Lb.Handler.Metered.{
  Metered, passed_meters, settle, entered, metered_advance, metered_drive, about_to_send, sends,
}
use bduts.Lb.Handler.Metered.Passing.{advance-passed}

-- Sendings so far, in the counter or deferred
abbrev total : Metered → ℕ
total m = m.meters.requests + m.deferred

-- The gauge is raised by what is deferred, above its value without this request.
abbrev pub IsRaised : ℕ → Metered → Type 0
IsRaised base m = m.meters.requests_now ≡ base + m.deferred

settle-total : (p : Phase) (m : Metered) → total (settle p m) ≡ total m
settle-total (finished o) m = omega arith
settle-total choosing m = refl
settle-total (assigning r) m = refl
settle-total (sending r) m = refl
settle-total (releasing r sent) m = refl
settle-total (judging r sent) m = refl

settle-IsRaised :
    (base : ℕ) (p : Phase) (m : Metered) → IsRaised base m → IsRaised base (settle p m)
settle-IsRaised base (finished o) m raised = omega arith
settle-IsRaised base choosing m raised = raised
settle-IsRaised base (assigning r) m raised = raised
settle-IsRaised base (sending r) m raised = raised
settle-IsRaised base (releasing r sent) m raised = raised
settle-IsRaised base (judging r sent) m raised = raised

settle-handler : (p : Phase) (m : Metered) → (settle p m).handler ≡ m.handler
settle-handler (finished o) m = refl
settle-handler choosing m = refl
settle-handler (assigning r) m = refl
settle-handler (sending r) m = refl
settle-handler (releasing r sent) m = refl
settle-handler (judging r sent) m = refl

-- Nothing is deferred by a handler that has ended.
abbrev pub IsSettled : Phase → ℕ → Type 0
IsSettled (finished o) deferred = deferred ≡ 0
IsSettled _ deferred = Unit

settle-IsSettled : (p : Phase) (m : Metered) → IsSettled p (settle p m).deferred
settle-IsSettled (finished o) m = refl
settle-IsSettled choosing m = tt
settle-IsSettled (assigning r) m = tt
settle-IsSettled (sending r) m = tt
settle-IsSettled (releasing r sent) m = tt
settle-IsSettled (judging r sent) m = tt

entered-total :
    (n k : ℕ) (hd : Handler) (m : Metered) → n ≡ k → total (entered n hd m) ≡ total m + k
entered-total n k hd m e = omega arith

entered-IsRaised :
    (n base : ℕ) (hd : Handler) (m : Metered) → IsRaised base m → IsRaised base (entered n hd m)
entered-IsRaised n base hd m raised = omega arith

-- One step of the metered handler, beside the step of the plain one
record StepOf (answer : Request → DoResult) (s : State) (m : Metered) (s₂ : State) (hd : Handler)
    : Type 0 where
  state : (metered_advance answer s m).0 ≡ (advance answer s₂ hd).0
  handler : (metered_advance answer s m).1.handler ≡ (advance answer s₂ hd).1
  grown :
      total (metered_advance answer s m).1 ≡ total m + about_to_send (advance answer s₂ hd).1.phase
  raised : (base : ℕ) → IsRaised base m → IsRaised base (metered_advance answer s m).1
  settled : IsSettled (advance answer s₂ hd).1.phase (metered_advance answer s m).1.deferred

step_lem : (answer : Request → DoResult) (s : State) (m : Metered) → StepOf answer s m s m.handler
unfolding metered_advance
step_lem answer s m =
    let after = advance answer s m.handler in
    let hd = after.1 in
    let n = passed_meters m.handler.phase hd.phase in
    let e = advance-passed answer s m.handler in
    record {
      state = refl;
      handler = settle-handler hd.phase (entered n hd m);
      grown =
          settle-total hd.phase (entered n hd m) ∙ entered-total n (about_to_send hd.phase) hd m e;
      raised = λ base raised.
          settle-IsRaised base hd.phase (entered n hd m) (entered-IsRaised n base hd m raised);
      settled = settle-IsSettled hd.phase (entered n hd m);
    }

metered_advance_lem :
    (answer : Request → DoResult) (s : State) (m : Metered) (s₂ : State) (hd : Handler)
    → s ≡ s₂
    → m.handler ≡ hd
    → StepOf answer s m s₂ hd
metered_advance_lem answer s m s₂ hd es eh =
    subst (λ x. StepOf answer s m x hd) es
      (subst (λ x. StepOf answer s m s x) eh (step_lem answer s m))

-- A run of the metered handler, beside the run of the plain one
record RunOf (answers : List (Request → DoResult)) (s : State) (m : Metered) (s₂ : State)
    (hd : Handler) : Type 0 where
  state : (metered_drive answers s m).0 ≡ (drive answers s₂ hd).0
  handler : (metered_drive answers s m).1.handler ≡ (drive answers s₂ hd).1
  grown :
      total (metered_drive answers s m).1 + about_to_send hd.phase
      ≡ total m + sends answers s₂ hd + about_to_send (drive answers s₂ hd).1.phase
  raised : (base : ℕ) → IsRaised base m → IsRaised base (metered_drive answers s m).1
  settled :
      IsSettled hd.phase m.deferred
      → IsSettled (drive answers s₂ hd).1.phase (metered_drive answers s m).1.deferred

metered_drive_lem :
    (answers : List (Request → DoResult)) (s : State) (m : Metered) (s₂ : State) (hd : Handler)
    → s ≡ s₂
    → m.handler ≡ hd
    → RunOf answers s m s₂ hd
unfolding metered_drive drive sends
metered_drive_lem [] s m s₂ hd es eh = record {
  state = es;
  handler = eh;
  grown = omega arith;
  raised = λ base raised. raised;
  settled = λ settled. settled;
}
metered_drive_lem (answer ∷ answers) s m s₂ hd es eh =
    let one = metered_advance_lem answer s m s₂ hd es eh in
    let rest =
      metered_drive_lem answers (metered_advance answer s m).0 (metered_advance answer s m).1
        (advance answer s₂ hd).0 (advance answer s₂ hd).1 one.state one.handler in
    record {
      state = rest.state;
      handler = rest.handler;
      grown = let a = one.grown in let b = rest.grown in omega arith;
      raised = λ base raised. rest.raised base (one.raised base raised);
      settled = λ settled. rest.settled one.settled;
    }

abbrev pub unmetered : Meters → Handler → Metered
unmetered meters hd = record { handler = hd; meters = meters; deferred = 0 }

ended_lem :
    (p : Phase) (deferred : ℕ)
    → (o : Outcome) × (p ≡ finished o)
    → IsSettled p deferred
    → deferred ≡ 0
ended_lem (finished o) deferred ended settled = settled
ended_lem choosing deferred (o, e) settled = ground (arith, e)
ended_lem (assigning r) deferred (o, e) settled = ground (arith, e)
ended_lem (sending r) deferred (o, e) settled = ground (arith, e)
ended_lem (releasing r sent) deferred (o, e) settled = ground (arith, e)
ended_lem (judging r sent) deferred (o, e) settled = ground (arith, e)

-- When backendHandler has ended, however the network answered, the metrics have not changed what
-- it did, RequestsNow is what it was before the request, and Requests has grown by the number of
-- times that the request was sent to a backend.
pub metered_drive-ended :
    (answers : List (Request → DoResult)) (s : State) (meters : Meters) (w : ResponseWriter)
    (req : Request) (o : Outcome)
    → (drive answers s (backend_handler w req)).1.phase ≡ finished o
    → ((metered_drive answers s (unmetered meters (backend_handler w req))).0
        ≡ (drive answers s (backend_handler w req)).0)
      × ((metered_drive answers s (unmetered meters (backend_handler w req))).1.handler
          ≡ (drive answers s (backend_handler w req)).1)
      × ((metered_drive answers s (unmetered meters (backend_handler w req))).1.meters.requests_now
          ≡ meters.requests_now)
      × ((metered_drive answers s (unmetered meters (backend_handler w req))).1.meters.requests
          ≡ meters.requests + sends answers s (backend_handler w req))
metered_drive-ended answers s meters w req o ended =
    let hd = backend_handler w req in
    let m = unmetered meters hd in
    let run = metered_drive_lem answers s m s hd refl refl in
    let last = (drive answers s hd).1.phase in
    let none_left =
      ended_lem last (metered_drive answers s m).1.deferred (o, ended) (run.settled tt) in
    let up = run.raised meters.requests_now (omega arith) in
    let grown = run.grown in
    let idle : about_to_send last ≡ 0 = ap about_to_send ended in
    (run.state, run.handler, omega arith, omega arith)
