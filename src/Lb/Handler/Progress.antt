-- ===== src/Lb/Handler/Progress.antt =====
-- lb/lbHandlers.go, backendHandler on its own: when its loop ends, and when it cannot.
use bduts.Prelude.{
  ℕ, ◌+◌, ◌*◌, ◌≤◌, ◌<◌, ◌≡◌, refl, ◌⊎◌, inl, inr, false, List, [], ◌∷◌, arith, length, All,
}
use bduts.Http.{Request, ResponseWriter, eof}
use bduts.Backend.{DoResult, other_error}
use bduts.ServerPool.Current.{IsSane}
use bduts.ServerPool.Steps.{State}
use bduts.Lb.Handler.{
  Outcome, Phase, choosing, assigning, sending, releasing, judging, finished, Handler, dispatch,
  advance, drive, backend_handler,
}
use bduts.Lb.Handler.Effects.{queued_at}
use bduts.Lb.Handler.Quiet.{cap_at, alive_count, budget, is_finished, Quiet}
use bduts.Lb.Handler.Quiet.Steps.{advance-Quiet}

advance-finished :
    (do_request : Request → DoResult) (s : State) (hd : Handler) (o : Outcome)
    → hd.phase ≡ finished o
    → advance do_request s hd ≡ (s, hd)
unfolding advance dispatch
advance-finished do_request s hd o e = rw (e, dispatch) refl

finished-cases : (p : Phase) → ((o : Outcome) × (p ≡ finished o)) ⊎ (is_finished p ≡ false)
finished-cases choosing = inr refl
finished-cases (assigning r) = inr refl
finished-cases (sending r) = inr refl
finished-cases (releasing r sent) = inr refl
finished-cases (judging r sent) = inr refl
finished-cases (finished o) = inl (o, refl)

drive-finished :
    (answers : List (Request → DoResult)) (s : State) (hd : Handler) (o : Outcome)
    → hd.phase ≡ finished o
    → drive answers s hd ≡ (s, hd)
unfolding drive
drive-finished [] s hd o e = refl
drive-finished (answer ∷ answers) s hd o e =
    rw (advance-finished answer s hd o e) (drive-finished answers s hd o e)

drive_ends :
    (answers : List (Request → DoResult)) (s : State) (hd : Handler)
    → Quiet s hd
    → budget (alive_count s) hd.phase ≤ length answers
    → (o : Outcome) × ((drive answers s hd).1.phase ≡ finished o)
unfolding drive
drive_ends [] s hd v k = elim (finished-cases hd.phase) [
  | inl done ↦ done
  | inr more ↦ absurd (omega (arith, (advance-Quiet (λ r. other_error eof) s hd more v).1))
]
drive_ends (answer ∷ answers) s hd v k = elim (finished-cases hd.phase) [
  | inl (o, e) ↦ (o, rw (drive-finished (answer ∷ answers) s hd o e) e)
  | inr more ↦
      let (quiet, less) = advance-Quiet answer s hd more v in
      drive_ends answers (advance answer s hd).0 (advance answer s hd).1 quiet (omega arith)
]

room_at_first :
    (s : State) (xs : List ℕ)
    → All (λ r. queued_at s r < cap_at s r) xs
    → All (λ r. queued_at s r < cap_at s r + 0) xs
room_at_first s [] a = tt
room_at_first s (x ∷ xs) (a, rest) = (omega arith, room_at_first s xs rest)

-- If the pool is sane, every server of it has a free place and no other goroutine comes in
-- between, the loop of backendHandler ends, whatever the network answers: five steps for each
-- alive server and one more are enough.
pub backend_handler_ends :
    (answers : List (Request → DoResult)) (s : State) (rw : ResponseWriter) (req : Request)
    → IsSane s.pool
    → All (λ r. queued_at s r < cap_at s r) s.pool.servers
    → 5 * alive_count s + 1 ≤ length answers
    → (o : Outcome) × ((drive answers s (backend_handler rw req)).1.phase ≡ finished o)
backend_handler_ends answers s rw req sane room k =
    drive_ends answers s (backend_handler rw req)
      (record {
        sane = sane;
        room = room_at_first s s.pool.servers room;
        own = λ r. omega arith;
        live = tt;
      })
      k
