-- ===== src/Lb/Handler/Livelock.antt =====
-- lb/lbHandlers.go, backendHandler: the loop while every alive server is full.
use mathlib.Core.Path.{fun_ext}
use bduts.Prelude.{
  ℕ, ◌≤◌, ◌≡◌, refl, ap, true, false, List, [], ◌∷◌, Option, none, some, arith, All,
}
use bduts.Prelude.Go.{Go, ret, panic}
use bduts.Http.{Request, ResponseWriter}
use bduts.Backend.{Backend, DoResult, assign_request}
use bduts.ServerPool.{Heap, ServerPool, store, update, alive_at, get_next_peer}
use bduts.ServerPool.Current.{IsSane}
use bduts.ServerPool.RoundRobin.{get_next_peer-find, get_next_peer-AllDown_iff}
use bduts.ServerPool.Steps.{State}
use bduts.Lb.Handler.{
  Phase, choosing, assigning, sending, releasing, judging, finished, Handler, choose, assign,
  dispatch, advance, drive, backend_handler,
}
use bduts.Lb.Handler.Effects.{queued_at, chosen_of_All}
use bduts.Lb.Handler.Quiet.{In, All-In, cap_at, is_finished, chosen_alive}

-- A server that is alive has no free place.
abbrev pub FullIfAlive : State → ℕ → Type 0
FullIfAlive s r = alive_at s.heap r ≡ true → cap_at s r ≤ queued_at s r

abbrev Waits : State → Phase → Type 0
Waits s choosing = Unit {0}
Waits s (assigning r) = cap_at s r ≤ queued_at s r
Waits s _ = ⊥

record Spins (s : State) (hd : Handler) : Type 0 where
  sane : IsSane s.pool
  full : All (FullIfAlive s) s.pool.servers
  up : (r : ℕ) × In r s.pool.servers × (alive_at s.heap r ≡ true)
  waits : Waits s hd.phase

store_self : (h : Heap) (r : ℕ) → store h r (h.cell r) ≡ h
store_self h r = ap (λ (c : ℕ → Backend). record h { cell = c }) (fun_ext λ q. update_self h.cell q)
  where
    update_self : (f : ℕ → Backend) (q : ℕ) → update f r (f r) q ≡ f q
    update_self f q = ground arith

assign_full :
    (b : Backend) → b.request_chan.cap ≤ b.request_chan.queued → assign_request b ≡ (b, false)
unfolding assign_request
assign_full b h = ground arith

choose-Spins :
    (g : Go (ServerPool × Option ℕ)) (s : State) (hd : Handler)
    → get_next_peer s.heap s.pool ≡ g
    → Spins s hd
    → Spins (choose g s hd).0 (choose g s hd).1
unfolding choose
choose-Spins panic s hd e v =
    let (q, found, c) = get_next_peer-find s.heap s.pool v.sane in cc (found, e)
choose-Spins (ret (p', none)) s hd e v =
    let (r, i, a) = v.up in
    let down = (get_next_peer-AllDown_iff s.heap s.pool v.sane).0 (p', e) in
    cc (All-In (λ q. alive_at s.heap q ≡ false) s.pool.servers r down i, a)
choose-Spins (ret (p', some r)) s hd e v =
    let (q, found, c) = get_next_peer-find s.heap s.pool v.sane in
    let same : q ≡ p' = ground (arith, found, e) in
    let servers : p'.servers ≡ s.pool.servers = rw (← same) c.same in
    record {
      sane = rw (← same) c.sane;
      full = rw servers v.full;
      up = rw servers v.up;
      waits =
          chosen_of_All (FullIfAlive s) s.heap s.pool p' r v.sane v.full e
            (chosen_alive s.heap s.pool p' r v.sane e);
    }

assign-Spins :
    (q : ℕ) (s : State) (hd : Handler)
    → cap_at s q ≤ queued_at s q
    → Spins s hd
    → Spins (assign q s hd).0 (assign q s hd).1
unfolding assign
assign-Spins q s hd h v =
    rw (assign_full (s.heap.cell q) h, store_self s.heap q)
      (record { sane = v.sane; full = v.full; up = v.up; waits = tt })

dispatch-Spins :
    (do_request : Request → DoResult) (s : State) (hd : Handler) (p : Phase)
    → Waits s p
    → Spins s hd
    → Spins (dispatch do_request p s hd).0 (dispatch do_request p s hd).1
unfolding dispatch
dispatch-Spins do_request s hd choosing w v = choose-Spins _ s hd refl v
dispatch-Spins do_request s hd (assigning r) w v = assign-Spins r s hd w v
dispatch-Spins do_request s hd (sending r) w v = absurd w
dispatch-Spins do_request s hd (releasing r sent) w v = absurd w
dispatch-Spins do_request s hd (judging r sent) w v = absurd w
dispatch-Spins do_request s hd (finished o) w v = absurd w

Waits-unfinished : (s : State) (p : Phase) → Waits s p → is_finished p ≡ false
Waits-unfinished s choosing w = refl
Waits-unfinished s (assigning r) w = refl
Waits-unfinished s _ w = absurd w

drive-Spins :
    (answers : List (Request → DoResult)) (s : State) (hd : Handler)
    → Spins s hd
    → is_finished (drive answers s hd).1.phase ≡ false
unfolding drive advance
drive-Spins [] s hd v = Waits-unfinished s hd.phase v.waits
drive-Spins (answer ∷ answers) s hd v =
    drive-Spins answers (advance answer s hd).0 (advance answer s hd).1
      (dispatch-Spins answer s hd hd.phase v.waits v)

-- If a server of a sane pool is alive, all alive ones are full and no other goroutine comes in
-- between, backendHandler does not end, however many steps it makes: the client gets no answer.
pub backend_handler_spins :
    (answers : List (Request → DoResult)) (s : State) (rw : ResponseWriter) (req : Request) (r : ℕ)
    → IsSane s.pool
    → In r s.pool.servers
    → alive_at s.heap r ≡ true
    → All (FullIfAlive s) s.pool.servers
    → is_finished (drive answers s (backend_handler rw req)).1.phase ≡ false
backend_handler_spins answers s rw req r sane i a full =
    drive-Spins answers s (backend_handler rw req)
      (record { sane = sane; full = full; up = (r, i, a); waits = tt })
