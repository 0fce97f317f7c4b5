-- ===== src/Lb/Handler/Quiet/Steps.antt =====
-- lb/lbHandlers.go, backendHandler on its own: one step while no channel is full takes it nearer to
-- its end.
use bduts.Prelude.{
  ℕ, ◌+◌, ◌<◌, ◌≡◌, refl, ◌∙◌, inl, inr, String, false, List, [], ◌∷◌, Option, none, some, arith,
  Bool-cases, All,
}
use bduts.Prelude.Go.{Go, ret, panic}
use bduts.Http.{Request, Response, ResponseWriter}
use bduts.Backend.{
  Backend, DoResult, assign_request, free, set_alive, is_canceled, write_body_and_return,
}
use bduts.ServerPool.{ServerPool, get_next_peer}
use bduts.ServerPool.Current.{IsSane}
use bduts.ServerPool.RoundRobin.{get_next_peer-find}
use bduts.ServerPool.Steps.{State}
use bduts.Lb.Handler.{
  Sent, Outcome, Phase, choosing, assigning, sending, releasing, judging, finished, Handler, choose,
  assign, send, release, judge, answered, dispatch, advance,
}
use bduts.Lb.Handler.Effects.{held, queued_at, chosen_of_All, advance-Balanced}
use bduts.Lb.Handler.Quiet.{
  In, cap_at, alive_count, Live, budget, Quiet, alive_count-pos, marked-lt, Nearer, In-All,
  chosen_alive, All-In, is_finished,
}
use bduts.Lb.Handler.Quiet.Places.{
  alive-store, count-store, cap-store, free_alive, free_cap, assign_alive, assign_cap, assign_room,
}

choose-Nearer :
    (g : Go (ServerPool × Option ℕ)) (s : State) (hd : Handler)
    → IsSane s.pool
    → get_next_peer s.heap s.pool ≡ g
    → Nearer s choosing (choose g s hd)
unfolding choose
choose-Nearer panic s hd sane e = record {
  sane = sane;
  servers = refl;
  caps = λ r. refl;
  live = tt;
  less = omega arith;
}
choose-Nearer (ret (p', none)) s hd sane e =
    let (q, found, c) = get_next_peer-find s.heap s.pool sane in
    let same : q ≡ p' = ground (arith, found, e) in
    record {
      sane = rw (← same) c.sane;
      servers = rw (← same) c.same;
      caps = λ r. refl;
      live = tt;
      less = omega arith;
    }
choose-Nearer (ret (p', some r)) s hd sane e =
    let (q, found, c) = get_next_peer-find s.heap s.pool sane in
    let same : q ≡ p' = ground (arith, found, e) in
    let servers : p'.servers ≡ s.pool.servers = rw (← same) c.same in
    record {
      sane = rw (← same) c.sane;
      servers = servers;
      caps = λ r. refl;
      live = (
        rw servers (
            chosen_of_All (λ q. In q s.pool.servers) s.heap s.pool p' r sane (In-All s.pool.servers)
              e),
        chosen_alive s.heap s.pool p' r sane e,
      );
      less = rw servers (omega arith);
    }

assign-Nearer :
    (q : ℕ) (s : State) (hd : Handler)
    → hd.phase ≡ assigning q
    → Quiet s hd
    → Live s (assigning q)
    → Nearer s (assigning q) (assign q s hd)
unfolding assign
assign-Nearer q s hd e v (i, a) =
    let b = s.heap.cell q in
    let room : queued_at s q < cap_at s q + held q hd = All-In _ s.pool.servers q v.room i in
    let none_held : held q hd ≡ 0 = rw e refl in
    let ok = assign_room b (omega arith) in
    let same = count-store s.heap q (assign_request b).0 s.pool.servers (assign_alive b) in
    let some_alive = alive_count-pos s.heap s.pool.servers q i a in
    record {
      sane = v.sane;
      servers = refl;
      caps = cap-store s q (assign_request b).0 (assign_cap b);
      live = rw ok (i, alive-store s.heap q (assign_request b).0 (assign_alive b) q ∙ a);
      less = rw (ok, same) (omega arith);
    }

release-Nearer :
    (q : ℕ) (sent : Sent) (s : State) (hd : Handler)
    → IsSane s.pool
    → Live s (releasing q sent)
    → Nearer s (releasing q sent) (release q sent s hd)
unfolding release
release-Nearer q sent s hd sane (i, a) =
    let b = s.heap.cell q in
    let same = count-store s.heap q (free b).0 s.pool.servers (free_alive b) in
    let some_alive = alive_count-pos s.heap s.pool.servers q i a in
    record {
      sane = sane;
      servers = refl;
      caps = cap-store s q (free b).0 (free_cap b);
      live = (i, alive-store s.heap q (free b).0 (free_alive b) q ∙ a);
      less = rw same (omega arith);
    }

marked_cap : (b : Backend) → (set_alive false b).request_chan.cap ≡ b.request_chan.cap
unfolding set_alive
marked_cap b = refl

answered-finished :
    (q : ℕ) (resp : Response) (w : ResponseWriter × Option String) (hd : Handler)
    → (o : Outcome) × ((answered q resp w hd).phase ≡ finished o)
unfolding answered
answered-finished q resp (rw, none) hd = (_, refl)
answered-finished q resp (rw, some bytes) hd = (_, refl)

judge-Nearer :
    (q : ℕ) (sent : Sent) (s : State) (hd : Handler)
    → IsSane s.pool
    → Live s (judging q sent)
    → Nearer s (judging q sent) (judge q sent s hd)
unfolding judge
judge-Nearer q (resp, some e) s hd sane (i, a) = elim (Bool-cases (is_canceled e)) [
  | inl gone ↦
      let some_alive = alive_count-pos s.heap s.pool.servers q i a in
      rw (gone, judge)
        (record { sane = sane; servers = refl; caps = λ r. refl; live = tt; less = omega arith })
  | inr down ↦
      let some_alive = alive_count-pos s.heap s.pool.servers q i a in
      let fewer = marked-lt s.heap s.pool.servers q i a in
      rw (down, judge)
        (record {
          sane = sane;
          servers = refl;
          caps = cap-store s q (set_alive false (s.heap.cell q)) (marked_cap (s.heap.cell q));
          live = tt;
          less = omega arith;
        })
]
judge-Nearer q (none, none) s hd sane (i, a) =
    let some_alive = alive_count-pos s.heap s.pool.servers q i a in
    record { sane = sane; servers = refl; caps = λ r. refl; live = tt; less = omega arith }
judge-Nearer q (some resp, none) s hd sane (i, a) =
    let some_alive = alive_count-pos s.heap s.pool.servers q i a in
    let (o, e) = answered-finished q resp (write_body_and_return hd.writer resp) hd in
    record {
      sane = sane;
      servers = refl;
      caps = λ r. refl;
      live = rw e tt;
      less = rw e (omega arith);
    }

send-Nearer :
    (do_request : Request → DoResult) (q : ℕ) (s : State) (hd : Handler)
    → IsSane s.pool
    → Live s (sending q)
    → Nearer s (sending q) (send do_request q s hd)
unfolding send
send-Nearer do_request q s hd sane (i, a) =
    let some_alive = alive_count-pos s.heap s.pool.servers q i a in
    record { sane = sane; servers = refl; caps = λ r. refl; live = (i, a); less = omega arith }

dispatch-Nearer :
    (do_request : Request → DoResult) (s : State) (hd : Handler) (p : Phase)
    → is_finished p ≡ false
    → hd.phase ≡ p
    → Quiet s hd
    → Live s p
    → Nearer s p (dispatch do_request p s hd)
unfolding dispatch
dispatch-Nearer do_request s hd choosing n e v l = choose-Nearer _ s hd v.sane refl
dispatch-Nearer do_request s hd (assigning q) n e v l = assign-Nearer q s hd e v l
dispatch-Nearer do_request s hd (sending q) n e v l = send-Nearer do_request q s hd v.sane l
dispatch-Nearer do_request s hd (releasing q sent) n e v l = release-Nearer q sent s hd v.sane l
dispatch-Nearer do_request s hd (judging q sent) n e v l = judge-Nearer q sent s hd v.sane l
dispatch-Nearer do_request s hd (finished o) n e v l = cc

room-step :
    (s t : State) (hd hd' : Handler) (xs : List ℕ)
    → ((r : ℕ) → queued_at t r + held r hd ≡ queued_at s r + held r hd')
    → ((r : ℕ) → cap_at t r ≡ cap_at s r)
    → All (λ r. queued_at s r < cap_at s r + held r hd) xs
    → All (λ r. queued_at t r < cap_at t r + held r hd') xs
room-step s t hd hd' [] b c a = tt
room-step s t hd hd' (x ∷ xs) b c (a, rest) =
    (omega (arith, b x, c x), room-step s t hd hd' xs b c rest)

-- A step of a quiet handler that has not finished leaves it quiet, with less of its budget.
pub advance-Quiet :
    (do_request : Request → DoResult) (s : State) (hd : Handler)
    → is_finished hd.phase ≡ false
    → Quiet s hd
    → let (t, hd') = advance do_request s hd in
      Quiet t hd' × (budget (alive_count t) hd'.phase < budget (alive_count s) hd.phase)
unfolding advance
advance-Quiet do_request s hd n v =
    let near = dispatch-Nearer do_request s hd hd.phase n refl v v.live in
    let t = (dispatch do_request hd.phase s hd).0 in
    let hd' = (dispatch do_request hd.phase s hd).1 in
    let b = λ (r : ℕ). advance-Balanced r do_request s hd hd.phase refl (v.own r) in
    (
      record {
        sane = near.sane;
        room = rw near.servers (room-step s t hd hd' s.pool.servers b near.caps v.room);
        own = λ r. omega (arith, b r, v.own r);
        live = near.live;
      },
      near.less,
    )
