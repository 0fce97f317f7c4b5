-- ===== src/Lb/Handler/Effects.antt =====
-- lb/lbHandlers.go, one step of backendHandler: what it does to the places in the channels, to the
-- shared state, and which server it may name next.
use bduts.Prelude.{
  ℕ, zero, suc, ◌+◌, ◌≤◌, ◌<◌, ◌≡◌, refl, ◌⊎◌, inl, inr, String, Bool, false, List, [], ◌∷◌, Option,
  none, some, arith, find?, Bool-cases, All, ◌==◌, if◌then◌else◌,
}
use bduts.Prelude.Int.{ℤ, pos, negsuc}
use bduts.Prelude.Go.{Go, ret, panic, index}
use bduts.Http.{Request, Response, ResponseWriter}
use bduts.Backend.{DoResult, assign_request, free, set_alive, is_canceled, write_body_and_return}
use bduts.ServerPool.{Heap, ServerPool, get_next_peer, get_current_server, alive_at}
use bduts.ServerPool.Current.{IsSane}
use bduts.ServerPool.RoundRobin.{rotation, get_next_peer-find}
use bduts.ServerPool.Steps.{State, IsValid, Step, chooses, marks, assigns, frees, Step-IsValid}
use bduts.Lb.Handler.{
  Sent, Phase, choosing, assigning, sending, releasing, judging, finished, Handler, choose, assign,
  send, release, judge, answered, dispatch,
}

-- Whether a phase holds a place in the channel of `r`.
abbrev pub holds : ℕ → Phase → Bool
holds r (sending q) = q == r
holds r (releasing q _) = q == r
holds r _ = false

abbrev pub held : ℕ → Handler → ℕ
held r hd = if holds r hd.phase then 1 else 0

-- The server that a phase names was allocated.
abbrev pub Known : ℕ → Phase → Type 0
Known n choosing = Unit {0}
Known n (assigning r) = r < n
Known n (sending r) = r < n
Known n (releasing r _) = r < n
Known n (judging r _) = r < n
Known n (finished _) = Unit {0}

abbrev pub queued_at : State → ℕ → ℕ
queued_at s r = (s.heap.cell r).request_chan.queued

abbrev pub Balanced : ℕ → State → Handler → State × Handler → Type 0
Balanced r s hd (s', hd') = queued_at s' r + held r hd ≡ queued_at s r + held r hd'

choose-Balanced :
    (r : ℕ) (g : Go (ServerPool × Option ℕ)) (s : State) (hd : Handler)
    → hd.phase ≡ choosing
    → Balanced r s hd (choose g s hd)
unfolding choose
choose-Balanced r panic s hd e = rw e (omega arith)
choose-Balanced r (ret (p', none)) s hd e = rw e (omega arith)
choose-Balanced r (ret (p', some q)) s hd e = rw e (omega arith)

assign-Balanced :
    (r q : ℕ) (s : State) (hd : Handler) → hd.phase ≡ assigning q → Balanced r s hd (assign q s hd)
unfolding assign assign_request
assign-Balanced r q s hd e = rw e (ground arith)

release-Balanced :
    (r q : ℕ) (sent : Sent) (s : State) (hd : Handler)
    → hd.phase ≡ releasing q sent
    → held r hd ≤ queued_at s r
    → Balanced r s hd (release q sent s hd)
unfolding release free
release-Balanced r q sent s hd e k = ground arith

answered-held :
    (r q : ℕ) (resp : Response) (w : ResponseWriter × Option String) (hd : Handler)
    → held r (answered q resp w hd) ≡ 0
unfolding answered
answered-held r q resp (rw, none) hd = refl
answered-held r q resp (rw, some bytes) hd = refl

judge-Balanced :
    (r q : ℕ) (sent : Sent) (s : State) (hd : Handler)
    → hd.phase ≡ judging q sent
    → Balanced r s hd (judge q sent s hd)
unfolding judge set_alive
judge-Balanced r q (resp, some e) s hd eq = ground arith
judge-Balanced r q (none, none) s hd eq = ground arith
judge-Balanced r q (some resp, none) s hd eq =
    ground (arith, answered-held r q resp (write_body_and_return hd.writer resp) hd)

pub advance-Balanced :
    (r : ℕ) (do_request : Request → DoResult) (s : State) (hd : Handler) (p : Phase)
    → hd.phase ≡ p
    → held r hd ≤ queued_at s r
    → Balanced r s hd (dispatch do_request p s hd)
unfolding dispatch send
advance-Balanced r do_request s hd choosing e k = choose-Balanced r _ s hd e
advance-Balanced r do_request s hd (assigning q) e k = assign-Balanced r q s hd e
advance-Balanced r do_request s hd (sending q) e k = rw e refl
advance-Balanced r do_request s hd (releasing q sent) e k = release-Balanced r q sent s hd e k
advance-Balanced r do_request s hd (judging q sent) e k = judge-Balanced r q sent s hd e
advance-Balanced r do_request s hd (finished o) e k = refl

-- What a handler's step does to the shared state is one of the pool's steps, or nothing.
abbrev pub Moves : State → State → Type 0
Moves s t = Step s t ⊎ (t ≡ s)

choose-Moves :
    (g : Go (ServerPool × Option ℕ)) (s : State) (hd : Handler)
    → get_next_peer s.heap s.pool ≡ g
    → Moves s (choose g s hd).0
unfolding choose
choose-Moves panic s hd e = inr refl
choose-Moves (ret (p', none)) s hd e = inl (chooses p' none e)
choose-Moves (ret (p', some r)) s hd e = inl (chooses p' (some r) e)

judge-Moves : (q : ℕ) (sent : Sent) (s : State) (hd : Handler) → Moves s (judge q sent s hd).0
unfolding judge
judge-Moves q (resp, some e) s hd = elim (Bool-cases (is_canceled e)) [
  | inl gone ↦ rw (gone, judge) (inr refl)
  | inr down ↦ rw (down, judge) (inl (marks q false))
]
judge-Moves q (none, none) s hd = inr refl
judge-Moves q (some resp, none) s hd = inr refl

pub dispatch-Moves :
    (do_request : Request → DoResult) (s : State) (hd : Handler) (p : Phase)
    → Moves s (dispatch do_request p s hd).0
unfolding dispatch assign send release
dispatch-Moves do_request s hd choosing = choose-Moves _ s hd refl
dispatch-Moves do_request s hd (assigning q) = inl (assigns q)
dispatch-Moves do_request s hd (sending q) = inr refl
dispatch-Moves do_request s hd (releasing q sent) = inl (frees q)
dispatch-Moves do_request s hd (judging q sent) = judge-Moves q sent s hd
dispatch-Moves do_request s hd (finished o) = inr refl

pub Moves-IsValid : {s t : State} → Moves s t → IsValid s → IsValid t
Moves-IsValid (inl st) v = Step-IsValid st v
Moves-IsValid (inr same) v = rw same v

-- A step allocates nothing.
choose-next :
    (g : Go (ServerPool × Option ℕ)) (s : State) (hd : Handler)
    → (choose g s hd).0.heap.next ≡ s.heap.next
unfolding choose
choose-next panic s hd = refl
choose-next (ret (p', none)) s hd = refl
choose-next (ret (p', some r)) s hd = refl

judge-next :
    (q : ℕ) (sent : Sent) (s : State) (hd : Handler) → (judge q sent s hd).0.heap.next ≡ s.heap.next
unfolding judge
judge-next q (resp, some e) s hd = ground arith
judge-next q (none, none) s hd = refl
judge-next q (some resp, none) s hd = refl

pub dispatch-next :
    (do_request : Request → DoResult) (s : State) (hd : Handler) (p : Phase)
    → (dispatch do_request p s hd).0.heap.next ≡ s.heap.next
unfolding dispatch send assign release
dispatch-next do_request s hd choosing = choose-next _ s hd
dispatch-next do_request s hd (assigning q) = refl
dispatch-next do_request s hd (sending q) = refl
dispatch-next do_request s hd (releasing q sent) = refl
dispatch-next do_request s hd (judging q sent) = judge-next q sent s hd
dispatch-next do_request s hd (finished o) = refl

-- The server that GetNextPeer returns is one of the pool.
All-index : (P : ℕ → Type 0) (xs : List ℕ) (i : ℤ) (r : ℕ) → All P xs → index xs i ≡ ret r → P r
All-index P xs (negsuc i) r a e = cc
All-index P [] (pos i) r a e = cc
All-index P (x ∷ xs) (pos zero) r a e = let same : x ≡ r = ground arith in rw (← same) a.0
All-index P (x ∷ xs) (pos (suc i)) r a e = All-index P xs (pos i) r a.1 e

pub chosen_of_All :
    (P : ℕ → Type 0) (h : Heap) (p p' : ServerPool) (r : ℕ)
    → IsSane p
    → All P p.servers
    → get_next_peer h p ≡ ret (p', some r)
    → P r
unfolding get_current_server
chosen_of_All P h p p' r s a e =
    let (q, found, c) = get_next_peer-find h p s in
    let same : find? (alive_at h) (rotation p) ≡ some r = ground (arith, found, e) in
    All-index P q.servers q.current r (rw c.same a) (c.pointed r same)

choose-Known :
    (g : Go (ServerPool × Option ℕ)) (s : State) (hd : Handler)
    → IsValid s
    → get_next_peer s.heap s.pool ≡ g
    → Known s.heap.next (choose g s hd).1.phase
unfolding choose
choose-Known panic s hd v e = tt
choose-Known (ret (p', none)) s hd v e = tt
choose-Known (ret (p', some r)) s hd v e =
    chosen_of_All (λ q. q < s.heap.next) s.heap s.pool p' r v.sane v.allocated e

answered-Known :
    (n q : ℕ) (resp : Response) (w : ResponseWriter × Option String) (hd : Handler)
    → Known n (answered q resp w hd).phase
unfolding answered
answered-Known n q resp (rw, none) hd = tt
answered-Known n q resp (rw, some bytes) hd = tt

judge-Known :
    (n q : ℕ) (sent : Sent) (s : State) (hd : Handler) → Known n (judge q sent s hd).1.phase
unfolding judge
judge-Known n q (resp, some e) s hd = ground arith
judge-Known n q (none, none) s hd = tt
judge-Known n q (some resp, none) s hd =
    answered-Known n q resp (write_body_and_return hd.writer resp) hd

pub dispatch-Known :
    (do_request : Request → DoResult) (s : State) (hd : Handler) (p : Phase)
    → IsValid s
    → Known s.heap.next p
    → hd.phase ≡ p
    → Known s.heap.next (dispatch do_request p s hd).1.phase
unfolding dispatch send assign release
dispatch-Known do_request s hd choosing v k e = choose-Known _ s hd v refl
dispatch-Known do_request s hd (assigning q) v k e = ground arith
dispatch-Known do_request s hd (sending q) v k e = k
dispatch-Known do_request s hd (releasing q sent) v k e = k
dispatch-Known do_request s hd (judging q sent) v k e = judge-Known s.heap.next q sent s hd
dispatch-Known do_request s hd (finished o) v k e = rw e tt
