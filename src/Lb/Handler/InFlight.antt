-- ===== src/Lb/Handler/InFlight.antt =====
-- lb/lbHandlers.go with backend/backend.go: any number of balanced requests at once, together with
-- health checks and the admin's changes of the pool, and the places that they hold in the channels.
use bduts.Prelude.{
  ℕ, suc, ◌+◌, ◌≤◌, ◌<◌, ◌≡◌, refl, ap, String, Bool, true, List, [], ◌∷◌, ◌++◌, arith, length,
  ℕ_discrete, ◌∙◌, All, All-append, All-split,
}
use bduts.Prelude.Int.{half32}
use bduts.Http.{Request, ResponseWriter}
use bduts.Backend.{Backend, DoResult, free, set_alive, maximal_requests}
use bduts.ServerPool.{add_server, remove_server_by_url}
use bduts.ServerPool.Steps.{State, IsValid, adds, removes, marks, Step-IsValid}
use bduts.Lb.Handler.{
  Sent, Phase, choosing, assigning, sending, releasing, judging, finished, Handler, dispatch,
  advance, backend_handler, on_heap,
}
use bduts.Lb.Handler.Effects.{
  held, Known, queued_at, advance-Balanced, dispatch-Moves, dispatch-next, dispatch-Known,
  Moves-IsValid,
}

-- The requests that are being processed on `r`.
abbrev pub in_flight : ℕ → List Handler → ℕ
in_flight r [] = 0
in_flight r (hd ∷ hds) = held r hd + in_flight r hds

pub record System : Type 0 where
  pub state : State
  pub handlers : List Handler

pub data Event : System → System → Type 0 where
  arrives :
      {y : System} (rw : ResponseWriter) (req : Request)
      → Event y (record y { handlers = backend_handler rw req ∷ y.handlers })
  advances :
      {y : System} (do_request : Request → DoResult) (before : List Handler) (hd : Handler)
      (later : List Handler)
      → y.handlers ≡ before ++ hd ∷ later
      → Event y (record {
        state = (advance do_request y.state hd).0;
        handlers = before ++ (advance do_request y.state hd).1 ∷ later;
      })
  checked :
      {y : System} (r : ℕ) (alive : Bool)
      → Event y (record y { state = on_heap y.state r (set_alive alive (y.state.heap.cell r)) })
  added :
      {y : System} (b : Backend)
      → b.request_chan.queued ≡ 0
      → length y.state.pool.servers + 1 < half32
      → Event y (record y {
        state = record {
          heap = (add_server b y.state.heap y.state.pool).0;
          pool = (add_server b y.state.heap y.state.pool).1;
        };
      })
  removed :
      {y : System} (url : String)
      → Event y (record y {
        state = record y.state { pool = (remove_server_by_url url y.state.heap y.state.pool).0 };
      })

pub data Runs (y : System) : System → Type 0 where
  start : Runs y y
  next : {x z : System} → Runs y x → Event x z → Runs y z

-- Every place in a channel belongs to one running request.
pub record IsAccounted (y : System) : Type 0 where
  pub valid : IsValid y.state
  pub known : All (λ hd. Known y.state.heap.next hd.phase) y.handlers
  pub counted : (r : ℕ) → queued_at y.state r ≡ in_flight r y.handlers

in_flight-append :
    (r : ℕ) (xs ys : List Handler) → in_flight r (xs ++ ys) ≡ in_flight r xs + in_flight r ys
in_flight-append r [] ys = omega arith
in_flight-append r (x ∷ xs) ys = omega (arith, in_flight-append r xs ys)

in_flight_middle :
    (r : ℕ) (xs ys : List Handler) (hd : Handler)
    → in_flight r (xs ++ hd ∷ ys) ≡ in_flight r xs + held r hd + in_flight r ys
in_flight_middle r xs ys hd = omega (arith, in_flight-append r xs (hd ∷ ys))

advance-IsAccounted :
    (y : System) (do_request : Request → DoResult) (before : List Handler) (hd : Handler)
    (later : List Handler)
    → y.handlers ≡ before ++ hd ∷ later
    → IsAccounted y
    → IsAccounted (record {
      state = (advance do_request y.state hd).0;
      handlers = before ++ (advance do_request y.state hd).1 ∷ later;
    })
unfolding advance
advance-IsAccounted y do_request before hd later e v =
    let s = y.state in
    let same = dispatch-next do_request s hd hd.phase in
    let ks = All-split _ before (hd ∷ later) (rw e at v.known) in
    let counts : (r : ℕ) → queued_at s r ≡ in_flight r before + held r hd + in_flight r later =
      λ r. v.counted r ∙ (rw e (in_flight_middle r before later hd)) in
    record {
      valid = Moves-IsValid (dispatch-Moves do_request s hd hd.phase) v.valid;
      known = rw same (
          All-append _ before _ ks.0
            (dispatch-Known do_request s hd hd.phase v.valid ks.1.0 refl, ks.1.1));
      counted = λ r.
          let b = advance-Balanced r do_request s hd hd.phase refl (omega (arith, counts r)) in
          omega (
            arith,
            counts r,
            b,
            in_flight_middle r before later (dispatch do_request hd.phase s hd).1,
          );
    }

Known-suc : (n : ℕ) (p : Phase) → Known n p → Known (suc n) p
Known-suc n choosing k = tt
Known-suc n (assigning r) k = omega arith
Known-suc n (sending r) k = omega arith
Known-suc n (releasing r _) k = omega arith
Known-suc n (judging r _) k = omega arith
Known-suc n (finished _) k = tt

Known-All-suc :
    (n : ℕ) (hds : List Handler)
    → All (λ hd. Known n hd.phase) hds
    → All (λ hd. Known (suc n) hd.phase) hds
Known-All-suc n [] k = tt
Known-All-suc n (hd ∷ hds) (k, ks) = (Known-suc n hd.phase k, Known-All-suc n hds ks)

fresh_held : (n : ℕ) (hd : Handler) (p : Phase) → hd.phase ≡ p → Known n p → held n hd ≡ 0
fresh_held n hd choosing e k = rw e refl
fresh_held n hd (assigning r) e k = rw e refl
fresh_held n hd (sending r) e k = ground arith
fresh_held n hd (releasing r _) e k = ground arith
fresh_held n hd (judging r _) e k = rw e refl
fresh_held n hd (finished _) e k = rw e refl

-- Nobody holds a place at a server that is not allocated yet.
fresh_in_flight :
    (n : ℕ) (hds : List Handler) → All (λ hd. Known n hd.phase) hds → in_flight n hds ≡ 0
fresh_in_flight n [] k = refl
fresh_in_flight n (hd ∷ hds) (k, ks) =
    let rest = fresh_in_flight n hds ks in let own = fresh_held n hd hd.phase refl k in omega arith

added-counted :
    (y : System) (b : Backend)
    → b.request_chan.queued ≡ 0
    → IsAccounted y
    → (r : ℕ)
    → ((add_server b y.state.heap y.state.pool).0.cell r).request_chan.queued
      ≡ in_flight r y.handlers
unfolding add_server
added-counted y b e v r =
    let fresh = fresh_in_flight y.state.heap.next y.handlers v.known in
    elim (ℕ_discrete y.state.heap.next r) [
      | yes hit ↦ ground (arith, ap (λ (k : ℕ). in_flight k y.handlers) hit)
      | no miss ↦ ground (arith, v.counted r)
    ]

marked-counted :
    (s : State) (q r : ℕ) (alive : Bool)
    → queued_at (on_heap s q (set_alive alive (s.heap.cell q))) r ≡ queued_at s r
unfolding set_alive
marked-counted s q r alive = ground arith

added-next :
    (y : System) (b : Backend)
    → (add_server b y.state.heap y.state.pool).0.next ≡ suc y.state.heap.next
unfolding add_server
added-next y b = refl

-- Every event keeps the account.
pub Event-IsAccounted : {y z : System} → Event y z → IsAccounted y → IsAccounted z
Event-IsAccounted {y} (arrives w req) v = record {
  valid = v.valid;
  known = (tt, v.known);
  counted = λ r. omega (arith, v.counted r);
}
Event-IsAccounted {y} (advances do_request before hd later e) v =
    advance-IsAccounted y do_request before hd later e v
Event-IsAccounted {y} (checked q alive) v = record {
  valid = Step-IsValid (marks q alive) v.valid;
  known = v.known;
  counted = λ r. marked-counted y.state q r alive ∙ v.counted r;
}
Event-IsAccounted {y} (added b e room) v = record {
  valid = Step-IsValid (adds b (rw e (omega arith)) room) v.valid;
  known = rw (added-next y b) (Known-All-suc y.state.heap.next y.handlers v.known);
  counted = added-counted y b e v;
}
Event-IsAccounted (removed url) v = record {
  valid = Step-IsValid (removes url) v.valid;
  known = v.known;
  counted = v.counted;
}

pub Runs-IsAccounted : {y z : System} → Runs y z → IsAccounted y → IsAccounted z
Runs-IsAccounted start v = v
Runs-IsAccounted (next r e) v = Event-IsAccounted e (Runs-IsAccounted r v)

-- However requests, health checks and changes of the pool interleave from an accounted system, the
-- channel of every backend holds exactly one item for each request that is being processed on it,
-- and so no backend processes more requests at once than its maximal number.
pub in_flight-bounded :
    {y z : System}
    → IsAccounted y
    → Runs y z
    → (r : ℕ)
    → (queued_at z.state r ≡ in_flight r z.handlers)
      × (in_flight r z.handlers ≤ maximal_requests (z.state.heap.cell r))
unfolding maximal_requests
in_flight-bounded v runs r =
    let w = Runs-IsAccounted runs v in (w.counted r, omega (arith, w.counted r, w.valid.fits r))

in_flight-pos :
    (r : ℕ) (hds : List Handler) (hd : Handler) (before later : List Handler)
    → hds ≡ before ++ hd ∷ later
    → held r hd ≤ in_flight r hds
in_flight-pos r hds hd before later e = rw e (omega (arith, in_flight_middle r before later hd))

-- In every system that is reached from an accounted one, a request that is about to give its place
-- back finds an item in the channel: server.Free after an answer frees, and does not take the
-- default branch.
free-releasing :
    {y z : System}
    → IsAccounted y
    → Runs y z
    → (before : List Handler) (hd : Handler) (later : List Handler) (r : ℕ) (sent : Sent)
    → z.handlers ≡ before ++ hd ∷ later
    → hd.phase ≡ releasing r sent
    → (free (z.state.heap.cell r)).1 ≡ true
unfolding free
free-releasing {z} v runs before hd later r sent e at =
    let w = Runs-IsAccounted runs v in
    let some_place = in_flight-pos r z.handlers hd before later e in
    ground (arith, some_place, w.counted r)
