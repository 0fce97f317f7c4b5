-- ===== src/ServerPool/Steps.antt =====
-- The pool under all its callers: admin handlers, health checks, balanced requests and their
-- releases, in any order, with the invariant that holds between them.
use bduts.Prelude.{
  ℕ, suc, ◌+◌, ◌≤◌, ◌<◌, ◌≡◌, ◌≢◌, ap, inl, inr, String, Bool, List, [], ◌∷◌, ◌++◌, Option, arith,
  length, length-append, All, All-append, All-split,
}
use bduts.Prelude.Int.{half32}
use bduts.Prelude.Go.{ret, panic}
use bduts.Backend.{Backend, assign_request, free, set_alive}
use bduts.ServerPool.{Heap, ServerPool, store, add_server, remove_server_by_url, get_next_peer}
use bduts.ServerPool.Current.{IsSane}
use bduts.ServerPool.RoundRobin.{get_next_peer-find}
use bduts.ServerPool.Membership.{Allocated, remove_server_by_url_lem}

pub record State : Type 0 where
  pub heap : Heap
  pub pool : ServerPool

-- No backend has more requests in flight than its channel holds.
abbrev pub Fits : Backend → Type 0
Fits b = b.request_chan.queued ≤ b.request_chan.cap

pub record IsValid (s : State) : Type 0 where
  pub sane : IsSane s.pool
  pub allocated : Allocated s.heap s.pool.servers
  pub fits : (r : ℕ) → Fits (s.heap.cell r)

-- One atomic step of some goroutine.
pub data Step : State → State → Type 0 where
  adds :
      {s : State} (b : Backend)
      → Fits b
      → length s.pool.servers + 1 < half32
      → Step s
          (record { heap = (add_server b s.heap s.pool).0; pool = (add_server b s.heap s.pool).1 })
  removes :
      {s : State} (url : String)
      → Step s (record s { pool = (remove_server_by_url url s.heap s.pool).0 })
  chooses :
      {s : State} (p' : ServerPool) (r : Option ℕ)
      → get_next_peer s.heap s.pool ≡ ret (p', r)
      → Step s (record s { pool = p' })
  marks :
      {s : State} (r : ℕ) (alive : Bool)
      → Step s (record s { heap = store s.heap r (set_alive alive (s.heap.cell r)) })
  assigns :
      {s : State} (r : ℕ)
      → Step s (record s { heap = store s.heap r (assign_request (s.heap.cell r)).0 })
  frees : {s : State} (r : ℕ) → Step s (record s { heap = store s.heap r (free (s.heap.cell r)).0 })

pub data Reach (s : State) : State → Type 0 where
  start : Reach s s
  next : {t u : State} → Reach s t → Step t u → Reach s u

pub store-Fits :
    (h : Heap) (r : ℕ) (b : Backend)
    → Fits b
    → ((q : ℕ) → Fits (h.cell q))
    → (q : ℕ) → Fits ((store h r b).cell q)
store-Fits h r b f old q = ground (arith, old q)

assign_request-Fits : (b : Backend) → Fits b → Fits (assign_request b).0
unfolding assign_request
assign_request-Fits b f = ground arith

free-Fits : (b : Backend) → Fits b → Fits (free b).0
unfolding free
free-Fits b f = ground arith

pub set_alive-Fits : (alive : Bool) (b : Backend) → Fits b → Fits (set_alive alive b)
unfolding set_alive
set_alive-Fits alive b f = f

Allocated-suc : (n : ℕ) (xs : List ℕ) → All (λ r. r < n) xs → All (λ r. r < suc n) xs
Allocated-suc n [] a = tt
Allocated-suc n (x ∷ xs) a = (omega arith, Allocated-suc n xs a.1)

pub add_server-IsValid :
    (s : State) (b : Backend)
    → Fits b
    → length s.pool.servers + 1 < half32
    → IsValid s
    → IsValid
        (record { heap = (add_server b s.heap s.pool).0; pool = (add_server b s.heap s.pool).1 })
unfolding add_server
add_server-IsValid s b f room v = record {
  sane = ground (arith, length-append s.pool.servers (s.heap.next ∷ []));
  allocated =
      All-append _ s.pool.servers _ (Allocated-suc s.heap.next s.pool.servers v.allocated)
        (omega arith, tt);
  fits = λ r. ground (arith, v.fits r);
}

cut_length : (xs ys : List ℕ) (v : ℕ) → length (xs ++ ys) ≤ length (xs ++ v ∷ ys)
cut_length xs ys v = omega (arith, length-append xs ys, length-append xs (v ∷ ys))

remove_server_by_url-IsValid :
    (s : State) (url : String)
    → IsValid s
    → IsValid (record s { pool = (remove_server_by_url url s.heap s.pool).0 })
remove_server_by_url-IsValid s url v = elim (remove_server_by_url_lem url s.heap s.pool) [
  | inl (_, e) ↦ rw e v
  | inr (ys, e, (before, r, after, split, rest, _, _)) ↦
      let old = All-split _ before (r ∷ after) (rw split at v.allocated) in
      rw (e, rest)
        (record {
          sane = ground (arith, cut_length before after r, ap length split, v.sane.small);
          allocated = All-append _ before after old.0 old.1.1;
          fits = v.fits;
        })
]

-- Every step keeps the state valid.
pub Step-IsValid : {s t : State} → Step s t → IsValid s → IsValid t
Step-IsValid {s} (adds b f room) v = add_server-IsValid s b f room v
Step-IsValid {s} (removes url) v = remove_server_by_url-IsValid s url v
Step-IsValid {s} (chooses p' r e) v =
    let (q, found, c) = get_next_peer-find s.heap s.pool v.sane in
    let same : q ≡ p' = ground (arith, e, found) in
    rw (← same) (record { sane = c.sane; allocated = rw c.same v.allocated; fits = v.fits })
Step-IsValid {s} (marks r alive) v = record {
  sane = v.sane;
  allocated = v.allocated;
  fits = store-Fits s.heap r _ (set_alive-Fits alive (s.heap.cell r) (v.fits r)) v.fits;
}
Step-IsValid {s} (assigns r) v = record {
  sane = v.sane;
  allocated = v.allocated;
  fits = store-Fits s.heap r _ (assign_request-Fits (s.heap.cell r) (v.fits r)) v.fits;
}
Step-IsValid {s} (frees r) v = record {
  sane = v.sane;
  allocated = v.allocated;
  fits = store-Fits s.heap r _ (free-Fits (s.heap.cell r) (v.fits r)) v.fits;
}

-- In whatever order servers are added, removed, chosen, marked, assigned to and freed, from a
-- valid state: the pointer and the length stay within an int32 and sane, the pool's references
-- stay allocated, and no backend has more requests in its channel than its capacity. Added servers
-- must fit, and the pool must stay below 2^31 servers.
pub Reach-IsValid : {s t : State} → Reach s t → IsValid s → IsValid t
Reach-IsValid start v = v
Reach-IsValid (next r st) v = Step-IsValid st (Reach-IsValid r v)

-- So GetNextPeer never panics on a state that is reached from a valid one.
pub get_next_peer-no_panic :
    {s t : State} → IsValid s → Reach s t → get_next_peer t.heap t.pool ≢ panic
get_next_peer-no_panic {t} v r e =
    let (_, found, _) = get_next_peer-find t.heap t.pool (Reach-IsValid r v).sane in cc (found, e)
