-- ===== src/Lb/Handler/Quiet.antt =====
-- lb/lbHandlers.go, backendHandler on its own, while no channel is full: how far it is from its end.
pub mod Places
pub mod Steps
use bduts.Prelude.{
  ℕ, ◌+◌, ◌-◌, ◌*◌, ◌≤◌, ◌<◌, ◌≡◌, refl, ap, ◌∙◌, ◌⊎◌, inl, inr, String, Bool, true, false, List,
  [], ◌∷◌, Option, none, some, arith, Bool-cases, All, count_if, find?,
}
use bduts.Prelude.Go.{Go, ret, panic}
use bduts.Http.{Request, Response, ResponseWriter}
use bduts.Backend.{
  Backend, DoResult, assign_request, free, set_alive, is_canceled, write_body_and_return,
}
use bduts.ServerPool.{Heap, ServerPool, store, alive_at, get_next_peer}
use bduts.ServerPool.Current.{IsSane}
use bduts.ServerPool.RoundRobin.{get_next_peer-find, rotation}
use bduts.ServerPool.Steps.{State}
use bduts.Lb.Handler.{
  Sent, Outcome, Phase, choosing, assigning, sending, releasing, judging, finished, Handler, choose,
  assign, send, release, judge, answered, dispatch, advance, on_heap,
}
use bduts.Lb.Handler.Effects.{held, queued_at, chosen_of_All, advance-Balanced}

abbrev pub In : ℕ → List ℕ → Type 0
In r [] = ⊥
In r (x ∷ xs) = (x ≡ r) ⊎ In r xs

abbrev pub cap_at : State → ℕ → ℕ
cap_at s r = (s.heap.cell r).request_chan.cap

abbrev pub alive_count : State → ℕ
alive_count s = count_if (alive_at s.heap) s.pool.servers

-- The server that a phase names is in the pool and alive.
abbrev pub Live : State → Phase → Type 0
Live s choosing = Unit {0}
Live s (assigning r) = In r s.pool.servers × (alive_at s.heap r ≡ true)
Live s (sending r) = In r s.pool.servers × (alive_at s.heap r ≡ true)
Live s (releasing r _) = In r s.pool.servers × (alive_at s.heap r ≡ true)
Live s (judging r _) = In r s.pool.servers × (alive_at s.heap r ≡ true)
Live s (finished _) = Unit {0}

-- The steps that are left at most, by the number of alive servers.
abbrev pub budget : ℕ → Phase → ℕ
budget a choosing = 5 * a + 1
budget a (assigning r) = 5 * a
budget a (sending r) = 5 * a - 1
budget a (releasing r _) = 5 * a - 2
budget a (judging r _) = 5 * a - 3
budget a (finished _) = 0

-- The handler runs alone, and beside its own place every server of the pool has a free one.
pub record Quiet (s : State) (hd : Handler) : Type 0 where
  pub sane : IsSane s.pool
  pub room : All (λ r. queued_at s r < cap_at s r + held r hd) s.pool.servers
  pub own : (r : ℕ) → held r hd ≤ queued_at s r
  pub live : Live s hd.phase

pub alive_count-pos :
    (h : Heap) (xs : List ℕ) (r : ℕ) → In r xs → alive_at h r ≡ true → 0 < count_if (alive_at h) xs
alive_count-pos h [] r i a = absurd i
alive_count-pos h (x ∷ xs) r (inl e) a = rw (e, a) (omega arith)
alive_count-pos h (x ∷ xs) r (inr i) a = ground (arith, alive_count-pos h xs r i a)

pub marked-le :
    (h : Heap) (xs : List ℕ) (r : ℕ)
    → count_if (alive_at (store h r (set_alive false (h.cell r)))) xs ≤ count_if (alive_at h) xs
unfolding set_alive
marked-le h [] r = omega arith
marked-le h (x ∷ xs) r = ground (arith, marked-le h xs r)

pub marked-lt :
    (h : Heap) (xs : List ℕ) (r : ℕ)
    → In r xs
    → alive_at h r ≡ true
    → count_if (alive_at (store h r (set_alive false (h.cell r)))) xs < count_if (alive_at h) xs
unfolding set_alive
marked-lt h [] r i a = absurd i
marked-lt h (x ∷ xs) r (inl e) a = ground (arith, marked-le h xs r, ap (alive_at h) e)
marked-lt h (x ∷ xs) r (inr i) a = ground (arith, marked-lt h xs r i a)

-- What one step of a quiet handler leaves, but for the places in the channels.
pub record Nearer (s : State) (p : Phase) (t : State × Handler) : Type 0 where
  pub sane : IsSane t.0.pool
  pub servers : t.0.pool.servers ≡ s.pool.servers
  pub caps : (r : ℕ) → cap_at t.0 r ≡ cap_at s r
  pub live : Live t.0 t.1.phase
  pub less : budget (alive_count t.0) t.1.phase < budget (alive_count s) p

pub In-All : (xs : List ℕ) → All (λ r. In r xs) xs
In-All xs = go xs (λ r i. i)
  where
    go : (ys : List ℕ) → ((r : ℕ) → In r ys → In r xs) → All (λ r. In r xs) ys
    go [] k = tt
    go (y ∷ ys) k = (k y (inl refl), go ys (λ r i. k r (inr i)))

find?-alive :
    (h : Heap) (xs : List ℕ) (r : ℕ) → find? (alive_at h) xs ≡ some r → alive_at h r ≡ true
find?-alive h [] r e = cc
find?-alive h (x ∷ xs) r e = elim (Bool-cases (alive_at h x)) [
  | inl alive ↦ let same : x ≡ r = ground arith in rw (← same) alive
  | inr dead ↦ find?-alive h xs r (rw dead at e)
]

-- The server that GetNextPeer returns is alive.
pub chosen_alive :
    (h : Heap) (p p' : ServerPool) (r : ℕ)
    → IsSane p
    → get_next_peer h p ≡ ret (p', some r)
    → alive_at h r ≡ true
chosen_alive h p p' r s e =
    let (q, found, c) = get_next_peer-find h p s in
    find?-alive h (rotation p) r (ground (arith, found, e))

pub All-In : (P : ℕ → Type 0) (xs : List ℕ) (r : ℕ) → All P xs → In r xs → P r
All-In P [] r a i = absurd i
All-In P (x ∷ xs) r a (inl e) = rw (← e) a.0
All-In P (x ∷ xs) r a (inr i) = All-In P xs r a.1 i

abbrev pub is_finished : Phase → Bool
is_finished (finished _) = true
is_finished _ = false
