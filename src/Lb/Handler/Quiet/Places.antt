-- ===== src/Lb/Handler/Quiet/Places.antt =====
-- backend/backend.go, AssignRequest and Free: what they leave of a backend and of the others.
use bduts.Prelude.{ℕ, ◌<◌, ◌≡◌, refl, true, List, [], ◌∷◌, arith, count_if}
use bduts.Backend.{Backend, assign_request, free}
use bduts.ServerPool.{Heap, store, alive_at}
use bduts.ServerPool.Steps.{State}
use bduts.Lb.Handler.{on_heap}
use bduts.Lb.Handler.Quiet.{cap_at}

-- A write that keeps the server's flag and limit keeps them everywhere.
pub alive-store :
    (h : Heap) (q : ℕ) (b : Backend)
    → b.alive ≡ alive_at h q
    → (r : ℕ) → alive_at (store h q b) r ≡ alive_at h r
alive-store h q b e r = ground arith

pub count-store :
    (h : Heap) (q : ℕ) (b : Backend) (xs : List ℕ)
    → b.alive ≡ alive_at h q
    → count_if (alive_at (store h q b)) xs ≡ count_if (alive_at h) xs
count-store h q b [] e = refl
count-store h q b (x ∷ xs) e = ground (arith, alive-store h q b e x, count-store h q b xs e)

pub cap-store :
    (s : State) (q : ℕ) (b : Backend)
    → b.request_chan.cap ≡ cap_at s q
    → (r : ℕ) → cap_at (on_heap s q b) r ≡ cap_at s r
cap-store s q b e r = ground arith

pub free_alive : (b : Backend) → (free b).0.alive ≡ b.alive
unfolding free
free_alive b = ground arith

pub free_cap : (b : Backend) → (free b).0.request_chan.cap ≡ b.request_chan.cap
unfolding free
free_cap b = ground arith

pub assign_alive : (b : Backend) → (assign_request b).0.alive ≡ b.alive
unfolding assign_request
assign_alive b = ground arith

pub assign_cap : (b : Backend) → (assign_request b).0.request_chan.cap ≡ b.request_chan.cap
unfolding assign_request
assign_cap b = ground arith

pub assign_room :
    (b : Backend) → b.request_chan.queued < b.request_chan.cap → (assign_request b).1 ≡ true
unfolding assign_request
assign_room b h = ground arith
