-- ===== src/ServerPool/RoundRobin.antt =====
-- backend/serverPool.go, GetNextPeer: the choice is the first alive server of the rotation that
-- begins behind the last one chosen.
use mathlib.Core.List.{Perm, perm_append_comm}
use bduts.Prelude.{
  ℕ, zero, suc, ◌+◌, ◌-◌, ◌≤◌, ◌<◌, ◌≡◌, ◌↔◌, refl, sym, ap, ◌∙◌, inl, inr, true, false, List, [],
  ◌∷◌, ◌++◌, map, Option, none, some, arith, length, take, drop, find?, get_elem?_split, All,
  All-append, All-split, take-append-drop, take-append_le, length-drop, ltb, take-append_ge,
  drop_all, Bool-cases, if◌then◌else◌,
}
use bduts.Prelude.Int.{pos}
use bduts.Prelude.Go.{Go, ret, ◌>>=◌, index}
use bduts.ServerPool.{Heap, ServerPool, alive_at, get_current_server, peer_loop, get_next_peer}
use bduts.ServerPool.Current.{IsSane, successor, successor-lt-length, increment_current_lem}

-- All the servers, from the one that the pointer moves to.
abbrev pub rotation : ServerPool → List ℕ
rotation p = drop (successor p) p.servers ++ take (successor p) p.servers

-- What `rounds` rounds of the loop look at.
abbrev pub window : ℕ → ServerPool → List ℕ
window rounds p = take rounds (drop (successor p) p.servers ++ p.servers)

abbrev pub moved : ServerPool → ServerPool
moved p = record p { current = pos (successor p) }

abbrev next_index : ℕ → List ℕ → ℕ
next_index s xs = if ltb (s + 1) (length xs) then s + 1 else 0

successor-moved : (p : ServerPool) → successor (moved p) ≡ next_index (successor p) p.servers
successor-moved p = ground arith

take-rotation :
    (s : ℕ) (xs : List ℕ)
    → s ≤ length xs
    → take (length xs) (drop s xs ++ xs) ≡ drop s xs ++ take s xs
take-rotation s xs h =
    let e : length xs - length (drop s xs) ≡ s = omega (arith, length-drop s xs) in
    take-append_ge (length xs) (drop s xs) xs (omega (arith, length-drop s xs))
    ∙ ap (λ k. drop s xs ++ take k xs) e

tail-rotation :
    (rounds s : ℕ) (xs : List ℕ)
    → rounds < length xs
    → s < length xs
    → take rounds (drop (suc s) xs ++ xs) ≡ take rounds (drop (next_index s xs) xs ++ xs)
tail-rotation rounds s xs h k = elim (Bool-cases (ltb (s + 1) (length xs))) [
  | inl more ↦
      let e : suc s ≡ next_index s xs = ground arith in ap (λ i. take rounds (drop i xs ++ xs)) e
  | inr wrapped ↦
      let e : next_index s xs ≡ 0 = ground arith in
      rw (e, drop_all (suc s) xs (ground arith)) (sym (take-append_le rounds xs xs (omega arith)))
]

window-length : (p : ServerPool) → window (length p.servers) p ≡ rotation p
window-length p = take-rotation (successor p) p.servers (ground arith)

pub moved-IsSane : (p : ServerPool) → IsSane p → 0 < length p.servers → IsSane (moved p)
moved-IsSane p s h = ground (arith, successor-lt-length p)

-- One round looks at the head of the window, and leaves its tail.
window-suc :
    (rounds : ℕ) (p : ServerPool)
    → rounds < length p.servers
    → (x : ℕ) × (index p.servers (pos (successor p)) ≡ ret x)
      × (window (suc rounds) p ≡ x ∷ window rounds (moved p))
window-suc rounds p h =
    let below : successor p < length p.servers = ground arith in
    let (x, at, split) = get_elem?_split (successor p) p.servers below in
    (
      x,
      rw (at, index) refl,
      rw (split, successor-moved p)
          (ap (◌∷◌ x) (tail-rotation rounds (successor p) p.servers h below)),
    )

-- What a call leaves: the same servers, a sane pointer, and the pointer at the chosen server.
pub record Chosen (p : ServerPool) (result : Option ℕ) (p' : ServerPool) : Type 0 where
  pub same : p'.servers ≡ p.servers
  pub sane : IsSane p'
  pub pointed : (r : ℕ) → result ≡ some r → get_current_server p' ≡ ret r

peer_loop_round :
    (rounds : ℕ) (h : Heap) (p : ServerPool) (x : ℕ)
    → IsSane p
    → index p.servers (pos (successor p)) ≡ ret x
    → peer_loop (suc rounds) h p
      ≡ (if alive_at h x then ret (moved p, some x) else peer_loop rounds h (moved p))
unfolding peer_loop get_current_server
peer_loop_round rounds h p x s at = rw (increment_current_lem p s, at) refl

peer_loop-find :
    (rounds : ℕ) (h : Heap) (p : ServerPool)
    → IsSane p
    → rounds ≤ length p.servers
    → (p' : ServerPool) × (peer_loop rounds h p ≡ ret (p', find? (alive_at h) (window rounds p)))
      × Chosen p (find? (alive_at h) (window rounds p)) p'
unfolding peer_loop get_current_server
peer_loop-find zero h p s k = (p, refl, record { same = refl; sane = s; pointed = λ r e. cc })
peer_loop-find (suc rounds) h p s k =
    let (x, at, split) = window-suc rounds p k in
    let s' = moved-IsSane p s (omega arith) in
    let ih = peer_loop-find rounds h (moved p) s' (omega arith) in
    elim (Bool-cases (alive_at h x)) [
      | inl alive ↦
          rw (peer_loop_round rounds h p x s at, split, alive)
            (
              moved p,
              refl,
              record { same = refl; sane = s'; pointed = λ r e. at ∙ ap ret (ground arith) },
            )
      | inr dead ↦
          rw (peer_loop_round rounds h p x s at, split, dead)
            (ih.0, ih.1, record { same = ih.2.same; sane = ih.2.sane; pointed = ih.2.pointed })
    ]

-- On a pool whose pointer and length fit an int32 (IsSane), GetNextPeer does not panic: it returns
-- the first alive server of the rotation that begins behind the pointer, or its error if there is
-- none; the servers stay as they were, the pointer stays sane, and it points at the server that
-- was returned.
pub get_next_peer-find :
    (h : Heap) (p : ServerPool)
    → IsSane p
    → (p' : ServerPool) × (get_next_peer h p ≡ ret (p', find? (alive_at h) (rotation p)))
      × Chosen p (find? (alive_at h) (rotation p)) p'
unfolding get_next_peer
get_next_peer-find h p s =
    rw (← window-length p) (peer_loop-find (length p.servers) h p s (omega arith))

abbrev pub AllDown : Heap → List ℕ → Type 0
AllDown h = All (λ r. alive_at h r ≡ false)

All-rotation : (P : ℕ → Type 0) (p : ServerPool) → All P p.servers → All P (rotation p)
All-rotation P p a =
    let s = successor p in
    let parts =
      All-split P (take s p.servers) (drop s p.servers) (rw (take-append-drop s p.servers) a) in
    All-append P (drop s p.servers) (take s p.servers) parts.1 parts.0

All-of_rotation : (P : ℕ → Type 0) (p : ServerPool) → All P (rotation p) → All P p.servers
All-of_rotation P p a =
    let s = successor p in
    let parts = All-split P (drop s p.servers) (take s p.servers) a in
    rw (← take-append-drop s p.servers)
      (All-append P (take s p.servers) (drop s p.servers) parts.1 parts.0)

find?-none_iff : (h : Heap) (xs : List ℕ) → (find? (alive_at h) xs ≡ none) ↔ AllDown h xs
find?-none_iff h [] = ground arith
find?-none_iff h (x ∷ xs) = ground (arith, find?-none_iff h xs)

-- On a sane pool GetNextPeer gives its error exactly when every server of the pool is down.
pub get_next_peer-AllDown_iff :
    (h : Heap) (p : ServerPool)
    → IsSane p
    → ((p' : ServerPool) × (get_next_peer h p ≡ ret (p', none))) ↔ AllDown h p.servers
get_next_peer-AllDown_iff h p s = (
  λ t.
      let found = get_next_peer-find h p s in
      All-of_rotation _ p ((find?-none_iff h (rotation p)).0 (ground (arith, found.1, t.1))),
  λ a.
      let found = get_next_peer-find h p s in
      (
        found.0,
        found.1
            ∙ ap (λ o. ret (found.0, o)) ((find?-none_iff h (rotation p)).1 (All-rotation _ p a)),
      ),
)

-- Repeated calls, and what they return.
abbrev pub serve : ℕ → Heap → ServerPool → Go (ServerPool × List (Option ℕ))
serve zero h p = ret (p, [])
serve (suc calls) h p = do
  (p', r) ← get_next_peer h p
  (p'', rs) ← serve calls h p'
  ret (p'', r ∷ rs)

abbrev pub AllAlive : Heap → List ℕ → Type 0
AllAlive h = All (λ r. alive_at h r ≡ true)

All-get :
    (h : Heap) (xs : List ℕ) (i x : ℕ)
    → AllAlive h xs
    → index xs (pos i) ≡ ret x
    → alive_at h x ≡ true
All-get h [] i x a e = cc
All-get h (y ∷ ys) zero x a e = ground arith
All-get h (y ∷ ys) (suc i) x a e = All-get h ys i x a.1 e

peer_loop_alive :
    (rounds : ℕ) (h : Heap) (p : ServerPool) (x : ℕ)
    → IsSane p
    → alive_at h x ≡ true
    → 0 < rounds
    → index p.servers (pos (successor p)) ≡ ret x
    → peer_loop rounds h p ≡ ret (moved p, some x)
peer_loop_alive zero h p x s alive some_round at = elim some_round [ ]
peer_loop_alive (suc rounds) h p x s alive some_round at =
    peer_loop_round rounds h p x s at ∙ rw alive refl

serve_one :
    (h : Heap) (p : ServerPool) (x : ℕ)
    → IsSane p
    → AllAlive h p.servers
    → 0 < length p.servers
    → index p.servers (pos (successor p)) ≡ ret x
    → get_next_peer h p ≡ ret (moved p, some x)
unfolding get_next_peer
serve_one h p x s a k at =
    peer_loop_alive (length p.servers) h p x s (All-get h p.servers (successor p) x a at) k at

serve-window :
    (calls : ℕ) (h : Heap) (p : ServerPool)
    → IsSane p
    → AllAlive h p.servers
    → calls ≤ length p.servers
    → (p' : ServerPool) × (serve calls h p ≡ ret (p', map some (window calls p)))
serve-window zero h p s a k = (p, refl)
serve-window (suc calls) h p s a k =
    let (x, at, split) = window-suc calls p k in
    let ih = serve-window calls h (moved p) (moved-IsSane p s (omega arith)) a (omega arith) in
    (ih.0, rw (serve_one h p x s a (omega arith) at, ih.1, split) refl)

-- Round robin is fair: while all the servers of a sane pool are alive, as many calls of
-- GetNextPeer as there are servers return each server once, in the order of the rotation.
pub serve-rotation :
    (h : Heap) (p : ServerPool)
    → IsSane p
    → AllAlive h p.servers
    → (p' : ServerPool) × (serve (length p.servers) h p ≡ ret (p', map some (rotation p)))
      × Perm (rotation p) p.servers
serve-rotation h p s a =
    let (p', e) = serve-window (length p.servers) h p s a (omega arith) in
    (
      p',
      rw (window-length p) at e,
      rw (take-append-drop (successor p) p.servers) at
          (perm_append_comm (drop (successor p) p.servers) (take (successor p) p.servers)),
    )
