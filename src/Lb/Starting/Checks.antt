-- ===== src/Lb/Starting/Checks.antt =====
-- lb/loadBalancer.go, HealthChecker: how a round of checks ends, by the two readings of Servers().
use bduts.Prelude.{
  ℕ, zero, suc, ◌≡◌, ◌<◌, refl, ap, sym, subst, true, false, String, Bool, List, [], ◌∷◌, length,
  arith, All, ◌==◌, if◌then◌else◌, ◌⊎◌, inl, inr, le_or_lt,
}
use bduts.Prelude.Int.{ℤ}
use bduts.Prelude.Go.{Go, ret, panic}
use bduts.Backend.{Backend, check_if_alive, set_alive, health_check}
use bduts.ServerPool.{Heap, store}
use bduts.Lb.Starting.{check_round}

abbrev pub heap_of : Heap → Go (Heap × ℕ) → Heap
heap_of h panic = h
heap_of h (ret (h', left)) = h'

module _ (dial : String → ℤ → Bool) where
  -- The mark of a server says what the dial said.
  abbrev pub IsChecked : Heap → ℕ → Type 0
  IsChecked h r = (h.cell r).alive ≡ check_if_alive dial (h.cell r)

  abbrev checked : Heap → ℕ → Heap
  checked h q = store h q (health_check dial (h.cell q))

  health_check-marks :
      (b : Backend) → (health_check dial b).alive ≡ check_if_alive dial (health_check dial b)
  unfolding health_check set_alive check_if_alive
  health_check-marks b = refl

  -- A choice between two good backends is good.
  chosen :
      (take_new : Bool) (b c : Backend)
      → (take_new ≡ true → b.alive ≡ check_if_alive dial b)
      → (take_new ≡ false → c.alive ≡ check_if_alive dial c)
      → (if take_new then b else c).alive ≡ check_if_alive dial (if take_new then b else c)
  chosen true b c good_b good_c = good_b refl
  chosen false b c good_b good_c = good_c refl

  checked-new : (h : Heap) (q : ℕ) → IsChecked (checked h q) q
  checked-new h q =
      chosen (q == q) (health_check dial (h.cell q)) (h.cell q) (λ e. health_check-marks (h.cell q))
        (λ e. absurd (ground (arith, e)))

  checked-old : (h : Heap) (q r : ℕ) → IsChecked h r → IsChecked (checked h q) r
  checked-old h q r old =
      chosen (q == r) (health_check dial (h.cell q)) (h.cell r) (λ e. health_check-marks (h.cell q))
        (λ e. old)

  -- A round that ends leaves good marks good.
  check_round-old :
      (servers : List ℕ) (counter left : ℕ) (h h' : Heap) (r : ℕ)
      → check_round dial servers counter h ≡ ret (h', left)
      → IsChecked h r
      → IsChecked h' r
  unfolding check_round
  check_round-old [] counter left h h' r e old =
      let same : h ≡ h' = ap (heap_of h) e in subst (λ x. IsChecked x r) same old
  check_round-old (q ∷ servers) zero left h h' r e old = ground (arith, e)
  check_round-old (q ∷ servers) (suc counter) left h h' r e old =
      check_round-old servers counter left (checked h q) h' r e (checked-old h q r old)

  pub check_round-exact :
      (servers : List ℕ) (h : Heap)
      → (h' : Heap) × (check_round dial servers (length servers) h ≡ ret (h', 0))
        × All (IsChecked h') servers
  unfolding check_round
  check_round-exact [] h = (h, refl, tt)
  check_round-exact (q ∷ servers) h =
      let (h', done, marks) = check_round-exact servers (checked h q) in
      (
        h',
        done,
        (
          check_round-old servers (length servers) 0 (checked h q) h' q done (checked-new h q),
          marks,
        ),
      )

  check_round_same :
      (servers : List ℕ) (counter : ℕ) (h : Heap)
      → length servers ≡ counter
      → (h' : Heap) × (check_round dial servers counter h ≡ ret (h', 0))
        × All (IsChecked h') servers
  check_round_same servers counter h same = rw (sym same) (check_round-exact servers h)

  check_round-short :
      (servers : List ℕ) (counter : ℕ) (h : Heap)
      → length servers < counter
      → (h' : Heap) × (left : ℕ) × (check_round dial servers counter h ≡ ret (h', suc left))
  unfolding check_round
  check_round-short [] zero h less = absurd (omega arith)
  check_round-short [] (suc counter) h less = (h, counter, refl)
  check_round-short (q ∷ servers) zero h less = absurd (omega arith)
  check_round-short (q ∷ servers) (suc counter) h less =
      check_round-short servers counter (checked h q) (omega arith)

  check_round-long :
      (servers : List ℕ) (counter : ℕ) (h : Heap)
      → counter < length servers
      → check_round dial servers counter h ≡ panic
  unfolding check_round
  check_round-long [] counter h more = absurd (omega arith)
  check_round-long (q ∷ servers) zero h more = refl
  check_round-long (q ∷ servers) (suc counter) h more =
      check_round-long servers counter (checked h q) (omega arith)

  -- A round of health checks ends, with every server marked as its dial said, if the second
  -- reading of the pool has as many servers as the first; if it has fewer, Wait never returns, and
  -- if it has more, the program panics.
  pub check_round-ends :
      (servers : List ℕ) (counter : ℕ) (h : Heap)
      → ((length servers ≡ counter)
          × (h' : Heap) × (check_round dial servers counter h ≡ ret (h', 0))
          × All (IsChecked h') servers)
        ⊎ (((length servers < counter)
              × (h' : Heap) × (left : ℕ) × (check_round dial servers counter h
                  ≡ ret (h', suc left)))
            ⊎ ((counter < length servers) × (check_round dial servers counter h ≡ panic)))
  check_round-ends servers counter h = elim (le_or_lt (length servers) counter) [
    | inr more ↦ inr (inr (more, check_round-long servers counter h more))
    | inl at_most ↦ elim (le_or_lt counter (length servers)) [
      | inl at_least ↦
          let same : length servers ≡ counter = omega arith in
          let (h', done, marks) = check_round_same servers counter h same in
          inl (same, h', done, marks)
      | inr less ↦
          let (h', left, done) = check_round-short servers counter h less in
          inr (inl (less, h', left, done))
    ]
  ]
