-- ===== src/ServerPool/Current.antt =====
-- backend/serverPool.go: where IncrementCurrent and DecrementCurrent leave the pointer.
use bduts.Prelude.{ℕ, ◌+◌, ◌-◌, ◌≤◌, ◌<◌, ◌≡◌, ◌≢◌, arith, length, ltb, if◌then◌else◌}
use bduts.Prelude.Int.{pos, ◌+ℤ◌, ◌-ℤ◌, half32, int32_exact, pos_part, neg_part}
use bduts.ServerPool.{ServerPool, len32, increment_current, decrement_current}

-- The pointer is -1 or not negative, and neither it nor the pool's length overflows an int32.
pub record IsSane (p : ServerPool) : Type 0 where
  pub small : length p.servers < half32
  pub above : neg_part p.current ≤ 1
  pub below : pos_part p.current + 1 < half32

-- The index that the pointer moves to.
abbrev pub successor : ServerPool → ℕ
successor p =
    let next = pos_part p.current + 1 - neg_part p.current in
    if ltb next (length p.servers) then next else 0

pub increment_current_lem :
    (p : ServerPool) → IsSane p → increment_current p ≡ record p { current = pos (successor p) }
unfolding increment_current ◌+ℤ◌
increment_current_lem p s =
    ground (arith, int32_exact (pos (length p.servers)), int32_exact (p.current +ℤ pos 1))

pub successor-lt-length : (p : ServerPool) → 0 < length p.servers → successor p < length p.servers
successor-lt-length p h = ground arith

pub increment_current-IsSane : (p : ServerPool) → IsSane p → IsSane (increment_current p)
increment_current-IsSane p s =
    let e = increment_current_lem p s in rw e (ground (arith, successor-lt-length p))

-- In a sane pool of two servers or more DecrementCurrent does not leave the pointer at the first
-- server: it goes from index 1 to the last one.
decrement_current_skips_first :
    (p : ServerPool)
    → IsSane p
    → 1 < length p.servers
    → ((decrement_current p).current ≢ pos 0)
      × (p.current ≡ pos 1 → (decrement_current p).current ≡ pos (length p.servers - 1))
unfolding decrement_current ◌-ℤ◌
decrement_current_skips_first p s h = (
  ground (
    arith,
    int32_exact (pos (length p.servers)),
    int32_exact (p.current -ℤ pos 1),
    int32_exact (len32 p -ℤ pos 1),
  ),
  λ e. ground (
    arith,
    int32_exact (pos (length p.servers)),
    int32_exact (p.current -ℤ pos 1),
    int32_exact (len32 p -ℤ pos 1),
  ),
)
