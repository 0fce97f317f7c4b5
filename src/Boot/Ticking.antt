-- ===== src/Boot/Ticking.antt =====
-- main.go, the durations of the configuration, and time.NewTicker: milliseconds as int64 nanoseconds.
use bduts.Prelude.{ℕ, ◌*◌, ◌-◌, ◌≤◌, ◌<◌, ◌≡◌, arith, inl, inr, leb, le_or_lt, ◌==◌, if◌then◌else◌}
use bduts.Prelude.Int.{ℤ, pos, negsuc, int64, int64_exact, half64, ◌*ℤ◌}
use bduts.Prelude.Go.{ret, panic}
use bduts.Backend.{millisecond}
use bduts.Lb.Starting.{FileConfig, lb_config}
use bduts.Boot.Opening.{new_ticker}

-- From 1 to 9223372036854 milliseconds
abbrev pub Ticks : ℤ → Type 0
Ticks ms = (n : ℕ) × (ms ≡ pos n) × (0 < n) × (n ≤ 9223372036854)

scaled : (n : ℕ) → pos n *ℤ millisecond ≡ pos (n * 1000000)
unfolding ◌*ℤ◌
scaled n = ground arith

int64_wraps : (k : ℕ) → half64 ≤ k → k < 2 * half64 → int64 (pos k) ≡ negsuc (2 * half64 - k - 1)
unfolding int64
int64_wraps k low high = ground arith

-- For a configured period of fewer than 18446744073710 ms, NewTicker of the cleaner's period
-- panics at 0 and above 9223372036854, where the nanoseconds wrap around to a negative duration,
-- and starts a ticker otherwise.
pub lb_config_ticks :
    (file : FileConfig) (n : ℕ)
    → file.observe_frequency ≡ pos n
    → n < 18446744073710
    → new_ticker (lb_config file).observe_frequency
      ≡ (if n == 0 then panic else if leb n 9223372036854 then ret tt else panic)
unfolding new_ticker lb_config
lb_config_ticks file n e small = elim (le_or_lt n 9223372036854) [
  | inl fits ↦
      rw (new_ticker, e, scaled n, int64_exact (pos (n * 1000000)) (omega arith) (omega arith))
        (ground arith)
  | inr over ↦
      rw (new_ticker, e, scaled n, int64_wraps (n * 1000000) (omega arith) (omega arith))
        (ground arith)
]

pub new_ticker-Ticks :
    (file : FileConfig)
    → Ticks file.observe_frequency
    → new_ticker (lb_config file).observe_frequency ≡ ret tt
new_ticker-Ticks file (n, e, more, small) = ground (arith, lb_config_ticks file n)

pub new_ticker-checks :
    (file : FileConfig)
    → Ticks file.health_check_period
    → new_ticker (lb_config file).health_check_period ≡ ret tt
unfolding lb_config
new_ticker-checks file ticks =
    new_ticker-Ticks (record file { observe_frequency = file.health_check_period }) ticks
