-- ===== src/Lb/Starting.antt =====
-- lb/loadBalancer.go, the configuration, NewLoadBalancerWithPool and a round of HealthChecker, and what
-- main.go does with them before it serves.
pub mod Checks
pub mod Ready
use bduts.Prelude.{ℕ, zero, suc, ◌+◌, String, Bool, List, [], ◌∷◌, Option, length, none, some}
use bduts.Prelude.Int.{ℤ, pos, ◌*ℤ◌, int64}
use bduts.Prelude.Go.{Go, ret, panic, ◌>>=◌}
use bduts.Http.{Url}
use bduts.Backend.{ServerConfig, Backend, millisecond, health_check}
use bduts.ServerPool.{Heap, ServerPool, store, new_server_pool, configure_server_pool}
use bduts.ServerPool.Steps.{State}

-- config.LoadBalancerConfig, as the file has it
pub record FileConfig : Type 0 where
  pub port : ℤ
  pub health_check_period : ℤ
  pub max_cache_size : ℤ
  pub observe_frequency : ℤ

-- lb.LoadBalancerConfig, with durations in nanoseconds
pub record LoadBalancerConfig : Type 0 where
  pub port : ℤ
  pub health_check_period : ℤ
  pub max_cache_size : ℤ
  pub observe_frequency : ℤ

unfoldable pub new_load_balancer_config : ℤ → ℤ → ℤ → ℤ → LoadBalancerConfig
new_load_balancer_config port health_check_period max_cache_size observe_frequency = record {
  port = port;
  health_check_period = health_check_period;
  max_cache_size = max_cache_size;
  observe_frequency = observe_frequency;
}

-- The configuration that main makes
unfoldable pub lb_config : FileConfig → LoadBalancerConfig
unfolding new_load_balancer_config
lb_config c =
    new_load_balancer_config c.port (int64 (c.health_check_period *ℤ millisecond)) c.max_cache_size
      (int64 (c.observe_frequency *ℤ millisecond))

-- The pool of NewLoadBalancerWithPool; the other fields are the arguments.
unfoldable pub new_load_balancer_with_pool :
    (String → Option Url) → List ServerConfig → Heap → Go State
unfolding configure_server_pool new_server_pool
new_load_balancer_with_pool parse servers h = do
  (h', p) ← configure_server_pool parse servers h new_server_pool
  ret (record { heap = h'; pool = p })

-- The goroutines of a round, in the order in which they end, with the wait group's counter. Done at
-- zero panics, and Wait returns if the counter is zero at the end. All end before the next round.
unfoldable pub check_round : (String → ℤ → Bool) → List ℕ → ℕ → Heap → Go (Heap × ℕ)
unfolding health_check
check_round dial [] counter h = ret (h, counter)
check_round dial (server ∷ servers) zero h = panic
check_round dial (server ∷ servers) (suc counter) h =
    check_round dial servers counter (store h server (health_check dial (h.cell server)))

-- main up to "Ready!": the pool and its first check, with the counter that Wait meets
unfoldable pub start_up :
    (String → Option Url) → (String → ℤ → Bool) → List ServerConfig → Heap → Go (State × ℕ)
unfolding new_load_balancer_with_pool check_round
start_up parse dial servers h = do
  s ← new_load_balancer_with_pool parse servers h
  (h', counter) ← check_round dial s.pool.servers (length s.pool.servers) s.heap
  ret (record s { heap = h' }, counter)
