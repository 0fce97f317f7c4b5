-- ===== src/Tests/Pool.antt =====
-- The theorems on the server pool at concrete pools.
use mathlib.Core.List.{Perm}
use bduts.Prelude.{ℕ, ◌≡◌, ◌⊎◌, refl, false, List, [], ◌∷◌, map, none, some, arith, find?, length}
use bduts.Prelude.Int.{pos, int32, ◌+ℤ◌}
use bduts.Prelude.Go.{ret}
use bduts.Http.{url_string}
use bduts.Backend.{assign_request, set_alive}
use bduts.ServerPool.{
  ServerPool, store, alive_at, server_not_found, get_next_peer, find_server_by_url,
  remove_server_by_url,
}
use bduts.ServerPool.Current.{IsSane}
use bduts.ServerPool.RoundRobin.{rotation, Chosen, serve, get_next_peer-find, serve-rotation}
use bduts.ServerPool.Membership.{Cut, UniqueUrls, remove_server_by_url_lem}
use bduts.ServerPool.Steps.{State, IsValid, assigns, marks, start, next, Reach-IsValid}
use bduts.Tests.Data.{three}

abbrev pair : ServerPool
pair = record { servers = 0 ∷ 2 ∷ []; current = pos 1 }

three-IsSane : IsSane three.pool
three-IsSane = omega arith

get_next_peer-find_example :
    (p' : ServerPool) × (get_next_peer three.heap three.pool
      ≡ ret (p', find? (alive_at three.heap) (rotation three.pool)))
    × Chosen three.pool (find? (alive_at three.heap) (rotation three.pool)) p'
get_next_peer-find_example = get_next_peer-find three.heap three.pool (omega arith)

-- b is down, so the request goes to c.
skips_down :
    get_next_peer three.heap three.pool ≡ ret (record three.pool { current = pos 2 }, some 2)
unfolding get_next_peer int32 ◌+ℤ◌
skips_down = refl

serve-rotation_example :
    (p' : ServerPool) × (serve (length pair.servers) three.heap pair
      ≡ ret (p', map some (rotation pair)))
    × Perm (rotation pair) pair.servers
serve-rotation_example = serve-rotation three.heap pair (omega arith) (refl, (refl, tt))

remove_server_by_url_lem_example :
    ((find_server_by_url "http://b" three.heap three.pool.servers ≡ none)
      × (remove_server_by_url "http://b" three.heap three.pool
          ≡ (three.pool, some server_not_found)))
    ⊎ ((ys : List ℕ) × (remove_server_by_url "http://b" three.heap three.pool
          ≡ (record three.pool { servers = ys }, none))
        × Cut "http://b" three.heap three.pool.servers ys)
remove_server_by_url_lem_example = remove_server_by_url_lem "http://b" three.heap three.pool

removes_b :
    remove_server_by_url "http://b" three.heap three.pool
    ≡ (record three.pool { servers = 0 ∷ 2 ∷ [] }, none)
unfolding remove_server_by_url url_string
removes_b = refl

three-UniqueUrls : UniqueUrls three.heap three.pool.servers
unfolding find_server_by_url url_string
three-UniqueUrls = (refl, (refl, (refl, tt)))

three-IsValid : IsValid three
three-IsValid = record { sane = omega arith; allocated = omega arith; fits = λ r. ground arith }

abbrev one_assigned : State
one_assigned = record three { heap = store three.heap 0 (assign_request (three.heap.cell 0)).0 }

abbrev then_down : State
then_down = record one_assigned {
  heap = store one_assigned.heap 2 (set_alive false (one_assigned.heap.cell 2));
}

Reach-IsValid_example : IsValid then_down
Reach-IsValid_example =
    Reach-IsValid {s = three} {t = then_down} (next (next start (assigns 0)) (marks 2 false))
      three-IsValid
