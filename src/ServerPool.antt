-- ===== src/ServerPool.antt =====
-- backend/serverPool.go: the pool of backends and the round-robin choice among them. Backends are
-- shared through pointers, so they live in a heap and the pool keeps references.
pub mod Current
pub mod RoundRobin
pub mod Membership
pub mod Steps
use bduts.Prelude.{
  ℕ, zero, suc, ◌+◌, String, str_eq, Bool, true, false, List, [], ◌∷◌, ◌++◌, map, Option, none,
  some, length, take, drop, find?, ◌==◌, if◌then◌else◌,
}
use bduts.Prelude.Int.{ℤ, pos, negsuc, ◌+ℤ◌, ◌-ℤ◌, int32, ltb_ℤ, leb_ℤ}
use bduts.Prelude.Go.{Go, ret, panic, ◌>>=◌, index}
use bduts.Http.{Url, url_string}
use bduts.Backend.{ServerConfig, Backend, new_backend_config}

-- `cell` holds the backend at each reference; `next` is the first reference not yet given out.
pub record Heap : Type 0 where
  pub cell : ℕ → Backend
  pub next : ℕ

abbrev pub update : (ℕ → Backend) → ℕ → Backend → ℕ → Backend
update f r b q = if r == q then b else f q

abbrev pub store : Heap → ℕ → Backend → Heap
store h r b = record h { cell = update h.cell r b }

abbrev pub url_at : Heap → ℕ → String
url_at h r = url_string (h.cell r).url

abbrev pub alive_at : Heap → ℕ → Bool
alive_at h r = (h.cell r).alive

pub record ServerPool : Type 0 where
  pub servers : List ℕ
  pub current : ℤ

unfoldable pub new_server_pool : ServerPool
new_server_pool = record { servers = []; current = negsuc 0 }

-- int32(len(p.Servers()))
abbrev pub len32 : ServerPool → ℤ
len32 p = int32 (pos (length p.servers))

unfoldable pub increment_current : ServerPool → ServerPool
increment_current p =
    let current = int32 (p.current +ℤ pos 1) in
    if leb_ℤ (len32 p) current then record p { current = pos 0 } else record p { current = current }

unfoldable pub decrement_current : ServerPool → ServerPool
decrement_current p =
    let current = int32 (p.current -ℤ pos 1) in
    if leb_ℤ current (pos 0)
    then record p { current = int32 (len32 p -ℤ pos 1) }
    else record p { current = current }

unfoldable pub get_current_server : ServerPool → Go ℕ
get_current_server p = index p.servers p.current

-- &Backend{…}, and the append of its address
unfoldable pub add_server : Backend → Heap → ServerPool → Heap × ServerPool
add_server b h p = (
  record h { cell = update h.cell h.next b; next = suc h.next },
  record p { servers = p.servers ++ h.next ∷ [] },
)

-- The loop of ConfigureServerPool; `parse` is url.Parse.
unfoldable pub configure_server_pool :
    (String → Option Url) → List ServerConfig → Heap → ServerPool → Go (Heap × ServerPool)
unfolding add_server
configure_server_pool parse [] h p = ret (h, p)
configure_server_pool parse (server ∷ servers) h p = do
  b ← new_backend_config parse server
  elim b [
    | none ↦ configure_server_pool parse servers h p
    | some b ↦ let (h', p') = add_server b h p in configure_server_pool parse servers h' p'
  ]

unfoldable pub find_server_by_url : String → Heap → List ℕ → Option ℕ
find_server_by_url url h [] = none
find_server_by_url url h (v ∷ vs) =
    if str_eq (url_at h v) url then some v else find_server_by_url url h vs

-- The slice without the first server of the URL; `none` if there is no such server.
unfoldable pub without_url : String → Heap → List ℕ → Option (List ℕ)
without_url url h [] = none
without_url url h (v ∷ vs) =
    if str_eq (url_at h v) url
    then some vs
    else elim (without_url url h vs) [ none ↦ none | some ws ↦ some (v ∷ ws) ]

pub data PoolError : Type 0 where
  server_not_found all_turned_down : PoolError

unfoldable pub remove_server_by_url : String → Heap → ServerPool → ServerPool × Option PoolError
unfolding without_url
remove_server_by_url url h p = elim (without_url url h p.servers) [
  | none ↦ (p, some server_not_found)
  | some rest ↦ (record p { servers = rest }, none)
]

-- The loop of GetNextPeer over the rounds that are left. `none` is its error, that all backends
-- are turned down.
unfoldable pub peer_loop : ℕ → Heap → ServerPool → Go (ServerPool × Option ℕ)
unfolding increment_current get_current_server
peer_loop zero h p = ret (p, none)
peer_loop (suc rounds) h p =
    let p' = increment_current p in
    let rest = peer_loop rounds h p' in
    do
      r ← index p.servers p'.current
      if alive_at h r then (do s ← get_current_server p'; ret (p', some s)) else rest

unfoldable pub get_next_peer : Heap → ServerPool → Go (ServerPool × Option ℕ)
unfolding peer_loop
get_next_peer h p = peer_loop (length p.servers) h p

unfoldable pub servers_urls : Heap → ServerPool → List String
servers_urls h p = map (url_at h) p.servers
