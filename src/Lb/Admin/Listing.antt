-- ===== src/Lb/Admin/Listing.antt =====
-- lb/adminHandlers.go, GetServersHandler: what the client is told.
use bduts.Prelude.{ℕ, ◌*◌, ◌<◌, ◌≡◌, String, false, map, none, some, arith}
use bduts.Prelude.Int.{pos, int64, int64_exact, ◌*ℤ◌, half64}
use bduts.Http.{ResponseWriter, write, write_header, header_set}
use bduts.Backend.{millisecond}
use bduts.ServerPool.Steps.{State}
use bduts.Lb.Admin.{Env, get_servers_handler, server_info, milliseconds}

-- A configured timeout is listed as it was given, if its nanoseconds fit an int64.
pub milliseconds-millisecond :
    (t : ℕ) → t * 1000000 < half64 → milliseconds (int64 (pos t *ℤ millisecond)) ≡ pos t
unfolding ◌*ℤ◌
milliseconds-millisecond t h = ground (arith, int64_exact (pos t *ℤ millisecond))

-- If the list is marshalled, nothing was sent before and the connection stands,
-- GetServersHandler's GET sends 200 with the headers as they were before the handler: the Content-
-- Type, which it sets after the body, is not sent.
get_servers_handler-header :
    (env : Env) (s : State) (w : ResponseWriter) (text : String)
    → w.status ≡ none
    → w.broken ≡ false
    → env.marshal (map (server_info s.heap) s.pool.servers) ≡ some text
    → ((get_servers_handler env "GET" s w).status ≡ some 200)
      × ((get_servers_handler env "GET" s w).sent_header ≡ w.header)
unfolding get_servers_handler write write_header header_set
get_servers_handler-header env s w text e b m = ground (arith, m)
