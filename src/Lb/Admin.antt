-- ===== src/Lb/Admin.antt =====
-- lb/adminHandlers.go: the admin's requests on the server pool and the cache.
pub mod Adding
pub mod Removing
pub mod Listing
pub mod Clearing
use bduts.Prelude.{
  ℕ, suc, ◌%◌, ◌/◌, String, str_eq, Bool, true, false, List, map, Option, none, some, if◌then◌else◌,
}
use bduts.Prelude.Int.{ℤ, pos, negsuc, leb_ℤ, int32, int64, sub_ℕ, pos_part, neg_part}
use bduts.Prelude.Go.{Go, ret, panic, ◌>>=◌}
use bduts.Http.{Url, ResponseWriter, write, write_header, http_error, header_set}
use bduts.Backend.{
  ServerConfig, Backend, new_backend_config, health_check, maximal_requests, millisecond,
}
use bduts.ServerPool.{
  Heap, ServerPool, store, url_at, add_server, find_server_by_url, remove_server_by_url,
}
use bduts.ServerPool.Steps.{State}
use bduts.Cache.Bolt.{Bolt}
use bduts.Cache.Store.{Codec, CachingProperties}
use bduts.Cache.Whole.{clear_cache}

pub record AddForm : Type 0 where
  pub url : String
  pub health_check_tcp_timeout : ℤ
  pub maximal_requests : ℤ

pub record RemoveForm : Type 0 where
  pub url : String

-- What json.Decode leaves in the form, and whether it returned an error; a failed decoding may
-- have filled some of the fields.
pub record Decoded (A : Type 0) : Type 0 where
  pub form : A
  pub failed : Bool

abbrev pub complain : {A : Type 0} → Decoded A → ResponseWriter → ResponseWriter
complain d rw = if d.failed then http_error "Couldn't parse JSON" 400 rw else rw

-- x % (1 << 31) on a Go int, whose sign is that of x
abbrev pub rem_int31 : ℤ → ℤ
rem_int31 x = sub_ℕ (pos_part x % 2147483648) (neg_part x % 2147483648)

pub record ServerInfo : Type 0 where
  pub url : String
  pub health_check_tcp_timeout : ℤ
  pub maximal_requests : ℕ
  pub alive : Bool

-- What the handlers use of the world: url.Parse, the dial of the health check, http.ServeFile and
-- json.Marshal of the list of servers.
pub record Env : Type 0 where
  pub parse : String → Option Url
  pub dial : String → ℤ → Bool
  pub serve_file : String → ResponseWriter → ResponseWriter
  pub marshal : List ServerInfo → Option String

-- time.Duration.Milliseconds
abbrev pub milliseconds : ℤ → ℤ
milliseconds (pos n) = pos (n / 1000000)
milliseconds (negsuc n) = sub_ℕ 0 (suc n / 1000000)

unfoldable pub server_info : Heap → ℕ → ServerInfo
server_info h r = record {
  url = url_at h r;
  health_check_tcp_timeout = milliseconds (h.cell r).health_check_tcp_timeout;
  maximal_requests = maximal_requests (h.cell r);
  alive = (h.cell r).alive;
}

module _ (env : Env) where
  open env use {parse, dial, serve_file, marshal}

  -- lb.pool.AddServer(b), lb.healthCheckFunc(b), and the answer
  unfoldable pub enroll : Backend → State → ResponseWriter → State × ResponseWriter
  enroll b s rw =
      let (h, p) = add_server b s.heap s.pool in
      (
        record { heap = store h s.heap.next (health_check dial (h.cell s.heap.next)); pool = p },
        (write "Success!" rw).0,
      )

  -- The case http.MethodPost of AddServerHandler
  unfoldable pub add_server_post :
      Decoded AddForm → State → ResponseWriter → Go (State × ResponseWriter)
  unfolding enroll
  add_server_post d s rw =
      let add = d.form in
      let rw' = complain d rw in
      elim (find_server_by_url add.url s.heap s.pool.servers) [
        | some _ ↦ ret (s, http_error "Server already exists" 412 rw')
        | none ↦
            if leb_ℤ add.health_check_tcp_timeout (pos 0)
            then ret (s, http_error "Bad Request: timeout is below zero or equal" 400 rw')
            else if leb_ℤ add.maximal_requests (pos 0)
            then ret (s, http_error "Bad Request: maxReq is below zero or equal" 400 rw')
            else do
              b ← new_backend_config parse (record {
                url = add.url;
                health_check_tcp_timeout = add.health_check_tcp_timeout;
                maximal_requests = int32 (rem_int31 add.maximal_requests);
              })
              elim b [
                | none ↦ ret (s, http_error "Bad URL" 400 rw')
                | some b ↦ ret (enroll b s rw')
              ]
      ]

  unfoldable pub add_server_handler :
      String → Decoded AddForm → State → ResponseWriter → Go (State × ResponseWriter)
  unfolding add_server_post
  add_server_handler method d s rw =
      if str_eq method "POST"
      then add_server_post d s rw
      else if str_eq method "GET"
      then ret (s, serve_file "views/add.html" rw)
      else ret (s, http_error "Only POST and GET requests are supported" 405 rw)

  -- The case http.MethodDelete of RemoveServerHandler
  unfoldable pub remove_server_delete :
      Decoded RemoveForm → State → ResponseWriter → State × ResponseWriter
  remove_server_delete d s rw =
      let rw' = complain d rw in
      let (p, err) = remove_server_by_url d.form.url s.heap s.pool in
      elim err [
        | some _ ↦ (record s { pool = p }, http_error "Server doesn't exist" 404 rw')
        | none ↦ (record s { pool = p }, (write "Success!" rw').0)
      ]

  unfoldable pub remove_server_handler :
      String → Decoded RemoveForm → State → ResponseWriter → State × ResponseWriter
  unfolding remove_server_delete
  remove_server_handler method d s rw =
      if str_eq method "DELETE"
      then remove_server_delete d s rw
      else if str_eq method "GET"
      then (s, serve_file "views/remove.html" rw)
      else (s, http_error "Only DELETE and GET requests are supported" 405 rw)

  listed : ResponseWriter × Bool → ResponseWriter
  listed (rw, true) = header_set "Content-Type" "application/json; charset=utf-8" rw
  listed (rw, false) = http_error "Internal Server Error" 500 rw

  unfoldable pub get_servers_handler : String → State → ResponseWriter → ResponseWriter
  unfolding listed server_info
  get_servers_handler method s rw =
      if str_eq method "GET"
      then (elim (marshal (map (server_info s.heap) s.pool.servers)) [
        | none ↦ http_error "Internal Server Error: json" 500 rw
        | some text ↦ listed (write text rw)
      ])
      else http_error "Only GET requests are supported" 405 rw

-- The status 204 that follows the status 500 is superfluous: the first one counts.
unfoldable pub clear_cache_handler :
    {Db : Type 0}
    → Bolt Db
    → Codec
    → String
    → CachingProperties Db
    → ResponseWriter
    → CachingProperties Db × ResponseWriter
unfolding write_header
clear_cache_handler bolt codec method c rw =
    let (c', e) = clear_cache bolt codec c in
    if str_eq method "DELETE"
    then (c', write_header 204 (elim e [ none ↦ rw | some _ ↦ write_header 500 rw ]))
    else (c, http_error "Only DELETE requests are supported" 405 rw)
