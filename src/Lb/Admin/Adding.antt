-- ===== src/Lb/Admin/Adding.antt =====
-- lb/adminHandlers.go, AddServerHandler: when a server is added, and as what.
use bduts.Prelude.{
  ℕ, suc, ◌*◌, ◌%◌, ◌≡◌, refl, ◌∙◌, ◌⊎◌, inl, inr, String, true, false, [], ◌∷◌, ◌++◌, Option, none,
  some, arith, Bool-cases, Option-cases,
}
use bduts.Prelude.Int.{ℤ, pos, negsuc, leb_ℤ, int32, int32_exact, int64, ◌*ℤ◌, ◌≤ℤ◌, ◌<ℤ◌, pos_part}
use bduts.Prelude.Go.{ret}
use bduts.Http.{Url, ResponseWriter, http_error, header_set, write_header, write}
use bduts.Backend.{
  ServerConfig, Backend, new_backend_config, millisecond, health_check, maximal_requests,
}
use bduts.ServerPool.{alive_at, add_server, find_server_by_url}
use bduts.ServerPool.Steps.{State}
use bduts.Lb.Admin.{AddForm, Decoded, complain, rem_int31, Env, enroll, add_server_post}

-- The backend that a form describes.
abbrev pub described : Url → AddForm → Backend
described u form = record {
  url = u;
  health_check_tcp_timeout = int64 (form.health_check_tcp_timeout *ℤ millisecond);
  alive = false;
  request_chan = record { cap = pos_part form.maximal_requests % 2147483648; queued = 0 };
}

rem_positive : (z : ℤ) → pos 0 <ℤ z → int32 (rem_int31 z) ≡ pos (pos_part z % 2147483648)
rem_positive (pos n) h = ground (arith, int32_exact (rem_int31 (pos n)))
rem_positive (negsuc n) h = absurd (omega arith)

-- The configuration that a form is turned into.
abbrev submitted : AddForm → ServerConfig
submitted form = record {
  url = form.url;
  health_check_tcp_timeout = form.health_check_tcp_timeout;
  maximal_requests = int32 (rem_int31 form.maximal_requests);
}

above_zero : (z : ℤ) → pos 0 <ℤ z → leb_ℤ z (pos 0) ≡ false
above_zero z h = ground arith

above_of_false : (z : ℤ) → leb_ℤ z (pos 0) ≡ false → pos 0 <ℤ z
above_of_false z h = ground arith

below_of_true : (z : ℤ) → leb_ℤ z (pos 0) ≡ true → z ≤ℤ pos 0
below_of_true z h = ground arith

new_backend_config_at :
    (parse : String → Option Url) (server : ServerConfig) (u : Url) (n : ℕ)
    → parse server.url ≡ some u
    → server.maximal_requests ≡ pos n
    → new_backend_config parse server
      ≡ ret (
          some (record {
            url = u;
            health_check_tcp_timeout = int64 (server.health_check_tcp_timeout *ℤ millisecond);
            alive = false;
            request_chan = record { cap = n; queued = 0 };
          }))
unfolding new_backend_config
new_backend_config_at parse server u n e k = ground arith

new_backend_config_parsed :
    (parse : String → Option Url) (form : AddForm) (u : Url)
    → parse form.url ≡ some u
    → pos 0 <ℤ form.maximal_requests
    → new_backend_config parse (submitted form) ≡ ret (some (described u form))
new_backend_config_parsed parse form u e h =
    new_backend_config_at parse (submitted form) u _ e (rem_positive form.maximal_requests h)

new_backend_config_unparsed :
    (parse : String → Option Url) (server : ServerConfig)
    → parse server.url ≡ none
    → new_backend_config parse server ≡ ret none
unfolding new_backend_config
new_backend_config_unparsed parse server e = rw (e, new_backend_config) refl

module _ (env : Env) (d : Decoded AddForm) (s : State) (w : ResponseWriter) where
  -- Why a form is refused.
  pub data Refusal : Type 0 where
    exists : (v : ℕ) → find_server_by_url d.form.url s.heap s.pool.servers ≡ some v → Refusal
    bad_timeout : d.form.health_check_tcp_timeout ≤ℤ pos 0 → Refusal
    bad_limit : d.form.maximal_requests ≤ℤ pos 0 → Refusal
    bad_url : env.parse d.form.url ≡ none → Refusal

  abbrev pub answer : Refusal → ResponseWriter
  answer (exists v e) = http_error "Server already exists" 412 (complain d w)
  answer (bad_timeout h) =
      http_error "Bad Request: timeout is below zero or equal" 400 (complain d w)
  answer (bad_limit h) = http_error "Bad Request: maxReq is below zero or equal" 400 (complain d w)
  answer (bad_url e) = http_error "Bad URL" 400 (complain d w)

  pub record Acceptance (u : Url) : Type 0 where
    pub fresh : find_server_by_url d.form.url s.heap s.pool.servers ≡ none
    pub timeout : pos 0 <ℤ d.form.health_check_tcp_timeout
    pub limit : pos 0 <ℤ d.form.maximal_requests
    pub parsed : env.parse d.form.url ≡ some u

  pub accepted :
      (u : Url)
      → Acceptance u
      → add_server_post env d s w ≡ ret (enroll env (described u d.form) s (complain d w))
  unfolding add_server_post
  accepted u a =
      let t = above_zero d.form.health_check_tcp_timeout a.timeout in
      let m = above_zero d.form.maximal_requests a.limit in
      let b = new_backend_config_parsed env.parse d.form u a.parsed a.limit in
      ground (arith, a.fresh, t, m, b)

  -- AddServerHandler's POST, on every form: it is refused for one of four reasons with the answer
  -- of that reason, and heap and pool stay; or the form passes all four tests, and the backend
  -- that it describes is added and checked and the answer is written, after the complaint about
  -- the JSON if there is one. It does not panic.
  pub add_server_post_cases :
      ((r : Refusal) × (add_server_post env d s w ≡ ret (s, answer r)))
      ⊎ ((u : Url) × Acceptance u
          × (add_server_post env d s w ≡ ret (enroll env (described u d.form) s (complain d w))))
  unfolding add_server_post
  add_server_post_cases =
      elim (Option-cases (find_server_by_url d.form.url s.heap s.pool.servers)) [
        | inr (v, e) ↦ inl (exists v e, ground arith)
        | inl fresh ↦ elim (Bool-cases (leb_ℤ d.form.health_check_tcp_timeout (pos 0))) [
          | inl t ↦ inl (bad_timeout (below_of_true _ t), ground arith)
          | inr t ↦ elim (Bool-cases (leb_ℤ d.form.maximal_requests (pos 0))) [
            | inl m ↦ inl (bad_limit (below_of_true _ m), ground arith)
            | inr m ↦ elim (Option-cases (env.parse d.form.url)) [
              | inl p ↦ inl (
                bad_url p,
                ground (arith, new_backend_config_unparsed env.parse (submitted d.form) p),
              )
              | inr (u, p) ↦
                  let a : Acceptance u = record {
                    fresh = fresh;
                    timeout = above_of_false _ t;
                    limit = above_of_false _ m;
                    parsed = p;
                  } in
                  inr (u, a, accepted u a)
            ]
          ]
        ]
      ]

  -- The pool after the POST has the new server under its number, alive exactly if the health check
  -- reaches it, with a limit that is the form's taken modulo 2^31.
  pub enrolled_server :
      (u : Url)
      → let (t, _) = enroll env (described u d.form) s w in
        (t.pool.servers ≡ s.pool.servers ++ s.heap.next ∷ [])
        × (maximal_requests (t.heap.cell s.heap.next)
            ≡ pos_part d.form.maximal_requests % 2147483648)
        × (alive_at t.heap s.heap.next
            ≡ env.dial u.host (int64 (d.form.health_check_tcp_timeout *ℤ millisecond)))
  unfolding enroll add_server health_check maximal_requests
  enrolled_server u = (refl, ground arith, ground arith)

-- A number of requests that is a positive multiple of 2^31 passes the handler's tests, when the
-- URL is new and parses and the timeout is positive, and makes a server whose channel has no place
-- at all.
pub add_server_post-no_places :
    (env : Env) (d : Decoded AddForm) (s : State) (w : ResponseWriter) (u : Url) (k : ℕ)
    → find_server_by_url d.form.url s.heap s.pool.servers ≡ none
    → pos 0 <ℤ d.form.health_check_tcp_timeout
    → d.form.maximal_requests ≡ pos (2147483648 * suc k)
    → env.parse d.form.url ≡ some u
    → (t : State) × (w' : ResponseWriter) × (add_server_post env d s w ≡ ret (t, w'))
      × (t.pool.servers ≡ s.pool.servers ++ s.heap.next ∷ [])
      × (maximal_requests (t.heap.cell s.heap.next) ≡ 0)
add_server_post-no_places env d s w u k fresh timeout e p =
    let limit : pos 0 <ℤ d.form.maximal_requests = rw e (omega arith) in
    let a =
      accepted env d s w u
        (record { fresh = fresh; timeout = timeout; limit = limit; parsed = p }) in
    let (servers, cap, _) = enrolled_server env d s (complain d w) u in
    let none_left : pos_part d.form.maximal_requests % 2147483648 ≡ 0 = rw e (omega arith) in
    (_, _, a, servers, cap ∙ none_left)

complained :
    (d : Decoded AddForm) (w : ResponseWriter)
    → d.failed ≡ true
    → w.status ≡ none
    → (complain d w).status ≡ some 400
unfolding http_error header_set write_header write
complained d w e n = ground arith

success_status :
    (w : ResponseWriter) (code : ℕ)
    → w.status ≡ some code
    → (write "Success!" w).0.status ≡ some code
unfolding write write_header
success_status w code e = ground arith

-- AddServerHandler does not return when the JSON cannot be parsed: if the fields that were decoded
-- pass its tests and nothing was sent yet, the client is sent the status 400 and the server is
-- added all the same.
pub add_server_post-bad_json :
    (env : Env) (d : Decoded AddForm) (s : State) (w : ResponseWriter) (u : Url)
    → d.failed ≡ true
    → w.status ≡ none
    → Acceptance env d s w u
    → (t : State) × (w' : ResponseWriter) × (add_server_post env d s w ≡ ret (t, w'))
      × (w'.status ≡ some 400)
      × (t.pool.servers ≡ s.pool.servers ++ s.heap.next ∷ [])
unfolding enroll
add_server_post-bad_json env d s w u bad fresh a = (
  _,
  _,
  accepted env d s w u a,
  success_status (complain d w) 400 (complained d w bad fresh),
  (enrolled_server env d s (complain d w) u).0,
)
