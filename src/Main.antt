-- ===== src/Main.antt =====
-- main.go: the routes, with CORS and the authentication in front of the handlers, and the parts that
-- they share.
pub mod Guarding
use bduts.Prelude.{ℕ, String, str_eq, Bool, true, false, List, Option, none, some, if◌then◌else◌}
use bduts.Prelude.Int.{ℤ}
use bduts.Prelude.Go.{Go, ret, panic, ◌>>=◌}
use bduts.Http.{Request, ResponseWriter, write_header, header_set}
use bduts.Cache.Disk.{Bytes}
use bduts.Cache.Bolt.{Bolt, DbError}
use bduts.Cache.Store.{Codec, CachingProperties}
use bduts.Backend.{DoResult}
use bduts.ServerPool.Steps.{State}
use bduts.Lb.Admin.{
  AddForm, RemoveForm, Decoded, Env, add_server_handler, remove_server_handler, get_servers_handler,
  clear_cache_handler,
}
use bduts.Lb.Handler.{Handler, drive}
use bduts.Lb.Front.{Started, answered, forwarded, load_balancer_handler}
use bduts.Mail.{Letter}
use bduts.Auth.{
  SignUpUser, SignInUser, ChangePasswordUser, Trust, Draws, Service, Accounts,
  authentication_middleware,
}
use bduts.Auth.Handlers.{
  Body, sign_up_default_user, sign_up, sign_in, change_password_handler, delete_user_handler,
}

pub data Route : Type 0 where
  front_route add_route remove_route servers_route sign_up_route password_route sign_in_route
        user_route clear_route :
      Route

-- http.DefaultServeMux, for a path that is clean: a pattern without a slash at its end is the path
-- itself, and "/" is all the others.
unfoldable pub route : String → Route
route path =
    if str_eq path "/serverPool/add"
    then add_route
    else if str_eq path "/serverPool/remove"
    then remove_route
    else if str_eq path "/serverPool"
    then servers_route
    else if str_eq path "/admin/signup"
    then sign_up_route
    else if str_eq path "/admin/password"
    then password_route
    else if str_eq path "/admin/signin"
    then sign_in_route
    else if str_eq path "/admin"
    then user_route
    else if str_eq path "/admin/clear"
    then clear_route
    else front_route

-- A request as the server has it: `username` is r.URL.Query().Get("username").
pub record Arrival : Type 0 where
  pub request : Request
  pub path : String
  pub username : Bytes
  pub content : String

-- json.NewDecoder(r.Body).Decode for each form
pub record Decoders : Type 0 where
  pub add_form : String → Decoded AddForm
  pub remove_form : String → Decoded RemoveForm
  pub sign_up_user : String → Body SignUpUser
  pub sign_in_user : String → Body SignInUser
  pub change_password_user : String → Body ChangePasswordUser

-- The pool, the cache, and the accounts with the letters
pub record System (Db Udb : Type 0) : Type 0 where
  pub state : State
  pub cache : CachingProperties Db
  pub accounts : Accounts Udb

-- A handler's answer; or where backendHandler has come to
pub data Served : Type 0 where
  replied : ResponseWriter → Served
  driven : Handler → Served

unfoldable pub cors_headers : ResponseWriter → ResponseWriter
unfolding header_set
cors_headers w = header_set "Access-Control-Expose-Headers" "Authorization" (
    header_set "Access-Control-Allow-Headers" "*" (
      header_set "Access-Control-Allow-Methods" "*"
        (header_set "Access-Control-Allow-Origin" "*" w)))

unfoldable pub cors :
    {R : Type 0} → String → (ResponseWriter → R) → (ResponseWriter → R) → ResponseWriter → R
unfolding cors_headers
cors method done next w =
    if str_eq method "OPTIONS"
    then done (write_header 200 (cors_headers w))
    else next (cors_headers w)

-- What one request meets: the draws, the time, the time that its directives are loaded at, and the
-- answers of the network, one for each step of backendHandler
pub record Moment : Type 0 where
  pub draws : Draws
  pub now : ℤ
  pub loaded : ℤ
  pub answers : List (Request → DoResult)

module _ {Db Udb : Type 0} (bolt : Bolt Db) (codec : Codec) (users : Bolt Udb) (env : Env)
    (trust : Trust) (decoders : Decoders) (deliver : Letter → Bool) (hash : String → Bytes)
    (svc : Service) where
  open decoders use {add_form, remove_form, sign_up_user, sign_in_user, change_password_user}

  abbrev pub Outcome : Type 0
  Outcome = Go (System Db Udb × Served)

  abbrev pub pooled : System Db Udb → State × ResponseWriter → Outcome
  pooled sys (s, w) = ret (record sys { state = s }, replied w)

  abbrev pub counted : System Db Udb → Accounts Udb × ResponseWriter → Outcome
  counted sys (acc, w) = ret (record sys { accounts = acc }, replied w)

  abbrev pub emptied : System Db Udb → CachingProperties Db × ResponseWriter → Outcome
  emptied sys (c, w) = ret (record sys { cache = c }, replied w)

  abbrev pub kept : System Db Udb → Option (CachingProperties Db) → System Db Udb
  kept sys none = sys
  kept sys (some c) = record sys { cache = c }

  -- backendHandler, on the pool that the system has
  abbrev pub forwarded_on : System Db Udb → State × Handler → Outcome
  forwarded_on sys (s, hd) = ret (record sys { state = s }, driven hd)

  abbrev pub balanced :
      List (Request → DoResult) → System Db Udb → Option (CachingProperties Db) × Started → Outcome
  balanced answers sys (c, answered reply w) = ret (kept sys c, replied w)
  balanced answers sys (c, forwarded hd) = forwarded_on (kept sys c) (drive answers sys.state hd)

  -- cors(authSvc.AuthenticationMiddleware(next))
  unfoldable pub guarded :
      Moment
      → Arrival
      → System Db Udb
      → (Option Bytes → ResponseWriter → Outcome)
      → ResponseWriter
      → Outcome
  unfolding cors authentication_middleware
  guarded m a sys next =
      cors a.request.method (λ w. ret (sys, replied w))
        (authentication_middleware trust svc.sign_key m.now a.request.header
          (λ w. ret (sys, replied w)) next)

  -- The handlers, without what stands in front of them; `caller` is the username of the context.
  unfoldable pub handler :
      Moment → Arrival → System Db Udb → Route → Option Bytes → ResponseWriter → Outcome
  unfolding load_balancer_handler drive add_server_handler remove_server_handler get_servers_handler
      clear_cache_handler sign_up sign_in change_password_handler delete_user_handler
  handler m a sys front_route caller w = do
    done ← load_balancer_handler bolt codec hash m.loaded m.now a.request w (some sys.cache)
    balanced m.answers sys done
  handler m a sys add_route caller w =
      add_server_handler env a.request.method (add_form a.content) sys.state w >>= pooled sys
  handler m a sys remove_route caller w =
      pooled sys (remove_server_handler env a.request.method (remove_form a.content) sys.state w)
  handler m a sys servers_route caller w =
      ret (sys, replied (get_servers_handler env a.request.method sys.state w))
  handler m a sys sign_up_route caller w = counted sys (
      sign_up users trust deliver svc m.draws a.request.method (sign_up_user a.content) sys.accounts
        w)
  handler m a sys password_route caller w = counted sys (
      change_password_handler users trust deliver svc m.draws a.request.method
        (change_password_user a.content) caller sys.accounts w)
  handler m a sys sign_in_route caller w = ret (
    sys,
    replied (
        sign_in users trust deliver svc m.now a.request.method (sign_in_user a.content)
          sys.accounts.db w),
  )
  handler m a sys user_route caller w =
      counted sys
        (delete_user_handler users trust deliver svc a.request.method a.username sys.accounts w)
  handler m a sys clear_route caller w =
      emptied sys (clear_cache_handler bolt codec a.request.method sys.cache w)

  unfoldable pub handle : Moment → Arrival → System Db Udb → Route → ResponseWriter → Outcome
  unfolding guarded handler cors
  handle m a sys front_route w = handler m a sys front_route none w
  handle m a sys sign_in_route w =
      cors a.request.method (λ w'. ret (sys, replied w')) (handler m a sys sign_in_route none) w
  handle m a sys add_route w = guarded m a sys (handler m a sys add_route) w
  handle m a sys remove_route w = guarded m a sys (handler m a sys remove_route) w
  handle m a sys servers_route w = guarded m a sys (handler m a sys servers_route) w
  handle m a sys sign_up_route w = guarded m a sys (handler m a sys sign_up_route) w
  handle m a sys password_route w = guarded m a sys (handler m a sys password_route) w
  handle m a sys user_route w = guarded m a sys (handler m a sys user_route) w
  handle m a sys clear_route w = guarded m a sys (handler m a sys clear_route) w

  unfoldable pub serve : Moment → Arrival → System Db Udb → ResponseWriter → Outcome
  unfolding handle route
  serve m a sys w = handle m a sys (route a.path) w
