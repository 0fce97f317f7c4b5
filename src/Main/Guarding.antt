-- ===== src/Main/Guarding.antt =====
-- main.go, the routes: what a request without a good token can do.
use bduts.Prelude.{
  ℕ, ◌≡◌, refl, inl, inr, String, str_eq, Bool, Bool-cases, true, false, Option, arith,
  if◌then◌else◌, ◌⊎◌,
}
use bduts.Prelude.Go.{ret}
use bduts.Http.{ResponseWriter, write_header}
use bduts.Cache.Disk.{Bytes}
use bduts.Cache.Bolt.{Bolt}
use bduts.Cache.Store.{Codec}
use bduts.Lb.Admin.{Env}
use bduts.Mail.{Letter}
use bduts.Auth.{Trust, Service, access, refused, authentication_middleware}
use bduts.Main.{
  Route, front_route, add_route, remove_route, servers_route, sign_up_route, password_route,
  sign_in_route, user_route, clear_route, route, Arrival, Decoders, System, replied, cors_headers,
  cors, Moment, guarded, handler, handle, serve, Outcome,
}

-- The routes that main.go puts the authentication in front of
abbrev pub is_guarded : Route → Bool
is_guarded front_route = false
is_guarded sign_in_route = false
is_guarded _ = true

module _ {Db Udb : Type 0} (bolt : Bolt Db) (codec : Codec) (users : Bolt Udb) (env : Env)
    (trust : Trust) (decoders : Decoders) (deliver : Letter → Bool) (hash : String → Bytes)
    (svc : Service) (m : Moment) (a : Arrival) (sys : System Db Udb) where
  abbrev the_handler :
      Route
      → Option Bytes
      → ResponseWriter
      → Outcome bolt codec users env trust decoders deliver hash svc
  the_handler = handler bolt codec users env trust decoders deliver hash svc m a sys

  -- What a request that is turned away is answered
  abbrev pub turned_away : ℕ → ResponseWriter → ResponseWriter
  turned_away code w =
      if str_eq a.request.method "OPTIONS"
      then write_header 200 (cors_headers w)
      else write_header code (cors_headers w)

  -- SignIn only answers.
  sign_in_answers :
      (w : ResponseWriter)
      → (w' : ResponseWriter) × (handle bolt codec users env trust decoders deliver hash svc m a sys
            sign_in_route w
          ≡ ret (sys, replied w'))
  unfolding handle handler cors
  sign_in_answers w = elim (Bool-cases (str_eq a.request.method "OPTIONS")) [
    | inl preflight ↦ rw preflight (_, refl)
    | inr real ↦ rw real (_, refl)
  ]

  module _ (code : ℕ) (bad : access trust svc.sign_key m.now a.request.header ≡ refused code) where
    guarded-refused :
        (next : Option Bytes
          → ResponseWriter
          → Outcome bolt codec users env trust decoders deliver hash svc)
        (w : ResponseWriter)
        → guarded bolt codec users env trust decoders deliver hash svc m a sys next w
          ≡ ret (sys, replied (turned_away code w))
    unfolding guarded cors authentication_middleware
    guarded-refused next w = elim (Bool-cases (str_eq a.request.method "OPTIONS")) [
      | inl preflight ↦ rw preflight refl
      | inr real ↦ rw (real, authentication_middleware, bad) refl
    ]

    handle-refused :
        (r : Route) (w : ResponseWriter)
        → is_guarded r ≡ true
        → handle bolt codec users env trust decoders deliver hash svc m a sys r w
          ≡ ret (sys, replied (turned_away code w))
    unfolding handle
    handle-refused front_route w e = absurd (ground (arith, e))
    handle-refused sign_in_route w e = absurd (ground (arith, e))
    handle-refused add_route w e = guarded-refused (the_handler add_route) w
    handle-refused remove_route w e = guarded-refused (the_handler remove_route) w
    handle-refused servers_route w e = guarded-refused (the_handler servers_route) w
    handle-refused sign_up_route w e = guarded-refused (the_handler sign_up_route) w
    handle-refused password_route w e = guarded-refused (the_handler password_route) w
    handle-refused user_route w e = guarded-refused (the_handler user_route) w
    handle-refused clear_route w e = guarded-refused (the_handler clear_route) w

    handle_cases :
        (r : Route) (w : ResponseWriter)
        → ((is_guarded r ≡ true)
            × (handle bolt codec users env trust decoders deliver hash svc m a sys r w
                ≡ ret (sys, replied (turned_away code w))))
          ⊎ (((r ≡ sign_in_route)
                × (w' : ResponseWriter) × (handle bolt codec users env trust decoders deliver hash
                      svc m a sys r w
                    ≡ ret (sys, replied w')))
              ⊎ (r ≡ front_route))
    handle_cases front_route w = inr (inr refl)
    handle_cases sign_in_route w =
        let (w', answers) = sign_in_answers w in inr (inl (refl, w', answers))
    handle_cases add_route w = inl (refl, handle-refused add_route w refl)
    handle_cases remove_route w = inl (refl, handle-refused remove_route w refl)
    handle_cases servers_route w = inl (refl, handle-refused servers_route w refl)
    handle_cases sign_up_route w = inl (refl, handle-refused sign_up_route w refl)
    handle_cases password_route w = inl (refl, handle-refused password_route w refl)
    handle_cases user_route w = inl (refl, handle-refused user_route w refl)
    handle_cases clear_route w = inl (refl, handle-refused clear_route w refl)

    -- A request that AuthenticationMiddleware refuses, on any route that main.go puts it in front
    -- of, does not panic, leaves the pool, the cache and the accounts as they were, and is
    -- answered by the status of the refusal, or by 200 if its method is OPTIONS. Of the two other
    -- routes, "/admin/signin" also leaves all of them as they were and only answers; "/" is the
    -- balancer.
    pub serve-refused :
        (w : ResponseWriter)
        → let served = serve bolt codec users env trust decoders deliver hash svc m a sys w in
          ((is_guarded (route a.path) ≡ true) × (served ≡ ret (sys, replied (turned_away code w))))
          ⊎ (((route a.path ≡ sign_in_route)
                × (w' : ResponseWriter) × (served ≡ ret (sys, replied w')))
              ⊎ (route a.path ≡ front_route))
    unfolding serve
    serve-refused w = handle_cases (route a.path) w
