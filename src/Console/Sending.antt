-- ===== src/Console/Sending.antt =====
-- admin_app/main.go against main.go: the console's requests at the load balancer.
use bduts.Prelude.{
  ◌≡◌, refl, subst, ap, ◌∙◌, inl, inr, String, str_eq, Bool, false, [], Option, Option-cases, none,
  some, All, arith,
}
use bduts.Prelude.Go.{ret, ◌>>=◌}
use bduts.Http.{Request, ResponseWriter, ◌^^◌}
use bduts.Cache.Disk.{Bytes}
use bduts.Cache.Bolt.{Bolt}
use bduts.Cache.Store.{Codec}
use bduts.Lb.Admin.{
  Env, add_server_handler, add_server_post, remove_server_handler, remove_server_delete,
}
use bduts.Mail.{Letter}
use bduts.Auth.{Trust, Service, access, granted, authentication_middleware}
use bduts.Auth.Handlers.{sign_up, sign_in, change_password_handler}
use bduts.Main.{
  Route, add_route, remove_route, password_route, sign_up_route, user_route, clear_route, route,
  Arrival, Decoders, System, replied, cors_headers, cors, Moment, guarded, handler, handle, serve,
  Outcome, pooled, counted,
}
use bduts.Console.{
  Flags, add_form, remove_form, sign_in_form, sign_up_form, change_form, Command, help_command,
  add_command, remove_command, sign_in_command, sign_up_command, change_command, delete_command,
  clear_command, no_command, Outgoing, Client, bearer_header, form, outgoing, plain_request,
}
use bduts.Console.Handling.{marshalled, created, request}
use bduts.Console.Meaning.{paths, arrival, ReadsForms, meant}

module _ {Db Udb : Type 0} (bolt : Bolt Db) (codec : Codec) (users : Bolt Udb) (env : Env)
    (trust : Trust) (decoders : Decoders) (deliver : Letter → Bool) (hash : String → Bytes)
    (svc : Service) (m : Moment) (sys : System Db Udb) (f : Flags) where
  abbrev served :
      Arrival → ResponseWriter → Outcome bolt codec users env trust decoders deliver hash svc
  served a w = serve bolt codec users env trust decoders deliver hash svc m a sys w

  abbrev handled :
      Arrival
      → Route
      → Option Bytes
      → ResponseWriter
      → Outcome bolt codec users env trust decoders deliver hash svc
  handled a r caller w =
      handler bolt codec users env trust decoders deliver hash svc m a sys r caller w

  guarded-granted :
      (a : Arrival) (r : Route) (caller : Option Bytes) (w : ResponseWriter)
      → str_eq a.request.method "OPTIONS" ≡ false
      → access trust svc.sign_key m.now a.request.header ≡ granted caller
      → guarded bolt codec users env trust decoders deliver hash svc m a sys
          (handler bolt codec users env trust decoders deliver hash svc m a sys r)
          w
        ≡ handled a r caller (cors_headers w)
  unfolding guarded cors authentication_middleware
  guarded-granted a r caller w real good = rw (real, authentication_middleware, good) refl

  module _ (client : Client) (path_of : String → String) (base : Request)
      (law : ReadsForms decoders client)
      (hosted : All (λ p. path_of ("https://" ^^ (f.host ^^ p)) ≡ p) paths) (caller : Option Bytes)
      (good : access trust svc.sign_key m.now (bearer_header f) ≡ granted caller)
      (w : ResponseWriter) where
    created_lem : (x : Option Outgoing) (o : Outgoing) → created client x ≡ inr o → x ≡ some o
    created_lem none o e = ground (arith, e)
    created_lem (some x) o e = ground (arith, e)

    request_lem :
        (cmd : Command) (o : Outgoing)
        → request client f cmd ≡ inr o
        → (text : String) × (marshalled client (form f cmd) ≡ some text)
          × (outgoing f cmd text ≡ some o)
    unfolding request
    request_lem cmd o e = elim (Option-cases (marshalled client (form f cmd))) [
      | inl lost ↦ let bad = (rw (request, lost) at e) in absurd (ground (arith, bad))
      | inr (text, made) ↦
          let good : created client (outgoing f cmd text) ≡ inr o = rw (request, made) at e in
          (text, made, created_lem (outgoing f cmd text) o good)
    ]

    abbrev at : Outgoing → Arrival
    at o = arrival path_of base o

    abbrev add_sent : String → Outgoing
    add_sent text = plain_request f "POST" "/serverPool/add" text

    add_lem :
        (text : String)
        → client.marshal (add_form f.add f.timeout f.max_req) ≡ some text
        → served (at (add_sent text)) w
          ≡ meant bolt codec users env trust decoders deliver hash svc m sys f caller add_command
              (cors_headers w)
    unfolding serve handle handler route add_server_handler
    add_lem text made =
        rw (serve, hosted.0)
          (guarded-granted (at (add_sent text)) add_route caller w refl good
            ∙ ap
                (λ d.
                  add_server_post env d sys.state (cors_headers w)
                  >>= pooled bolt codec users env trust decoders deliver hash svc sys)
                (law (add_form f.add f.timeout f.max_req) text made))

    abbrev remove_sent : String → Outgoing
    remove_sent text = plain_request f "DELETE" "/serverPool/remove" text

    remove_lem :
        (text : String)
        → client.marshal (remove_form f.remove) ≡ some text
        → served (at (remove_sent text)) w
          ≡ meant bolt codec users env trust decoders deliver hash svc m sys f caller remove_command
              (cors_headers w)
    unfolding serve handle handler route remove_server_handler
    remove_lem text made =
        rw (serve, hosted.1.0)
          (guarded-granted (at (remove_sent text)) remove_route caller w refl good
            ∙ ap
                (λ d.
                  pooled bolt codec users env trust decoders deliver hash svc sys
                    (remove_server_delete env d sys.state (cors_headers w)))
                (law (remove_form f.remove) text made))

    abbrev sign_up_sent : String → Outgoing
    sign_up_sent text = plain_request f "POST" "/admin/signup" text

    sign_up_lem :
        (text : String)
        → client.marshal (sign_up_form f.login f.email) ≡ some text
        → served (at (sign_up_sent text)) w
          ≡ meant bolt codec users env trust decoders deliver hash svc m sys f caller
              sign_up_command
              (cors_headers w)
    unfolding serve handle handler route
    sign_up_lem text made =
        rw (serve, hosted.1.1.1.0)
          (guarded-granted (at (sign_up_sent text)) sign_up_route caller w refl good
            ∙ ap
                (λ d.
                  counted bolt codec users env trust decoders deliver hash svc sys (
                    sign_up users trust deliver svc m.draws "POST" d sys.accounts (cors_headers w)))
                (law (sign_up_form f.login f.email) text made))

    abbrev change_sent : String → Outgoing
    change_sent text = plain_request f "PATCH" "/admin/password" text

    change_lem :
        (text : String)
        → client.marshal (change_form f.old_pass f.new_pass f.confirm) ≡ some text
        → served (at (change_sent text)) w
          ≡ meant bolt codec users env trust decoders deliver hash svc m sys f caller change_command
              (cors_headers w)
    unfolding serve handle handler route
    change_lem text made =
        rw (serve, hosted.1.1.1.1.0)
          (guarded-granted (at (change_sent text)) password_route caller w refl good
            ∙ ap
                (λ d. counted bolt codec users env trust decoders deliver hash svc sys (
                  change_password_handler users trust deliver svc m.draws "PATCH" d caller
                    sys.accounts (cors_headers w)))
                (law (change_form f.old_pass f.new_pass f.confirm) text made))

    abbrev sign_in_sent : String → Outgoing
    sign_in_sent text = record (plain_request f "POST" "/admin/signin" text) { header = [] }

    sign_in_lem :
        (text : String)
        → client.marshal (sign_in_form f.login f.password) ≡ some text
        → served (at (sign_in_sent text)) w
          ≡ meant bolt codec users env trust decoders deliver hash svc m sys f caller
              sign_in_command
              (cors_headers w)
    unfolding serve handle handler route cors
    sign_in_lem text made =
        rw (serve, hosted.1.1.0)
          (ap
            (λ d. ret (
              sys,
              replied
                  (sign_in users trust deliver svc m.now "POST" d sys.accounts.db (cors_headers w)),
            ))
            (law (sign_in_form f.login f.password) text made))

    abbrev delete_sent : String → Outgoing
    delete_sent text = record (plain_request f "DELETE" "/admin" text) { username = some f.login }

    delete_lem :
        (text : String)
        → served (at (delete_sent text)) w
          ≡ meant bolt codec users env trust decoders deliver hash svc m sys f caller delete_command
              (cors_headers w)
    unfolding serve handle handler route
    delete_lem text =
        rw (serve, hosted.1.1.1.1.1.0)
          (guarded-granted (at (delete_sent text)) user_route caller w refl good)

    abbrev clear_sent : String → Outgoing
    clear_sent text = plain_request f "DELETE" "/admin/clear" text

    clear_lem :
        (text : String)
        → served (at (clear_sent text)) w
          ≡ meant bolt codec users env trust decoders deliver hash svc m sys f caller clear_command
              (cors_headers w)
    unfolding serve handle handler route
    clear_lem text =
        rw (serve, hosted.1.1.1.1.1.1.0)
          (guarded-granted (at (clear_sent text)) clear_route caller w refl good)

    abbrev sent_or : Outgoing → Option Outgoing → Outgoing
    sent_or x none = x
    sent_or x (some o) = o

    -- The request is the one that was expected.
    arrived :
        (x o : Outgoing) (cmd : Command)
        → some x ≡ some o
        → served (at x) w
          ≡ meant bolt codec users env trust decoders deliver hash svc m sys f caller cmd
              (cors_headers w)
        → served (at o) w
          ≡ meant bolt codec users env trust decoders deliver hash svc m sys f caller cmd
              (cors_headers w)
    arrived x o cmd e done =
        subst
          (λ o.
            served (at o) w
            ≡ meant bolt codec users env trust decoders deliver hash svc m sys f caller cmd
                (cors_headers w))
          (ap (sent_or x) e) done

    outgoing-meant :
        (cmd : Command) (text : String) (o : Outgoing)
        → marshalled client (form f cmd) ≡ some text
        → outgoing f cmd text ≡ some o
        → served (at o) w
          ≡ meant bolt codec users env trust decoders deliver hash svc m sys f caller cmd
              (cors_headers w)
    unfolding form outgoing
    outgoing-meant add_command text o made e =
        arrived (add_sent text) o add_command e (add_lem text made)
    outgoing-meant remove_command text o made e =
        arrived (remove_sent text) o remove_command e (remove_lem text made)
    outgoing-meant sign_in_command text o made e =
        arrived (sign_in_sent text) o sign_in_command e (sign_in_lem text made)
    outgoing-meant sign_up_command text o made e =
        arrived (sign_up_sent text) o sign_up_command e (sign_up_lem text made)
    outgoing-meant change_command text o made e =
        arrived (change_sent text) o change_command e (change_lem text made)
    outgoing-meant delete_command text o made e =
        arrived (delete_sent text) o delete_command e (delete_lem text)
    outgoing-meant clear_command text o made e =
        arrived (clear_sent text) o clear_command e (clear_lem text)
    outgoing-meant help_command text o made e = absurd (ground (arith, e))
    outgoing-meant no_command text o made e = absurd (ground (arith, e))

    -- The request of every command of the console, when it arrives at the load balancer, does what
    -- the command is for: it reaches the handler of the command past its test of the method, with
    -- the forms that the flags describe, in the name of the token's user. The token must be
    -- accepted, the host must leave the paths as they are, and the load balancer must read the
    -- forms that the console wrote.
    pub request-meant :
        (cmd : Command) (o : Outgoing)
        → request client f cmd ≡ inr o
        → serve bolt codec users env trust decoders deliver hash svc m
            (arrival path_of base o)
            sys
            w
          ≡ meant bolt codec users env trust decoders deliver hash svc m sys f caller cmd
              (cors_headers w)
    request-meant cmd o e =
        let (text, made, sent) = request_lem cmd o e in outgoing-meant cmd text o made sent
