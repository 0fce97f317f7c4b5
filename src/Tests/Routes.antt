-- ===== src/Tests/Routes.antt =====
-- The theorems on the routes and on the console, for single requests.
use Prim.Native.String.{String as Text}
use bduts.Prelude.{
  ℕ, zero, suc, ◌≡◌, refl, ap, sym, inl, inr, String, true, false, [], ◌∷◌, Option, none, some, All,
  arith, ◌⊎◌, if◌then◌else◌,
}
use bduts.Prelude.Int.{pos, ◌+ℤ◌, ◌-ℤ◌}
use bduts.Prelude.Go.{ret}
use bduts.Http.{Response, fresh_writer, ◌^^◌}
use bduts.Cache.Disk.{Bytes}
use bduts.Cache.Directives.{header_get}
use bduts.Text.{split}
use bduts.Auth.{access, access_of, key_of, refused, granted}
use bduts.Main.{
  sign_in_route, front_route, Arrival, Decoders, System, replied, Moment, cors_headers, route,
  serve,
}
use bduts.Main.Guarding.{is_guarded, turned_away, serve-refused}
use bduts.Console.{
  Flags, Form, add_form, remove_form, sign_in_form, sign_up_form, change_form, remove_command,
  Outgoing, Client, plain_request, form, outgoing, command,
}
use bduts.Console.Handling.{request, handle_args}
use bduts.Console.Meaning.{paths, arrival, remove_of, ReadsForms, meant}
use bduts.Console.Sending.{request-meant}
use bduts.Console.Exits.{is_success, exit_after, handle_args-exit_code}
use bduts.Http.{ResponseWriter}
use bduts.Tests.Data.{three, page_request, reply}
use bduts.Tests.Admins.{env}
use bduts.Tests.Store.{Buckets, bolt}
use bduts.Tests.Codecs.{codec}
use bduts.Tests.Caches.{empty_cache, key}
use bduts.Tests.Trusts.{admin, noon, trust, draws, svc}
use bduts.Tests.Admission.{delivers, nobody}

abbrev whole : System Buckets Buckets
whole = record { state = three; cache = empty_cache; accounts = nobody }

abbrev moment : Moment
moment = record { draws = draws; now = noon; loaded = noon; answers = [] }

-- It reads the URL of a server that is to be removed, as it stands.
abbrev decoders : Decoders
decoders = record {
  add_form = λ text. record {
    form = record { url = ""; health_check_tcp_timeout = pos 0; maximal_requests = pos 0 };
    failed = true;
  };
  remove_form = remove_of;
  sign_up_user = λ text. inl "EOF";
  sign_in_user = λ text. inl "EOF";
  change_password_user = λ text. inl "EOF";
}

abbrev hash : String → Bytes
hash text = key

-- Somebody clears the cache without a token.
abbrev stranger : Arrival
stranger = record {
  request = record page_request { method = "DELETE" };
  path = "/admin/clear";
  username = [];
  content = "";
}

stranger_refused : access trust svc.sign_key moment.now stranger.request.header ≡ refused 401
unfolding access header_get
stranger_refused = refl

serve-refused_example :
    let served =
      serve bolt codec bolt env trust decoders delivers hash svc moment stranger whole
        fresh_writer in
    ((is_guarded (route stranger.path) ≡ true)
      × (served
          ≡ ret (
            whole,
            replied (
                turned_away bolt codec bolt env trust decoders delivers hash svc moment stranger
                  whole 401 fresh_writer),
          )))
    ⊎ (((route stranger.path ≡ sign_in_route)
          × (w' : ResponseWriter) × (served ≡ ret (whole, replied w')))
        ⊎ (route stranger.path ≡ front_route))
serve-refused_example =
    serve-refused bolt codec bolt env trust decoders delivers hash svc moment stranger whole 401
      stranger_refused fresh_writer

abbrev flags : Flags
flags = record {
  help = false;
  host = "h";
  token = "token";
  add = "";
  timeout = pos 2000;
  max_req = pos 1;
  remove = "http://a";
  sign_in = false;
  login = [];
  password = [];
  sign_up = false;
  email = [];
  change = false;
  old_pass = [];
  new_pass = [];
  confirm = [];
  del_user = false;
  clear = false;
}

abbrev removal_text : Form → Option String
removal_text (remove_form url) = some url
removal_text _ = none

abbrev client : Client
client = record { marshal = removal_text; is_url = λ url. true }

abbrev text_of : String → Option String → String
text_of url none = url
text_of url (some text) = text

client-ReadsForms : ReadsForms decoders client
client-ReadsForms (remove_form url) text e = ap remove_of (sym (ap (text_of url) e))
client-ReadsForms (add_form url timeout max) text e = absurd (ground (arith, e))
client-ReadsForms (sign_in_form name pass) text e = absurd (ground (arith, e))
client-ReadsForms (sign_up_form name mail) text e = absurd (ground (arith, e))
client-ReadsForms (change_form old new confirm) text e = absurd (ground (arith, e))

abbrev rest_of : ℕ → Text → Text
rest_of zero s = s
rest_of (suc n) Text.[] = ""
rest_of (suc n) (Text.◌∷◌ c s) = rest_of n s

abbrev path_of : String → String
path_of url = rest_of 9 url

flags_hosted : All (λ p. path_of ("https://" ^^ (flags.host ^^ p)) ≡ p) paths
flags_hosted = (refl, (refl, (refl, (refl, (refl, (refl, (refl, tt)))))))

flags_granted :
    access trust svc.sign_key moment.now (("Authorization", ("Bearer " ^^ "token") ∷ []) ∷ [])
    ≡ granted (some admin)
unfolding access header_get split access_of key_of ◌+ℤ◌ ◌-ℤ◌
flags_granted = refl

flags_sent :
    request client flags remove_command
    ≡ inr (plain_request flags "DELETE" "/serverPool/remove" "http://a")
unfolding request form outgoing
flags_sent = refl

request-meant_example :
    serve bolt codec bolt env trust decoders delivers hash svc moment
      (arrival path_of page_request (plain_request flags "DELETE" "/serverPool/remove" "http://a"))
      whole
      fresh_writer
    ≡ meant bolt codec bolt env trust decoders delivers hash svc moment whole flags
        (some admin)
        remove_command
        (cors_headers fresh_writer)
request-meant_example =
    request-meant bolt codec bolt env trust decoders delivers hash svc moment whole flags client
      path_of page_request client-ReadsForms flags_hosted (some admin) flags_granted fresh_writer
      remove_command (plain_request flags "DELETE" "/serverPool/remove" "http://a") flags_sent

flags_chosen :
    request client flags (command flags)
    ≡ inr (plain_request flags "DELETE" "/serverPool/remove" "http://a")
unfolding command request form outgoing
flags_chosen = refl

abbrev unavailable : Outgoing → Option Response
unavailable o = some (reply 503)

handle_args-exit_code_example :
    (handle_args client unavailable flags).exit_code
    ≡ (if is_success (reply 503) then 0 else exit_after (command flags))
handle_args-exit_code_example =
    handle_args-exit_code client unavailable flags
      (plain_request flags "DELETE" "/serverPool/remove" "http://a") (reply 503) flags_chosen refl
