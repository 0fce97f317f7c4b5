-- ===== src/Console/Meaning.antt =====
-- admin_app/main.go and main.go: what each command of the console is meant to do to the load balancer,
-- as specification, and how a request of the console comes to it.
use bduts.Prelude.{◌≡◌, inr, String, Bool, false, List, [], ◌∷◌, Option, none, some}
use bduts.Prelude.Int.{ℤ}
use bduts.Prelude.Go.{ret, panic, ◌>>=◌}
use bduts.Http.{Request, ResponseWriter}
use bduts.Cache.Disk.{Bytes}
use bduts.Cache.Bolt.{Bolt}
use bduts.Cache.Store.{Codec}
use bduts.Lb.Admin.{
  AddForm, RemoveForm, Decoded, Env, add_server_post, remove_server_delete, clear_cache_handler,
}
use bduts.Mail.{Letter}
use bduts.Auth.{Trust, Service}
use bduts.Auth.Handlers.{sign_up, sign_in, change_password_handler, delete_user_handler}
use bduts.Main.{Arrival, Decoders, System, replied, Moment, Outcome, pooled, counted, emptied}
use bduts.Console.{
  Flags, Form, add_form, remove_form, sign_in_form, sign_up_form, change_form, Command,
  help_command, add_command, remove_command, sign_in_command, sign_up_command, change_command,
  delete_command, clear_command, no_command, Outgoing, Client,
}

-- The paths of the commands
abbrev pub paths : List String
paths =
    "/serverPool/add" ∷ "/serverPool/remove" ∷ "/admin/signin" ∷ "/admin/signup" ∷ "/admin/password"
    ∷ "/admin" ∷ "/admin/clear" ∷ []

abbrev pub added : Option Bytes → Bytes
added none = []
added (some username) = username

-- The request at the server: `path_of` gives a URL's path, and `base` is what the client's library
-- puts in.
abbrev pub arrival : (String → String) → Request → Outgoing → Arrival
arrival path_of base o = record {
  request = record base { method = o.method; header = o.header };
  path = path_of o.url;
  username = added o.username;
  content = o.content;
}

abbrev pub add_of : String → ℤ → ℤ → Decoded AddForm
add_of url timeout max = record {
  form = record { url = url; health_check_tcp_timeout = timeout; maximal_requests = max };
  failed = false;
}

abbrev pub remove_of : String → Decoded RemoveForm
remove_of url = record { form = record { url = url }; failed = false }

-- The server reads a form that the console wrote.
abbrev pub Reads : Decoders → String → Form → Type 0
Reads d text (add_form url timeout max) = d.add_form text ≡ add_of url timeout max
Reads d text (remove_form url) = d.remove_form text ≡ remove_of url
Reads d text (sign_in_form name pass) =
    d.sign_in_user text ≡ inr (record { username = name; password = pass })
Reads d text (sign_up_form name mail) =
    d.sign_up_user text ≡ inr (record { username = name; email = mail })
Reads d text (change_form old new confirm) =
    d.change_password_user text
    ≡ inr (record { old_password = old; new_password = new; new_password_confirm = confirm })

abbrev pub ReadsForms : Decoders → Client → Type 0
ReadsForms d client = (x : Form) (text : String) → client.marshal x ≡ some text → Reads d text x

module _ {Db Udb : Type 0} (bolt : Bolt Db) (codec : Codec) (users : Bolt Udb) (env : Env)
    (trust : Trust) (decoders : Decoders) (deliver : Letter → Bool) (hash : String → Bytes)
    (svc : Service) (m : Moment) (sys : System Db Udb) (f : Flags) where
  -- What a command is meant to do: the handler that it is for, past its check of the method
  abbrev pub meant :
      Option Bytes
      → Command
      → ResponseWriter
      → Outcome bolt codec users env trust decoders deliver hash svc
  meant caller add_command w =
      add_server_post env (add_of f.add f.timeout f.max_req) sys.state w
      >>= pooled bolt codec users env trust decoders deliver hash svc sys
  meant caller remove_command w =
      pooled bolt codec users env trust decoders deliver hash svc sys
        (remove_server_delete env (remove_of f.remove) sys.state w)
  meant caller sign_in_command w = ret (
    sys,
    replied (
        sign_in users trust deliver svc m.now "POST"
          (inr (record { username = f.login; password = f.password })) sys.accounts.db w),
  )
  meant caller sign_up_command w =
      counted bolt codec users env trust decoders deliver hash svc sys (
        sign_up users trust deliver svc m.draws "POST"
          (inr (record { username = f.login; email = f.email })) sys.accounts w)
  meant caller change_command w = counted bolt codec users env trust decoders deliver hash svc sys (
      change_password_handler users trust deliver svc m.draws "PATCH"
        (inr (record {
          old_password = f.old_pass;
          new_password = f.new_pass;
          new_password_confirm = f.confirm;
        }))
        caller sys.accounts w)
  meant caller delete_command w =
      counted bolt codec users env trust decoders deliver hash svc sys
        (delete_user_handler users trust deliver svc "DELETE" f.login sys.accounts w)
  meant caller clear_command w =
      emptied bolt codec users env trust decoders deliver hash svc sys
        (clear_cache_handler bolt codec "DELETE" sys.cache w)
  meant caller help_command w = panic
  meant caller no_command w = panic
