-- ===== src/Mail.antt =====
-- email/email.go: the sender of letters to the admins. A Go string is its bytes, and the texts of the
-- source are ASCII.
use Prim.Native.String.{String as Text}
use Prim.Native.Char.{code}
use bduts.Prelude.{Bool, true, false, List, [], ◌∷◌, ◌++◌, ◌⊎◌, inl, inr, if◌then◌else◌}
use bduts.Cache.Disk.{Bytes}

unfoldable pub ascii : Text → Bytes
ascii Text.[] = []
ascii (Text.◌∷◌ c s) = code c ∷ ascii s

abbrev pub is_blank : Bytes → Bool
is_blank [] = true
is_blank (x ∷ xs) = false

-- smtp.PlainAuth("", username, password, host)
pub record PlainAuth : Type 0 where
  pub identity : Bytes
  pub username : Bytes
  pub password : Bytes
  pub host : Bytes

pub record Sender : Type 0 where
  pub auth : PlainAuth
  pub from : Bytes
  pub host : Bytes
  pub port : Bytes

pub data SenderError : Type 0 where
  empty_username empty_password empty_host empty_port empty_logger : SenderError

-- New; `has_logger` says that the logger is not nil.
unfoldable pub new_sender : Bytes → Bytes → Bytes → Bytes → Bool → SenderError ⊎ Sender
new_sender username password host port has_logger =
    if is_blank username
    then inl empty_username
    else if is_blank password
    then inl empty_password
    else if is_blank host
    then inl empty_host
    else if is_blank port
    then inl empty_port
    else if has_logger
    then inr (record {
      auth = record { identity = []; username = username; password = password; host = host };
      from = username;
      host = host;
      port = port;
    })
    else inl empty_logger

-- The arguments of smtp.SendMail
pub record Letter : Type 0 where
  pub addr : Bytes
  pub auth : PlainAuth
  pub from : Bytes
  pub to : List Bytes
  pub message : Bytes

abbrev pub line_break : Bytes
line_break = 13 ∷ 10 ∷ []

unfoldable pub letter : Sender → Bytes → Bytes → Bytes → Letter
unfolding ascii
letter s to subject body = record {
  addr = s.host ++ (ascii ":" ++ s.port);
  auth = s.auth;
  from = s.from;
  to = to ∷ [];
  message = ascii "Subject: " ++ (subject ++ (line_break ++ (line_break ++ body)));
}

-- The letters that were handed over, the last one first. `deliver` is whether smtp.SendMail succeeds.
unfoldable pub send_letter :
    (Letter → Bool) → Sender → Bytes → Bytes → Bytes → List Letter → List Letter × Bool
unfolding letter
send_letter deliver s to subject body outbox =
    let l = letter s to subject body in if deliver l then (l ∷ outbox, true) else (outbox, false)

-- msgNewUser with the username and the password in their places
unfoldable pub credentials : Bytes → Bytes → Bytes
unfolding ascii
credentials username password =
    ascii "Your username: "
    ++ (username
        ++ (ascii "\nYour password: "
            ++ (password
                ++ ascii
                    "\n\nPlease log in and change your password.\nBy changing your temporary password, you're helping to ensure that your account is secure and that only you have access to it. It's also an opportunity to choose a password that's easy for you to remember, but difficult for others to guess.")))

unfoldable pub send_sign_up_email :
    (Letter → Bool) → Sender → Bytes → Bytes → Bytes → List Letter → List Letter × Bool
unfolding send_letter credentials ascii
send_sign_up_email deliver s to username password =
    send_letter deliver s to (ascii "Your credentials for BDUTS load balancer")
      (credentials username password)

unfoldable pub send_changed_password_email :
    (Letter → Bool) → Sender → Bytes → List Letter → List Letter × Bool
unfolding send_letter ascii
send_changed_password_email deliver s to =
    send_letter deliver s to (ascii "Your password has been changed") (
      ascii
        "Your password has been changed.\nIf you did not change your password, please contact the administrator.")
