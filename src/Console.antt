-- ===== src/Console.antt =====
-- admin_app/main.go: the console that sends an admin's commands to the load balancer.
pub mod Handling
pub mod Meaning
pub mod Sending
pub mod Exits
use bduts.Prelude.{
  ℕ, String, str_eq, Bool, true, false, ◌&&◌, not, List, [], ◌∷◌, ◌++◌, ◌⊎◌, inl, inr, Option, none,
  some, leb, ltb, ◌==◌, if◌then◌else◌,
}
use bduts.Prelude.Int.{ℤ}
use bduts.Http.{Header, Response, ◌^^◌, is_empty}
use bduts.Cache.Disk.{Bytes}
use bduts.Cache.Directives.{header_get}

-- The flags, with the values that they have on the command line or by default
pub record Flags : Type 0 where
  pub help : Bool
  pub host : String
  pub token : String
  pub add : String
  pub timeout : ℤ
  pub max_req : ℤ
  pub remove : String
  pub sign_in : Bool
  pub login : Bytes
  pub password : Bytes
  pub sign_up : Bool
  pub email : Bytes
  pub change : Bool
  pub old_pass : Bytes
  pub new_pass : Bytes
  pub confirm : Bytes
  pub del_user : Bool
  pub clear : Bool

-- The structs that json.Marshal is called with
pub data Form : Type 0 where
  add_form : String → ℤ → ℤ → Form
  remove_form : String → Form
  sign_in_form : Bytes → Bytes → Form
  sign_up_form : Bytes → Bytes → Form
  change_form : Bytes → Bytes → Bytes → Form

pub data Command : Type 0 where
  help_command add_command remove_command sign_in_command sign_up_command change_command : Command
  delete_command clear_command no_command : Command

-- A request as http.NewRequest makes it, with the username that is added to its query
pub record Outgoing : Type 0 where
  pub method : String
  pub url : String
  pub username : Option Bytes
  pub header : Header
  pub content : String

-- json.Marshal, and whether http.NewRequest takes a URL
pub record Client : Type 0 where
  pub marshal : Form → Option String
  pub is_url : String → Bool

pub data AnswerError : Type 0 where
  unauthorized : AnswerError
  bad_status : ℕ → String → AnswerError

-- What is printed; errors of the library keep their text to themselves.
pub data Line : Type 0 where
  usage : Line
  plain : String → Line
  failure : String → Line
  response_failure : String → AnswerError → Line

pub record Run : Type 0 where
  pub lines : List Line
  pub exit_code : ℕ

abbrev pub stop : String → ℕ → Run
stop message code = record { lines = failure message ∷ []; exit_code = code }

-- The choice of handleArgs, in its order
unfoldable pub command : Flags → Command
command f =
    if f.help
    then help_command
    else if f.sign_in
    then sign_in_command
    else if not (is_empty f.add)
    then add_command
    else if not (is_empty f.remove)
    then remove_command
    else if f.sign_up
    then sign_up_command
    else if f.change
    then change_command
    else if f.del_user
    then delete_command
    else if f.clear
    then clear_command
    else no_command

abbrev pub bearer_header : Flags → Header
bearer_header f = ("Authorization", ("Bearer " ^^ f.token) ∷ []) ∷ []

-- What a handler sends: the struct of its body, if it has one, and the request around its text
unfoldable pub form : Flags → Command → Option Form
form f add_command = some (add_form f.add f.timeout f.max_req)
form f remove_command = some (remove_form f.remove)
form f sign_in_command = some (sign_in_form f.login f.password)
form f sign_up_command = some (sign_up_form f.login f.email)
form f change_command = some (change_form f.old_pass f.new_pass f.confirm)
form f delete_command = none
form f clear_command = none
form f help_command = none
form f no_command = none

abbrev pub plain_request : Flags → String → String → String → Outgoing
plain_request f method path content = record {
  method = method;
  url = "https://" ^^ (f.host ^^ path);
  username = none;
  header = bearer_header f;
  content = content;
}

unfoldable pub outgoing : Flags → Command → String → Option Outgoing
outgoing f add_command content = some (plain_request f "POST" "/serverPool/add" content)
outgoing f remove_command content = some (plain_request f "DELETE" "/serverPool/remove" content)
outgoing f sign_in_command content =
    some (record (plain_request f "POST" "/admin/signin" content) { header = [] })
outgoing f sign_up_command content = some (plain_request f "POST" "/admin/signup" content)
outgoing f change_command content = some (plain_request f "PATCH" "/admin/password" content)
outgoing f delete_command content =
    some (record (plain_request f "DELETE" "/admin" content) { username = some f.login })
outgoing f clear_command content = some (plain_request f "DELETE" "/admin/clear" content)
outgoing f help_command content = none
outgoing f no_command content = none

unfoldable pub handle_response : Response → Option AnswerError
handle_response resp =
    if resp.status_code == 401
    then some unauthorized
    else if leb 200 resp.status_code && ltb resp.status_code 300
    then none
    else some (bad_status resp.status_code resp.content)

abbrev pub quiet : Run
quiet = record { lines = []; exit_code = 0 }

-- addHandle and removeHandle return after an error of the response, the others exit with 1.
abbrev pub reported : String → Option AnswerError → Run
reported message none = record { lines = plain message ∷ []; exit_code = 0 }
reported message (some e) = record { lines = response_failure "" e ∷ []; exit_code = 0 }

abbrev pub wrong : ℕ → Option AnswerError → Run
wrong code none = quiet
wrong code (some e) = record {
  lines = response_failure "Something went wrong: " e ∷ [];
  exit_code = code;
}

-- What a handler makes of the response
unfoldable pub conclude : Command → Response → Run
unfolding handle_response
conclude add_command resp = reported "Successfully added" (handle_response resp)
conclude remove_command resp = reported "Successfully removed" (handle_response resp)
conclude sign_in_command resp =
    let token = header_get "Authorization" resp.header in
    if is_empty token
    then wrong 0 (handle_response resp)
    else record { lines = plain token ∷ []; exit_code = 0 }
conclude _ resp = wrong 1 (handle_response resp)
