-- ===== src/Console/Handling.antt =====
-- admin_app/main.go: the handlers of the commands and handleArgs.
use bduts.Prelude.{
  String, Bool, true, false, [], ◌∷◌, ◌⊎◌, inl, inr, Option, none, some, if◌then◌else◌,
}
use bduts.Http.{Response, is_empty}
use bduts.Console.{
  Flags, Form, Command, help_command, add_command, remove_command, sign_in_command, sign_up_command,
  change_command, delete_command, clear_command, no_command, Outgoing, Client, usage, plain, Run,
  stop, quiet, command, form, outgoing, conclude,
}

module _ (client : Client) where
  open client use {marshal, is_url}

  abbrev pub marshalled : Option Form → Option String
  marshalled none = some ""
  marshalled (some x) = marshal x

  abbrev pub created : Option Outgoing → Run ⊎ Outgoing
  created none = inl quiet
  created (some o) =
      if is_url o.url then inr o else inl (stop "An error occurred while creating a request: " 1)

  -- The request of a command, or what the console does without one
  unfoldable pub request : Flags → Command → Run ⊎ Outgoing
  unfolding form outgoing
  request f cmd = elim (marshalled (form f cmd)) [
    | none ↦ inl (stop "Failed to marshal JSON: " 1)
    | some content ↦ created (outgoing f cmd content)
  ]

  -- `c_do` is what the load balancer answers, if it does.
  module _ (c_do : Outgoing → Option Response) where
    abbrev pub exchanged : Command → Option Response → Run
    exchanged cmd none = stop "An error occurred while processing the request: " 1
    exchanged cmd (some resp) = conclude cmd resp

    abbrev pub carried_out : Command → Run ⊎ Outgoing → Run
    carried_out cmd (inl r) = r
    carried_out cmd (inr o) = exchanged cmd (c_do o)

    abbrev pub warned : Bool → Run → Run
    warned true r = record r {
      lines = plain "Warning: you have not defined a bearer token. " ∷ r.lines;
    }
    warned false r = r

    unfoldable pub add_handle : Flags → Run
    unfolding request conclude
    add_handle f = carried_out add_command (request f add_command)

    unfoldable pub remove_handle : Flags → Run
    unfolding request conclude
    remove_handle f = carried_out remove_command (request f remove_command)

    unfoldable pub sign_in_handle : Flags → Run
    unfolding request conclude
    sign_in_handle f = carried_out sign_in_command (request f sign_in_command)

    unfoldable pub sign_up_handle : Flags → Run
    unfolding request conclude
    sign_up_handle f = carried_out sign_up_command (request f sign_up_command)

    unfoldable pub change_handle : Flags → Run
    unfolding request conclude
    change_handle f = carried_out change_command (request f change_command)

    unfoldable pub delete_handle : Flags → Run
    unfolding request conclude
    delete_handle f = carried_out delete_command (request f delete_command)

    unfoldable pub clear_handler : Flags → Run
    unfolding request conclude
    clear_handler f = carried_out clear_command (request f clear_command)

    -- The branches of handleArgs; the warning is printed before every one but the first two.
    unfoldable pub perform : Flags → Command → Run
    unfolding add_handle remove_handle sign_in_handle sign_up_handle change_handle delete_handle
        clear_handler
    perform f help_command = record { lines = usage ∷ []; exit_code = 0 }
    perform f sign_in_command = sign_in_handle f
    perform f add_command = warned (is_empty f.token) (add_handle f)
    perform f remove_command = warned (is_empty f.token) (remove_handle f)
    perform f sign_up_command = warned (is_empty f.token) (sign_up_handle f)
    perform f change_command = warned (is_empty f.token) (change_handle f)
    perform f delete_command = warned (is_empty f.token) (delete_handle f)
    perform f clear_command = warned (is_empty f.token) (clear_handler f)
    perform f no_command = warned (is_empty f.token) quiet

    unfoldable pub handle_args : Flags → Run
    unfolding command perform
    handle_args f = perform f (command f)
