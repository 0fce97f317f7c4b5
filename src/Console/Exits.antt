-- ===== src/Console/Exits.antt =====
-- admin_app/main.go: with what code the console exits after a response.
use bduts.Prelude.{
  ℕ, ◌≡◌, ◌≢◌, refl, ap, ◌∙◌, inl, inr, Bool, Bool-cases, true, false, ◌&&◌, Option, none, some,
  String, leb, ltb, ◌==◌, arith, if◌then◌else◌,
}
use bduts.Http.{Response, is_empty}
use bduts.Cache.Directives.{header_get}
use bduts.Console.{
  Flags, Command, help_command, add_command, remove_command, sign_in_command, sign_up_command,
  change_command, delete_command, clear_command, no_command, Outgoing, Client, Run, AnswerError,
  unauthorized, bad_status, form, outgoing, handle_response, conclude, reported, wrong, command,
}
use bduts.Console.Handling.{
  request, warned, carried_out, exchanged, perform, handle_args, add_handle, remove_handle,
  sign_in_handle, sign_up_handle, change_handle, delete_handle, clear_handler,
}

abbrev pub is_success : Response → Bool
is_success resp = leb 200 resp.status_code && ltb resp.status_code 300

-- The code after a response that reports no success
abbrev pub exit_after : Command → ℕ
exit_after add_command = 0
exit_after remove_command = 0
exit_after sign_in_command = 0
exit_after _ = 1

handle_response-success : (resp : Response) → is_success resp ≡ true → handle_response resp ≡ none
unfolding handle_response
handle_response-success resp good = elim (Bool-cases (resp.status_code == 401)) [
  | inl denied ↦ absurd (ground (arith, good, denied))
  | inr other ↦ rw (handle_response, other, good) refl
]

handle_response-failure :
    (resp : Response)
    → is_success resp ≡ false
    → (e : AnswerError) × (handle_response resp ≡ some e)
unfolding handle_response
handle_response-failure resp bad = elim (Bool-cases (resp.status_code == 401)) [
  | inl denied ↦ (unauthorized, rw (handle_response, denied) refl)
  | inr other ↦ (bad_status resp.status_code resp.content, rw (handle_response, other, bad) refl)
]

abbrev code_of : ℕ → Option AnswerError → ℕ
code_of code none = 0
code_of code (some e) = code

reported_code :
    (message : String) (e : Option AnswerError) → (reported message e).exit_code ≡ code_of 0 e
reported_code message none = refl
reported_code message (some e) = refl

wrong_code : (code : ℕ) (e : Option AnswerError) → (wrong code e).exit_code ≡ code_of code e
wrong_code code none = refl
wrong_code code (some e) = refl

code_of_zero : (e : Option AnswerError) → 0 ≡ code_of 0 e
code_of_zero none = refl
code_of_zero (some e) = refl

conclude-exit_code :
    (cmd : Command) (resp : Response)
    → (conclude cmd resp).exit_code ≡ code_of (exit_after cmd) (handle_response resp)
unfolding conclude
conclude-exit_code add_command resp = reported_code "Successfully added" (handle_response resp)
conclude-exit_code remove_command resp = reported_code "Successfully removed" (handle_response resp)
conclude-exit_code sign_in_command resp =
    elim (Bool-cases (is_empty (header_get "Authorization" resp.header))) [
      | inl missing ↦ rw missing (wrong_code 0 (handle_response resp))
      | inr given ↦ rw given (code_of_zero (handle_response resp))
    ]
conclude-exit_code sign_up_command resp = wrong_code 1 (handle_response resp)
conclude-exit_code change_command resp = wrong_code 1 (handle_response resp)
conclude-exit_code delete_command resp = wrong_code 1 (handle_response resp)
conclude-exit_code clear_command resp = wrong_code 1 (handle_response resp)
conclude-exit_code help_command resp = wrong_code 1 (handle_response resp)
conclude-exit_code no_command resp = wrong_code 1 (handle_response resp)

warned_code :
    (client : Client) (c_do : Outgoing → Option Response) (b : Bool) (r : Run)
    → (warned client c_do b r).exit_code ≡ r.exit_code
warned_code client c_do true r = refl
warned_code client c_do false r = refl

module _ (client : Client) (c_do : Outgoing → Option Response) (f : Flags) where
  carried_out_code :
      (cmd : Command) (o : Outgoing) (resp : Response)
      → request client f cmd ≡ inr o
      → c_do o ≡ some resp
      → (carried_out client c_do cmd (request client f cmd)).exit_code
        ≡ (conclude cmd resp).exit_code
  carried_out_code cmd o resp sent got =
      ap (λ r. (carried_out client c_do cmd r).exit_code) sent
      ∙ ap (λ r. (exchanged client c_do cmd r).exit_code) got

  -- A command that sends something, other than -signin
  warned_out_code :
      (cmd : Command) (o : Outgoing) (resp : Response)
      → request client f cmd ≡ inr o
      → c_do o ≡ some resp
      → (warned client c_do
          (is_empty f.token)
          (carried_out client c_do cmd (request client f cmd))).exit_code
        ≡ (conclude cmd resp).exit_code
  warned_out_code cmd o resp sent got =
      warned_code client c_do (is_empty f.token)
        (carried_out client c_do cmd (request client f cmd))
      ∙ carried_out_code cmd o resp sent got

  help_sends_nothing : (o : Outgoing) → request client f help_command ≢ inr o
  unfolding request form outgoing
  help_sends_nothing o e = ground (arith, e)

  nothing_sent : (o : Outgoing) → request client f no_command ≢ inr o
  unfolding request form outgoing
  nothing_sent o e = ground (arith, e)

  perform_code :
      (cmd : Command) (o : Outgoing) (resp : Response)
      → request client f cmd ≡ inr o
      → c_do o ≡ some resp
      → (perform client c_do f cmd).exit_code ≡ (conclude cmd resp).exit_code
  unfolding perform add_handle remove_handle sign_in_handle sign_up_handle change_handle
      delete_handle clear_handler
  perform_code help_command o resp sent got = absurd (help_sends_nothing o sent)
  perform_code sign_in_command o resp sent got = carried_out_code sign_in_command o resp sent got
  perform_code add_command o resp sent got = warned_out_code add_command o resp sent got
  perform_code remove_command o resp sent got = warned_out_code remove_command o resp sent got
  perform_code sign_up_command o resp sent got = warned_out_code sign_up_command o resp sent got
  perform_code change_command o resp sent got = warned_out_code change_command o resp sent got
  perform_code delete_command o resp sent got = warned_out_code delete_command o resp sent got
  perform_code clear_command o resp sent got = warned_out_code clear_command o resp sent got
  perform_code no_command o resp sent got = absurd (nothing_sent o sent)

  -- If a command sends a request and gets a response, the console exits with 0 where the status is
  -- from 200 to 299; otherwise it exits with 1, except for -add, -remove and -signin, which exit
  -- with 0.
  pub handle_args-exit_code :
      (o : Outgoing) (resp : Response)
      → request client f (command f) ≡ inr o
      → c_do o ≡ some resp
      → (handle_args client c_do f).exit_code
        ≡ (if is_success resp then 0 else exit_after (command f))
  unfolding handle_args
  handle_args-exit_code o resp sent got =
      let code = perform_code (command f) o resp sent got ∙ conclude-exit_code (command f) resp in
      elim (Bool-cases (is_success resp)) [
        | inl good ↦
            rw good
              (code ∙ ap (code_of (exit_after (command f))) (handle_response-success resp good))
        | inr bad ↦
            let (e, failed) = handle_response-failure resp bad in
            rw bad (code ∙ ap (code_of (exit_after (command f))) failed)
      ]
