-- ===== src/Tests/Commands.antt =====
-- Commands given to the handler and to `Dispatch`.
use pfsense_agent.Dispatcher.{Dispatcher}
use pfsense_agent.Base.{
  [], ◌∷◌, Result, err, plain, str_eq, if◌then◌else◌, ℕ, arith, String, ◌<>◌, ◌≡◌, refl, none, some,
  ok, quote, contains,
}
use pfsense_agent.Base.Int.{pos}
use pfsense_agent.Json.{Json, obj, end}
use pfsense_agent.Protocol.{
  Received, Sent, CommandPayload, rejected, failed, intervals, decode_payload,
}
use pfsense_agent.Protocol.Laws.{Answers}
use pfsense_agent.Protocol.Wire.Laws.{envelope_fields}
use pfsense_agent.Dispatcher.Run.{run, run_case}
use pfsense_agent.Dispatcher.Params.{Params, no_params, decode_params, empty_params}
use pfsense_agent.Dispatcher.Dispatch.{dispatch}
use pfsense_agent.Dispatcher.Dispatch.Safety.{
  IsAdmitted, IsSafeStep, status_of, dispatch-IsSafeStep, dispatch_exec_unlisted, dispatch_unknown,
}
use pfsense_agent.Dispatcher.Dispatch.Answers.{IsAnswered, dispatch_unlisted, dispatch-Answers}
use pfsense_agent.Dispatcher.Dispatch.Redaction.{dispatch_redacts}
use pfsense_agent.Dispatcher.Run.Pace.{set_interval_overflows}
use pfsense_agent.Dispatcher.Operation.{switch}
use pfsense_agent.Agent.Handler.{
  on_data, replied, on_data-replied, on_message, reply_subject, on_message_replies,
}
use pfsense_agent.Tests.Fixtures.{dispatcher, stamp, conn, command_of, exec_of, password_of}

abbrev pub exec_rm : Received
exec_rm = command_of "exec" (exec_of "rm")

abbrev rm_params : Params
rm_params = record no_params { command = "rm" }

abbrev pub decoded_command : String → Json → CommandPayload
decoded_command op params = record { operation = op; params = some params; timeout_s = pos 0 }

abbrev reboot : Received
reboot = command_of "vm.reboot" (obj end)

dispatch-IsSafeStep_example :
    IsSafeStep dispatcher stamp exec_rm 0 (dispatch dispatcher stamp exec_rm 0)
dispatch-IsSafeStep_example = dispatch-IsSafeStep dispatcher stamp exec_rm 0

on_message_replies_example :
    (reply : Sent) × IsAnswered dispatcher stamp exec_rm 0 reply
    × (on_message conn dispatcher stamp (ok exec_rm) 0
        ≡ (conn.publish
            (reply_subject conn dispatcher stamp exec_rm)
            reply
            (dispatch dispatcher stamp exec_rm 0).1).1)
on_message_replies_example =
    on_message_replies conn dispatcher stamp exec_rm 0 refl (refl, refl, refl, refl)

dispatch-Answers_example :
    IsAnswered dispatcher stamp exec_rm 0 (dispatch dispatcher stamp exec_rm 0).0.reply
dispatch-Answers_example = dispatch-Answers dispatcher stamp exec_rm 0 (refl, refl, refl, refl)

dispatch_unlisted_example :
    ((dispatch dispatcher stamp reboot 0).1 ≡ 0)
    × Answers reboot "vm-1" rejected
        ("operation " <> (quote "vm.reboot" <> " is not permitted on this agent"))
        none
        (dispatch dispatcher stamp reboot 0).0.reply
unfolding decode_payload contains
dispatch_unlisted_example =
    dispatch_unlisted dispatcher stamp reboot 0 (decoded_command "vm.reboot" (obj end)) refl refl

exec_rm-IsAdmitted :
    IsAdmitted dispatcher stamp exec_rm (decoded_command "exec" (exec_of "rm")) rm_params
unfolding decode_payload contains decode_params empty_params
exec_rm-IsAdmitted = record { decoded = refl; listed = refl; read = refl }

dispatch_exec_unlisted_example :
    ((dispatch dispatcher stamp exec_rm 0).1 ≡ 0)
    × (status_of (dispatch dispatcher stamp exec_rm 0).0.reply ≡ some failed)
unfolding contains
dispatch_exec_unlisted_example =
    dispatch_exec_unlisted dispatcher stamp exec_rm 0 (decoded_command "exec" (exec_of "rm"))
      rm_params exec_rm-IsAdmitted refl refl

abbrev set_password_to : String → Received
set_password_to password = command_of "pfsense.set_password" (password_of password)

abbrev params_with : String → Params
params_with password = record no_params { username = "admin"; password = password }

abbrev PasswordAdmitted : String → Type 0
PasswordAdmitted password =
    IsAdmitted dispatcher stamp (set_password_to password)
      (decoded_command "pfsense.set_password" (password_of password)) (params_with password)

first-IsAdmitted : PasswordAdmitted "hunter2"
unfolding decode_payload contains decode_params empty_params
first-IsAdmitted = record { decoded = refl; listed = refl; read = refl }

second-IsAdmitted : PasswordAdmitted "letmein"
unfolding decode_payload contains decode_params empty_params
second-IsAdmitted = record { decoded = refl; listed = refl; read = refl }

dispatch_redacts_example :
    (dispatch dispatcher stamp (set_password_to "hunter2") 0).0.log
    ≡ (dispatch dispatcher stamp (set_password_to "letmein") 5).0.log
unfolding contains run run_case switch
dispatch_redacts_example =
    dispatch_redacts dispatcher stamp (set_password_to "hunter2") (set_password_to "letmein") 0 5
      (decoded_command "pfsense.set_password" (password_of "hunter2"))
      (decoded_command "pfsense.set_password" (password_of "letmein")) (params_with "hunter2")
      (params_with "letmein") first-IsAdmitted second-IsAdmitted refl refl refl refl

abbrev seconds : ℕ → Params
seconds s = record no_params { interval_s = pos s }

set_interval_overflows_example :
    (run dispatcher "telemetry.set_interval" (seconds 9223372037) none 0).0
    ≡ ok (intervals (pos 9223372037) (pos 1))
set_interval_overflows_example =
    set_interval_overflows dispatcher 0 none (λ n. refl) (seconds 9223372037) none 9223372037 refl
      (omega arith) (omega arith)

-- A parser that knows one text.
abbrev parse_exec : String → Result Json
parse_exec text =
    if str_eq text "exec rm" then ok (obj (envelope_fields exec_rm)) else err (plain "invalid")

on_data-replied_example :
    (on_data conn dispatcher stamp parse_exec "exec rm" 0
      ≡ replied conn dispatcher stamp (some exec_rm) 0)
    × (decode_payload exec_rm ≡ ok (decoded_command "exec" (exec_of "rm")))
on_data-replied_example =
    on_data-replied conn dispatcher stamp parse_exec "exec rm" exec_rm
      (decoded_command "exec" (exec_of "rm")) 0 refl refl refl refl

-- A listed operation that the switch does not know.
abbrev listing : Dispatcher ℕ
listing = record dispatcher { allowed_ops = "disk.shrink" ∷ [] }

abbrev shrink : Received
shrink = command_of "disk.shrink" (obj end)

unknown : switch "disk.shrink" ≡ none
unfolding switch
unknown = refl

shrink-IsAdmitted :
    IsAdmitted listing stamp shrink (decoded_command "disk.shrink" (obj end)) no_params
unfolding contains decode_payload empty_params decode_params
shrink-IsAdmitted = record { decoded = refl; listed = refl; read = refl }

dispatch_unknown_example :
    ((dispatch listing stamp shrink 0).1 ≡ 0)
    × Answers shrink "vm-1" failed
        ("unknown operation " <> quote "disk.shrink")
        none
        (dispatch listing stamp shrink 0).0.reply
dispatch_unknown_example =
    dispatch_unknown listing stamp shrink 0 (decoded_command "disk.shrink" (obj end)) no_params
      shrink-IsAdmitted unknown
