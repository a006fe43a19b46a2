-- ===== src/Dispatcher/Dispatch/Safety.antt =====
-- What `Dispatch` of internal/dispatcher/dispatcher.go does to the modules.
use pfsense_agent.Base.{
  message, String, ◌≡◌, refl, ◌≢◌, ◌⊎◌, inl, inr, true, false, Option, none, some, List, arith,
  Result, ok, err, plain, contains, quote, ◌<>◌, Bool-cases,
}
use pfsense_agent.Json.{Json}
use pfsense_agent.Protocol.Laws.{Answers, result_for-Answers}
use pfsense_agent.Protocol.{
  Received, Sent, Stamp, Status, failed, rejected, Output, of_result, CommandPayload, result_for,
  output_marshals, decode_payload,
}
use pfsense_agent.Dispatcher.{Dispatcher, LogEntry}
use pfsense_agent.Dispatcher.Params.{Params}
use pfsense_agent.Dispatcher.Run.{run, run_case, run_exec}
use pfsense_agent.Dispatcher.Operation.{switch}
use pfsense_agent.Dispatcher.Dispatch.{
  Dispatched, arrival, dispatch, given_params, conclude, perform, admit, refuse, receive,
}

-- The status that an envelope carries, if it carries a result.
abbrev pub status_of : Sent → Option Status
status_of reply = elim reply.payload [ some (of_result r) ↦ some r.status | _ ↦ none ]

-- `exec` of a command that is not listed fails before a process is started.
run_exec_unlisted :
    {W : Type 0} (d : Dispatcher W) (w : W) (p : Params) (raw : Option Json)
    → contains d.allowed_commands p.command ≡ false
    → run d "exec" p raw w
      ≡ (err (plain ("command " <> (quote p.command <> " is not in allowed_commands"))), w)
unfolding run run_case run_exec switch
run_exec_unlisted d w p raw unlisted = rw unlisted

-- `default` of the switch.
run_unknown :
    {W : Type 0} (d : Dispatcher W) (w : W) (op : String) (p : Params) (raw : Option Json)
    → switch op ≡ none
    → run d op p raw w ≡ (err (plain ("unknown operation " <> quote op)), w)
unfolding run
run_unknown d w op p raw unknown = rw unknown refl

module _ {W : Type 0} (d : Dispatcher W) (stamp : Stamp) (env : Received) where
  -- How a command comes to be run: it decodes, its operation is listed, and its parameters decode.
  pub record IsAdmitted (cmd : CommandPayload) (p : Params) : Type 0 where
    pub decoded : decode_payload env ≡ ok cmd
    pub listed : contains d.allowed_ops cmd.operation ≡ true
    pub read : given_params cmd.params ≡ ok p

  conclude_status :
      (before : List LogEntry) (op : String) (r : Result Output)
      → status_of (conclude d stamp env before op r).reply ≢ some rejected
  unfolding conclude result_for
  conclude_status before op (ok o) h = elim (Bool-cases (output_marshals o)) [
    | inl fine ↦ ground arith
    | inr bad ↦ ground arith
  ]
  conclude_status before op (err e) h = cc

  -- What a step of `Dispatch` does to the modules: it runs an admitted command and does not reject it,
  -- or it rejects the command and leaves the modules as they were.
  abbrev pub IsSafeStep : W → Dispatched × W → Type 0
  IsSafeStep w (answered, w') =
      ((cmd : CommandPayload) × (p : Params) × IsAdmitted cmd p
        × (w' ≡ (run d cmd.operation p cmd.params w).1)
        × (status_of answered.reply ≢ some rejected))
      ⊎ ((w' ≡ w) × (status_of answered.reply ≡ some rejected))

  perform-IsSafeStep :
      (w : W) (cmd : CommandPayload) (r : Result Params)
      → decode_payload env ≡ ok cmd
      → contains d.allowed_ops cmd.operation ≡ true
      → given_params cmd.params ≡ r
      → IsSafeStep w (perform d stamp env cmd.operation cmd.params r w)
  unfolding perform refuse result_for
  perform-IsSafeStep w cmd (ok p) decoded listed read = inl (
    cmd,
    p,
    record { decoded = decoded; listed = listed; read = read },
    refl,
    conclude_status (arrival env.id cmd.operation cmd.params) cmd.operation
        (run d cmd.operation p cmd.params w).0,
  )
  perform-IsSafeStep w cmd (err e) decoded listed read = inr (refl, refl)

  receive-IsSafeStep :
      (w : W) (r : Result CommandPayload)
      → decode_payload env ≡ r
      → IsSafeStep w (receive d stamp env r w)
  unfolding receive admit refuse result_for
  receive-IsSafeStep w (err e) decoded = inr (refl, refl)
  receive-IsSafeStep w (ok cmd) decoded = elim (Bool-cases (contains d.allowed_ops cmd.operation)) [
    | inl listed ↦ rw listed (perform-IsSafeStep w cmd _ decoded listed refl)
    | inr unlisted ↦ rw unlisted (inr (refl, refl))
  ]

  -- Either the command decodes, is of a listed operation, which the switch may know or not, has readable
  -- parameters, is run once on the modules, and is not rejected; or the modules are left as they
  -- were and the result is a rejection.
  pub dispatch-IsSafeStep : (w : W) → IsSafeStep w (dispatch d stamp env w)
  unfolding dispatch
  dispatch-IsSafeStep w = receive-IsSafeStep w (decode_payload env) refl

  -- An admitted `exec` of a command that is not in `allowed_commands` starts no process: the modules
  -- are left as they were, and the result is a failure, not a rejection.
  pub dispatch_exec_unlisted :
      (w : W) (cmd : CommandPayload) (p : Params)
      → IsAdmitted cmd p
      → cmd.operation ≡ "exec"
      → contains d.allowed_commands p.command ≡ false
      → ((dispatch d stamp env w).1 ≡ w)
        × (status_of (dispatch d stamp env w).0.reply ≡ some failed)
  unfolding dispatch receive admit perform conclude result_for
  dispatch_exec_unlisted w cmd p a same unlisted =
      rw (a.decoded, a.listed, a.read, same, run_exec_unlisted d w p cmd.params unlisted)
        (refl, refl)

  -- An admitted command of an operation that the switch does not know changes nothing, and is answered
  -- as failed, not as rejected, by a message that names the operation.
  pub dispatch_unknown :
      (w : W) (cmd : CommandPayload) (p : Params)
      → IsAdmitted cmd p
      → switch cmd.operation ≡ none
      → ((dispatch d stamp env w).1 ≡ w)
        × Answers env d.agent_uuid failed
            ("unknown operation " <> quote cmd.operation)
            none
            (dispatch d stamp env w).0.reply
  unfolding dispatch receive admit perform conclude message
  dispatch_unknown w cmd p a unknown =
      rw (a.decoded, a.listed, a.read, run_unknown d w cmd.operation p cmd.params unknown)
        (refl, result_for-Answers stamp env d.agent_uuid failed _ none refl)
