-- ===== src/Dispatcher/Dispatch/Answers.antt =====
-- The envelope that `Dispatch` of internal/dispatcher/dispatcher.go returns.
use pfsense_agent.Base.{
  String, ◌<>◌, ◌≡◌, refl, inl, inr, true, false, Option, none, some, List, Result, ok, err,
  message, contains, quote, Bool-cases,
}
use pfsense_agent.Json.{Json}
use pfsense_agent.Protocol.{
  Received, Sent, Stamp, Status, completed, failed, rejected, Output, CommandPayload, result_for,
  decode_payload,
}
use pfsense_agent.Protocol.Laws.{Answers, result_for-Answers}
use pfsense_agent.Dispatcher.{Dispatcher, LogEntry}
use pfsense_agent.Dispatcher.Params.{Params}
use pfsense_agent.Dispatcher.Run.Marshals.{fine, ReadsNumbers, run-fine}
use pfsense_agent.Dispatcher.Dispatch.{dispatch, arrival, conclude, perform, admit, refuse, receive}

module _ {W : Type 0} (d : Dispatcher W) (stamp : Stamp) (env : Received) (w : W) where
  -- A command of an operation that is not in `allowed_operations` is answered by a rejection that
  -- names the command, and the modules are not touched.
  pub dispatch_unlisted :
      (cmd : CommandPayload)
      → decode_payload env ≡ ok cmd
      → contains d.allowed_ops cmd.operation ≡ false
      → ((dispatch d stamp env w).1 ≡ w)
        × Answers env d.agent_uuid rejected
            ("operation " <> (quote cmd.operation <> " is not permitted on this agent"))
            none
            (dispatch d stamp env w).0.reply
  unfolding dispatch
  dispatch_unlisted cmd e h = rw (e, h) (refl, result_for-Answers stamp env _ rejected _ none refl)

  -- A result of this agent that answers the command, with some status, message and output.
  abbrev pub IsAnswered : Sent → Type 0
  IsAnswered reply =
      (status : Status) × (said : String) × (output : Option Output) × Answers env d.agent_uuid
        status said output reply

  rejected-IsAnswered :
      (said : String) → IsAnswered (result_for stamp env d.agent_uuid rejected said none).0
  rejected-IsAnswered said =
      (rejected, said, none, result_for-Answers stamp env _ rejected said none refl)

  conclude-IsAnswered :
      (before : List LogEntry) (op : String) (r : Result Output)
      → fine r ≡ true
      → IsAnswered (conclude d stamp env before op r).reply
  unfolding conclude
  conclude-IsAnswered before op (ok o) h =
      (completed, "", some o, result_for-Answers stamp env _ completed "" (some o) h)
  conclude-IsAnswered before op (err e) h =
      (failed, message e, none, result_for-Answers stamp env _ failed (message e) none refl)

  perform-IsAnswered :
      ReadsNumbers d.ports.system w
      → (op : String) (raw : Option Json) (r : Result Params)
      → IsAnswered (perform d stamp env op raw r w).0.reply
  unfolding perform refuse
  perform-IsAnswered finite op raw (ok p) =
      conclude-IsAnswered (arrival env.id op raw) op _ (run-fine d w finite op p raw)
  perform-IsAnswered finite op raw (err e) = rejected-IsAnswered _

  admit-IsAnswered :
      ReadsNumbers d.ports.system w
      → (cmd : CommandPayload) → IsAnswered (admit d stamp env cmd w).0.reply
  unfolding admit refuse
  admit-IsAnswered finite cmd = elim (Bool-cases (contains d.allowed_ops cmd.operation)) [
    | inl listed ↦ rw listed (perform-IsAnswered finite _ _ _)
    | inr unlisted ↦ rw unlisted (rejected-IsAnswered _)
  ]

  receive-IsAnswered :
      ReadsNumbers d.ports.system w
      → (r : Result CommandPayload) → IsAnswered (receive d stamp env r w).0.reply
  unfolding receive
  receive-IsAnswered finite (ok cmd) = admit-IsAnswered finite cmd
  receive-IsAnswered finite (err e) = rejected-IsAnswered _

  -- Every envelope, decodable or not, is answered by one result envelope of this agent that names the
  -- command, if each reading of the system module is a number or fails.
  pub dispatch-Answers : ReadsNumbers d.ports.system w → IsAnswered (dispatch d stamp env w).0.reply
  unfolding dispatch
  dispatch-Answers finite = receive-IsAnswered finite (decode_payload env)
