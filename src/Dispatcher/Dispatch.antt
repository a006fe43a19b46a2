-- ===== src/Dispatcher/Dispatch.antt =====
-- `Dispatch` of internal/dispatcher/dispatcher.go: from a command's envelope to the envelope of its
-- result, with the lines that it logs.
pub mod Answers
pub mod Safety
pub mod Redaction
pub mod Depends
pub mod Keeps
use pfsense_agent.Base.{
  String, ◌<>◌, Bool, true, false, Option, none, some, List, [], ◌∷◌, ◌++◌, str_eq, if◌then◌else◌,
  Result, ok, err, Error, message, contains, quote,
}
use pfsense_agent.Json.{Json}
use pfsense_agent.Protocol.{
  Received, Sent, Stamp, Status, completed, failed, rejected, Output, CommandPayload, result_for,
  decode_payload,
}
use pfsense_agent.Dispatcher.{
  Dispatcher, LogEntry, undecodable, received, redacted_params, shown_params, shown_output, outcome,
  not_built,
}
use pfsense_agent.Dispatcher.Params.{Params, no_params, decode_params, empty_params}
use pfsense_agent.Dispatcher.Run.{run}

abbrev pub sensitive_operations : List String
sensitive_operations = "pfsense.set_password" ∷ []

-- What `Dispatch` returns, and what it has logged.
pub record Dispatched : Type 0 where
  pub reply : Sent
  pub log : List LogEntry

-- `ok`, `fail` and `reject`: the envelope, with a line if it could not be built.
abbrev build_log : Option Error → List LogEntry
build_log none = []
build_log (some e) = not_built e ∷ []

abbrev answer : List LogEntry → Sent × Option Error → List LogEntry → Dispatched
answer before (reply, problem) after = record {
  reply = reply;
  log = before ++ (build_log problem ++ after);
}

-- The two lines on an arriving command.
abbrev pub arrival : String → String → Option Json → List LogEntry
arrival id op raw =
    received id op
    ∷ (if contains sensitive_operations op then redacted_params id op else shown_params id op raw)
    ∷ []

-- The parameters, which are decoded only if there are some.
abbrev pub given_params : Option Json → Result Params
given_params raw = if empty_params raw then ok no_params else decode_params raw

module _ {W : Type 0} (d : Dispatcher W) (stamp : Stamp) (env : Received) where
  open d use {agent_uuid, allowed_ops}

  conclude : List LogEntry → String → Result Output → Dispatched
  conclude before op (ok output) =
      answer (before ++ (shown_output env.id op output ∷ []))
        (result_for stamp env agent_uuid completed "" (some output))
        (outcome env.id op completed "" ∷ [])
  conclude before op (err e) =
      answer before (result_for stamp env agent_uuid failed (message e) none)
        (outcome env.id op failed (message e) ∷ [])

  refuse : List LogEntry → String → String → String → Dispatched
  refuse before op said logged =
      answer before (result_for stamp env agent_uuid rejected said none)
        (outcome env.id op rejected logged ∷ [])

  perform : String → Option Json → Result Params → W → Dispatched × W
  unfolding conclude refuse
  perform op raw (err e) w =
      let said = "could not decode params: " <> message e in
      (refuse (arrival env.id op raw) op said said, w)
  perform op raw (ok p) w =
      let (r, w') = run d op p raw w in (conclude (arrival env.id op raw) op r, w')

  admit : CommandPayload → W → Dispatched × W
  unfolding refuse perform
  admit cmd w =
      if contains allowed_ops cmd.operation
      then perform cmd.operation cmd.params (given_params cmd.params) w
      else (
        refuse (arrival env.id cmd.operation cmd.params) cmd.operation
            ("operation " <> (quote cmd.operation <> " is not permitted on this agent"))
            "operation not in allowed_operations",
        w,
      )

  receive : Result CommandPayload → W → Dispatched × W
  unfolding admit
  receive (err e) w = (
    answer (undecodable env.id e ∷ [])
        (result_for stamp env agent_uuid rejected
          ("could not decode command payload: " <> message e) none)
        [],
    w,
  )
  receive (ok cmd) w = admit cmd w

  unfoldable pub dispatch : W → Dispatched × W
  unfolding receive
  dispatch w = receive (decode_payload env) w
