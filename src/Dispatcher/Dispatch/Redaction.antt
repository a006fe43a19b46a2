-- ===== src/Dispatcher/Dispatch/Redaction.antt =====
-- The parameters of a sensitive operation and the log of internal/dispatcher/dispatcher.go.
use pfsense_agent.Base.{◌≡◌, true, List, String, Result, arith, contains, Option}
use pfsense_agent.Json.{Json}
use pfsense_agent.Protocol.{Received, Stamp, CommandPayload, Output, result_for}
use pfsense_agent.Dispatcher.{Dispatcher, LogEntry}
use pfsense_agent.Dispatcher.Params.{Params}
use pfsense_agent.Dispatcher.Run.{run}
use pfsense_agent.Dispatcher.Dispatch.{
  sensitive_operations, arrival, dispatch, conclude, perform, admit, receive,
}
use pfsense_agent.Dispatcher.Dispatch.Safety.{IsAdmitted}

module _ {W : Type 0} (d : Dispatcher W) (stamp : Stamp) (env env' : Received) where
  conclude_log :
      (before : List LogEntry) (op : String) (r : Result Output)
      → env.id ≡ env'.id
      → (conclude d stamp env before op r).log ≡ (conclude d stamp env' before op r).log
  unfolding conclude result_for
  conclude_log before op r same = ground arith

  arrival_redacted :
      (op : String) (raw raw' : Option Json)
      → env.id ≡ env'.id
      → contains sensitive_operations op ≡ true
      → arrival env.id op raw ≡ arrival env'.id op raw'
  arrival_redacted op raw raw' same sensitive = rw (sensitive, same)

  -- The log of an admitted sensitive command does not depend on its parameters: two commands with the
  -- same id and operation whose runs end alike leave the same lines in the log.
  pub dispatch_redacts :
      (w w' : W) (cmd cmd' : CommandPayload) (p p' : Params)
      → IsAdmitted d stamp env cmd p
      → IsAdmitted d stamp env' cmd' p'
      → env.id ≡ env'.id
      → cmd.operation ≡ cmd'.operation
      → contains sensitive_operations cmd.operation ≡ true
      → (run d cmd.operation p cmd.params w).0 ≡ (run d cmd'.operation p' cmd'.params w').0
      → (dispatch d stamp env w).0.log ≡ (dispatch d stamp env' w').0.log
  unfolding dispatch receive admit perform
  dispatch_redacts w w' cmd cmd' p p' a a' same_id same_op sensitive same_end =
      rw
        (
          a.decoded,
          a.listed,
          a.read,
          a'.decoded,
          a'.listed,
          a'.read,
          same_end,
          ← same_op,
          arrival_redacted cmd.operation cmd.params cmd'.params same_id sensitive,
        )
        (conclude_log (arrival env'.id cmd.operation cmd'.params) cmd.operation
          (run d cmd.operation p' cmd'.params w').0 same_id)
