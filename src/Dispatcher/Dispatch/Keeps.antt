-- ===== src/Dispatcher/Dispatch/Keeps.antt =====
-- What `Dispatch` of internal/dispatcher/dispatcher.go leaves as it was.
use pfsense_agent.Base.{String, ◌≡◌, ap, ◌∙◌, true, Option, contains, inl, inr}
use pfsense_agent.Base.Results.Keeps.{Keeps}
use pfsense_agent.Json.{Json}
use pfsense_agent.Protocol.{Received, Stamp}
use pfsense_agent.Dispatcher.{Dispatcher}
use pfsense_agent.Dispatcher.Params.{Params}
use pfsense_agent.Dispatcher.Run.{run}
use pfsense_agent.Dispatcher.Dispatch.{Dispatched, dispatch}
use pfsense_agent.Dispatcher.Dispatch.Safety.{IsSafeStep, dispatch-IsSafeStep}

module _ {W A : Type 0} (view : W → A) (d : Dispatcher W)
    (listed : (op : String)
      → contains d.allowed_ops op ≡ true
      → (p : Params) (raw : Option Json) → Keeps view (run d op p raw)) where
  IsSafeStep-keeps :
      (stamp : Stamp) (env : Received) (w : W) (r : Dispatched × W)
      → IsSafeStep d stamp env w r
      → view r.1 ≡ view w
  IsSafeStep-keeps stamp env w r (inl (cmd, p, a, ran, _)) =
      ap view ran ∙ listed cmd.operation a.listed p cmd.params w
  IsSafeStep-keeps stamp env w r (inr (same, _)) = ap view same

  -- What the listed operations leave as it was, every command leaves as it was.
  pub dispatch_keeps :
      (stamp : Stamp) (env : Received) (w : W) → view (dispatch d stamp env w).1 ≡ view w
  dispatch_keeps stamp env w =
      IsSafeStep-keeps stamp env w (dispatch d stamp env w) (dispatch-IsSafeStep d stamp env w)
