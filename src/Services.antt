-- ===== src/Services.antt =====
-- internal/modules/services: the types of types.go and the interface of manager.go.
pub mod Linux
pub mod Unsupported
use pfsense_agent.Base.{ℕ, String, Bool, List, Io}

pub data ServiceState : Type 0 where
  active inactive failed unknown : ServiceState

pub data ServiceAction : Type 0 where
  start stop restart enable disable reload : ServiceAction

pub record ServiceInfo : Type 0 where
  pub name : String
  pub description : String
  pub state : ServiceState
  pub sub_state : String
  pub enabled : Bool
  pub pid : ℕ
  pub since : ℕ

pub record ActionResult : Type 0 where
  pub service : String
  pub action : ServiceAction
  pub success : Bool
  pub message : String

pub record Manager (W : Type 0) : Type 0 where
  pub list : Io W (List ServiceInfo)
  pub get : String → Io W ServiceInfo
  pub perform : ServiceAction → String → Io W ActionResult
