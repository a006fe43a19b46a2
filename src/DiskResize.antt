-- ===== src/DiskResize.antt =====
-- internal/modules/diskresize: the interfaces and the result of resizer.go.
pub mod Device
pub mod Linux
pub mod Platforms
use pfsense_agent.Base.{ℕ, String, List, Io, Error, Option}
use pfsense_agent.Base.Int.{ℤ}

pub record ResizeResult : Type 0 where
  pub target : String
  pub device : String
  pub fstype : String
  pub before_bytes : ℕ
  pub after_bytes : ℕ
  pub grown_bytes : ℤ
  pub message : String

pub record Resizer (W : Type 0) : Type 0 where
  pub resize : String → Io W ResizeResult
