-- ===== src/Agent/Identity.antt =====
-- Step 4 of `run` in cmd/agent/main.go.
use pfsense_agent.Base.{
  String, ◌≡◌, ◌≢◌, refl, ◌⊎◌, ◌↔◌, inl, inr, str_eq, eq_iff, if◌then◌else◌, arith, Bool-cases,
}
use pfsense_agent.Config.{NatsConfig}
use pfsense_agent.IsoConfig.{IsoMetadata, vmid, agent_api_key}

pub record Identity : Type 0 where
  pub agent_uuid : String
  pub agent_api_key : String

-- The value of the metadata, unless it is empty.
abbrev prefer : String → String → String
prefer given fallback = if str_eq given "" then fallback else given

unfoldable pub resolve_identity : NatsConfig → IsoMetadata → Identity
resolve_identity c iso = record {
  agent_uuid = prefer (vmid iso) c.agent_uuid;
  agent_api_key = prefer (agent_api_key iso) c.api_key;
}

-- A value that a source prefers: the first if it is not empty, and otherwise the second.
abbrev pub IsPreferred : String → String → String → Type 0
IsPreferred given fallback used =
    ((given ≢ "") × (used ≡ given)) ⊎ ((given ≡ "") × (used ≡ fallback))

prefer-IsPreferred : (given fallback : String) → IsPreferred given fallback (prefer given fallback)
prefer-IsPreferred given fallback = elim (Bool-cases (str_eq given "")) [
  | inl absent ↦ rw absent (inr ((eq_iff given "").0 absent, refl))
  | inr present ↦ rw present (inl (λ e. ground (arith, eq_iff given ""), refl))
]

prefer_empty_iff :
    (given fallback : String) → (prefer given fallback ≡ "") ↔ ((given ≡ "") × (fallback ≡ ""))
prefer_empty_iff given fallback =
    (λ h. ground (arith, eq_iff given ""), λ h. ground (arith, eq_iff given ""))

-- Each half of the identity is the metadata's value if that is not empty, and the configuration's if it
-- is, independently of the other half; the key is empty only if both sources leave it empty.
pub resolve_identity_lem :
    (c : NatsConfig) (iso : IsoMetadata)
    → IsPreferred (vmid iso) c.agent_uuid (resolve_identity c iso).agent_uuid
      × IsPreferred (agent_api_key iso) c.api_key (resolve_identity c iso).agent_api_key
      × (((resolve_identity c iso).agent_api_key ≡ "")
          ↔ ((agent_api_key iso ≡ "") × (c.api_key ≡ "")))
unfolding resolve_identity
resolve_identity_lem c iso = (
  prefer-IsPreferred (vmid iso) c.agent_uuid,
  prefer-IsPreferred (agent_api_key iso) c.api_key,
  prefer_empty_iff (agent_api_key iso) c.api_key,
)
