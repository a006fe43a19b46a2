-- ===== src/Base/Results/Keeps.antt =====
-- What code that can fail leaves as it was, seen by a function of the world.
use mathlib.Core.Path.{◌≡◌, refl, ◌∙◌}
use pfsense_agent.Base.Results.{Result, ok, err, Io, bind_result, ◌>>=◌}

module _ {W A : Type 0} (view : W → A) where
  abbrev pub Keeps {ℓ} : {B : Type ℓ} → Io W B → Type 0
  Keeps m = (w : W) → view (m w).1 ≡ view w

  bind_result_keeps {ℓ κ} :
      {B : Type ℓ} {C : Type κ} (r : Result B × W) (k : B → Io W C)
      → ((b : B) → Keeps (k b))
      → view (bind_result r k).1 ≡ view r.1
  bind_result_keeps (ok b, w) k next = next b w
  bind_result_keeps (err e, w) k next = refl

  pub bind-Keeps {ℓ κ} :
      {B : Type ℓ} {C : Type κ} (m : Io W B) (k : B → Io W C)
      → Keeps m
      → ((b : B) → Keeps (k b))
      → Keeps (m >>= k)
  bind-Keeps m k first next w = bind_result_keeps (m w) k next ∙ first w
