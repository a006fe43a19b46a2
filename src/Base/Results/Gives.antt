-- ===== src/Base/Results/Gives.antt =====
-- What holds of every success of code that can fail.
use pfsense_agent.Base.Results.{Result, ok, err, Io, OnOk, bind_result, ◌>>=◌, wrapped, wrap_error}
use Prim.Native.String.{String}

abbrev pub Gives {κ} : {W A : Type 0} → (A → Type κ) → Io W A → Type κ
Gives {W} P m = (w : W) → OnOk P (m w).0

pub on_ok {κ} : {A : Type 0} {P : A → Type κ} → ((a : A) → P a) → (r : Result A) → OnOk P r
on_ok f (ok a) = f a
on_ok f (err e) = tt

wrap_error-OnOk {κ} :
    {A : Type 0} (P : A → Type κ) (prefix : String) (r : Result A)
    → OnOk P r
    → OnOk P (wrap_error prefix r)
wrap_error-OnOk P prefix (ok a) h = h
wrap_error-OnOk P prefix (err e) h = tt

pub wrapped-Gives {κ} :
    {W A : Type 0} (P : A → Type κ) (prefix : String) (m : Io W A)
    → Gives P m
    → Gives P (wrapped prefix m)
wrapped-Gives P prefix m h w = wrap_error-OnOk P prefix (m w).0 (h w)

bind_result-OnOk {κ μ} :
    {W A B : Type 0} (P : A → Type κ) (Q : B → Type μ) (r : Result A × W) (k : A → Io W B)
    → OnOk P r.0
    → ((a : A) → P a → Gives Q (k a))
    → OnOk Q (bind_result r k).0
bind_result-OnOk P Q (ok a, w) k h next = next a h w
bind_result-OnOk P Q (err e, w) k h next = tt

pub bind-Gives {κ μ} :
    {W A B : Type 0} (P : A → Type κ) (Q : B → Type μ) (m : Io W A) (k : A → Io W B)
    → Gives P m
    → ((a : A) → P a → Gives Q (k a))
    → Gives Q (m >>= k)
bind-Gives P Q m k h next w = bind_result-OnOk P Q (m w) k (h w) next
