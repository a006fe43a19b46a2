-- ===== src/Base/Results/Succeeds.antt =====
-- What a success of code that can fail says of its parts, and how a chain goes on after a part.
use pfsense_agent.Base.Results.{
  Result, ok, err, Error, wrap, Io, bind_result, ◌>>=◌, wrapped, wrap_error,
}
use Prim.Native.String.{String}
use mathlib.Core.Path.{◌≡◌, refl, ap}
use native.Mathlib.Omega.{arith}

pub not_ok : {A : Type 0} (x : Error) (a : A) → Path (Result A) (err x) (ok a) → ⊥
not_ok x a e = ground arith

value_or : {A : Type 0} → A → Result A → A
value_or a (ok b) = b
value_or a (err e) = a

pub ok-injective : {A : Type 0} (a b : A) → Path (Result A) (ok a) (ok b) → a ≡ b
unfolding value_or
ok-injective a b e = ap (value_or a) e

pub wrap_error_ok :
    {A : Type 0} (prefix : String) (r : Result A) (a : A) → wrap_error prefix r ≡ ok a → r ≡ ok a
wrap_error_ok prefix (ok x) a e = e
wrap_error_ok prefix (err x) a e = absurd (not_ok _ a e)

-- A chain that gives a value: the first part gave one, and the rest gave the value from there.
pub bind_result_ok :
    {W A B : Type 0} (r : Result A × W) (k : A → Io W B) (b : B) (w : W)
    → bind_result r k ≡ (ok b, w)
    → (a : A) × (r.0 ≡ ok a) × (k a r.1 ≡ (ok b, w))
bind_result_ok (ok a, u) k b w e = (a, refl, e)
bind_result_ok (err x, u) k b w e = absurd (not_ok x b (ap (λ p. p.0) e))

-- A part that succeeds, and the rest of its chain from there.
pub bind-wrapped :
    {W A B : Type 0} (prefix : String) (m : Io W A) (k : A → Io W B) (a : A) (w u : W)
    → m w ≡ (ok a, u)
    → (wrapped prefix m >>= k) w ≡ k a u
bind-wrapped prefix m k a w u e = ap (λ p. bind_result (wrap_error prefix p.0, p.1) k) e

-- A part that fails ends its chain.
pub bind-wrapped_err :
    {W A B : Type 0} (prefix : String) (m : Io W A) (k : A → Io W B) (e : Error) (w u : W)
    → m w ≡ (err e, u)
    → (wrapped prefix m >>= k) w ≡ (err (wrap prefix e ""), u)
bind-wrapped_err prefix m k e w u h = ap (λ p. bind_result (wrap_error prefix p.0, p.1) k) h
