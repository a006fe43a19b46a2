-- ===== src/Base/Results.antt =====
-- Go's error values, and state-passing code that can fail.
pub mod Gives
pub mod Succeeds
pub mod Keeps
use Prim.Native.String.{String, ◌++◌ as ◌<>◌}
use mathlib.Core.Bool.{Bool, true, false}

-- An error by what `errors.Is` can tell of it: a plain text, the two sentinels that the source asks
-- about, and `fmt.Errorf` with a prefix, a `%w` and a suffix.
pub data Error : Type 0 where
  plain : String → Error
  missing_tool : String → Error
  unauthorized : String → Error
  wrap : String → Error → String → Error

-- `err.Error()`
unfoldable pub message : Error → String
message (plain s) = s
message (missing_tool s) = s
message (unauthorized s) = s
message (wrap prefix e suffix) = prefix <> (message e <> suffix)

-- `errors.Is(err, exec.ErrNotFound)`
unfoldable pub is_missing_tool : Error → Bool
is_missing_tool (plain s) = false
is_missing_tool (missing_tool s) = true
is_missing_tool (unauthorized s) = false
is_missing_tool (wrap prefix e suffix) = is_missing_tool e

-- `errors.Is(err, nats.ErrAuthorization)`
unfoldable pub is_unauthorized : Error → Bool
is_unauthorized (plain s) = false
is_unauthorized (missing_tool s) = false
is_unauthorized (unauthorized s) = true
is_unauthorized (wrap prefix e suffix) = is_unauthorized e

pub data Result {ℓ} (A : Type ℓ) : Type ℓ where
  ok : A → Result A
  err : Error → Result A

abbrev pub map_result {ℓ κ} : {A : Type ℓ} {B : Type κ} → (A → B) → Result A → Result B
map_result f (ok a) = ok (f a)
map_result f (err e) = err e

-- `fmt.Errorf("prefix: %w", err)` on the error case.
abbrev pub wrap_error {ℓ} : {A : Type ℓ} → String → Result A → Result A
wrap_error prefix (ok a) = ok a
wrap_error prefix (err e) = err (wrap prefix e "")

-- Code that reads and changes a world `W`, and may fail: the changes made before a failure stay.
abbrev pub Io {ℓ} : Type 0 → Type ℓ → Type ℓ
Io W A = W → Result A × W

abbrev pub bind_result {ℓ κ} :
    {W : Type 0} {A : Type ℓ} {B : Type κ} → Result A × W → (A → Io W B) → Result B × W
bind_result (ok a, w) f = f a w
bind_result (err e, w) f = (err e, w)

infixl 5 ◌>>=◌ ◌>>◌
abbrev pub ◌>>=◌ {ℓ κ} : {W : Type 0} {A : Type ℓ} {B : Type κ} → Io W A → (A → Io W B) → Io W B
◌>>=◌ m f w = bind_result (m w) f

abbrev pub ◌>>◌ {κ} : {W : Type 0} {B : Type κ} → Io W (Unit {0}) → Io W B → Io W B
m >> k = m >>= λ _. k

abbrev pub pure {ℓ} : {W : Type 0} {A : Type ℓ} → A → Io W A
pure a w = (ok a, w)

abbrev pub throw {ℓ} : {W : Type 0} {A : Type ℓ} → Error → Io W A
throw e w = (err e, w)

abbrev pub wrapped {ℓ} : {W : Type 0} {A : Type ℓ} → String → Io W A → Io W A
wrapped prefix m w = (wrap_error prefix (m w).0, (m w).1)

abbrev pub fmap {ℓ κ} : {W : Type 0} {A : Type ℓ} {B : Type κ} → (A → B) → Io W A → Io W B
fmap f m w = (map_result f (m w).0, (m w).1)

abbrev pub lift {ℓ} : {W : Type 0} {A : Type ℓ} → Result A → Io W A
lift r w = (r, w)

-- The result of an operation that returns only an error.
abbrev pub Unit0 : Type 0
Unit0 = Unit {0}

-- A property of the value of a success.
abbrev pub OnOk {ℓ κ} : {A : Type ℓ} → (A → Type κ) → Result A → Type κ
OnOk P (ok a) = P a
OnOk P (err e) = Unit
