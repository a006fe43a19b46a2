-- ===== src/Json.antt =====
-- encoding/json as internal/dispatcher/dispatcher.go and internal/protocol/envelope.go use it:
-- decoding a raw message into a struct. A `json.RawMessage` inside a decoded message is well formed,
-- so it is modelled as the value that its text denotes; `none` is a message that is absent (`nil`).
pub mod Nested
use pfsense_agent.Base.{
  String, ◌<>◌, Bool, Option, none, some, List, [], ◌∷◌, Char, code, map_chars, lower_char, str_eq,
  ◌==◌, if◌then◌else◌, Result, ok, err, Error, plain,
}
use pfsense_agent.Base.Int.{ℤ}

-- `integer` holds the numbers that fit an `int64`; any other number keeps its text. An empty array or
-- object with white space inside its brackets is told apart, because `emptyParams` compares texts.
mutual
  pub data Json : Type 0 where
    null : Json
    boolean : Bool → Json
    integer : ℤ → Json
    number : String → Json
    str : String → Json
    arr : Items → Json
    obj : Fields → Json
    blank_arr blank_obj : Json

  pub data Items : Type 0 where
    nil : Items
    item : Json → Items → Items

  pub data Fields : Type 0 where
    end : Fields
    field : String → Json → Fields → Fields

-- A struct's field takes a key that equals its name up to case. Besides the ASCII letters, the
-- long s and the Kelvin sign fold to letters.
fold_char : Char → Char
unfolding lower_char
fold_char c = if code c == 0x17F then "s" else if code c == 0x212A then "k" else lower_char c

unfoldable pub names_field : String → String → Bool
unfolding fold_char map_chars
names_field key name = str_eq (map_chars fold_char key) name

-- The word for a value in an `UnmarshalTypeError`.
unfoldable pub describe : Json → String
describe null = "null"
describe (boolean b) = "bool"
describe (integer z) = "number"
describe (number lit) = "number"
describe (str s) = "string"
describe (arr xs) = "array"
describe (obj fs) = "object"
describe blank_arr = "array"
describe blank_obj = "object"

-- What has been decoded so far, with the first type error.
abbrev pub Decoded : Type 0 → Type 0
Decoded A = A × Option Error

abbrev first_error : Option Error → Option Error → Option Error
first_error none e = e
first_error (some d) e = some d

mismatch : String → String → String → String → Error
mismatch value owner name type = plain (
    "json: cannot unmarshal "
    <> (value <> (" into Go struct field " <> (owner <> ("." <> (name <> (" of type " <> type)))))))

-- A value decoded into a field of type `string`, `int`, `[]string` or `json.RawMessage`, whose
-- value was the second argument. `null` leaves a string and a number as they were.
module _ (owner name : String) where
  unfoldable pub string_field : Json → String → Decoded String
  unfolding describe mismatch
  string_field null old = (old, none)
  string_field (str s) old = (s, none)
  string_field v old = (old, some (mismatch (describe v) owner name "string"))

  unfoldable pub int_field : Json → ℤ → Decoded ℤ
  unfolding describe mismatch
  int_field null old = (old, none)
  int_field (integer z) old = (z, none)
  int_field (number lit) old = (old, some (mismatch ("number " <> lit) owner name "int"))
  int_field v old = (old, some (mismatch (describe v) owner name "int"))

  unfoldable pub bool_field : Json → Bool → Decoded Bool
  unfolding describe mismatch
  bool_field null old = (old, none)
  bool_field (boolean b) old = (b, none)
  bool_field v old = (old, some (mismatch (describe v) owner name "bool"))

  unfoldable pub string_items : Items → Decoded (List String)
  unfolding string_field
  string_items nil = ([], none)
  string_items (item v vs) =
      let (s, e) = string_field v "" in
      let (rest, e') = string_items vs in (s ∷ rest, first_error e e')

  unfoldable pub strings_field : Json → List String → Decoded (List String)
  unfolding describe mismatch string_items
  strings_field null old = ([], none)
  strings_field (arr vs) old = string_items vs
  strings_field blank_arr old = ([], none)
  strings_field v old = (old, some (mismatch (describe v) owner name "[]string"))

abbrev pub raw_field : Json → Option Json → Decoded (Option Json)
raw_field v old = (some v, none)

-- The value of one field put into the struct around it.
abbrev pub set_field : {A B : Type 0} → Decoded B → (B → A) → Decoded A
set_field (b, e) put = (put b, e)

-- How a struct takes a key and its value; unknown keys are ignored. A key may come again.
abbrev pub Setter : Type 0 → Type 0
Setter A = String → Json → A → Decoded A

module _ {A : Type 0} where
  unfoldable pub decode_fields : Setter A → Fields → A → Option Error → Decoded A
  decode_fields set end a e = (a, e)
  decode_fields set (field key v fs) a e =
      decode_fields set fs (set key v a).0 (first_error e (set key v a).1)

  abbrev pub finish : Decoded A → Result A
  finish (a, none) = ok a
  finish (a, some e) = err e

  -- `json.Unmarshal(raw, &a)`, for a struct of the named type.
  unfoldable pub unmarshal : String → Setter A → A → Option Json → Result A
  unfolding describe decode_fields
  unmarshal type set zero none = err (plain "unexpected end of JSON input")
  unmarshal type set zero (some null) = ok zero
  unmarshal type set zero (some (obj fs)) = finish (decode_fields set fs zero none)
  unmarshal type set zero (some blank_obj) = ok zero
  unmarshal type set zero (some v) =
      err (plain ("json: cannot unmarshal " <> (describe v <> (" into Go value of type " <> type))))

-- A value decoded into a field that is a pointer to a struct, whose own fields it sets from the
-- struct that is there or a new one.
module _ {A : Type 0} (owner name type : String) (set : Setter A) (zero : A) where
  held : Option A → A
  held none = zero
  held (some a) = a

  abbrev some_field : Decoded A → Decoded (Option A)
  some_field (a, e) = (some a, e)

  unfoldable pub pointer_field : Json → Option A → Decoded (Option A)
  unfolding describe mismatch decode_fields held
  pointer_field null old = (none, none)
  pointer_field (obj fs) old = some_field (decode_fields set fs (held old) none)
  pointer_field blank_obj old = (some (held old), none)
  pointer_field v old = (old, some (mismatch (describe v) owner name type))
