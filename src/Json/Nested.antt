-- ===== src/Json/Nested.antt =====
-- encoding/json on structs inside structs, on slices of them, and on pointers to texts. A key whose value
-- is a slice is taken to come once.
use pfsense_agent.Base.{String, ◌<>◌, ◌≡◌, refl, ap, Option, none, some, List, [], ◌∷◌}
use pfsense_agent.Base.Int.{ℤ}
use pfsense_agent.Json.{
  Json, null, integer, number, str, arr, obj, blank_arr, blank_obj, Items, nil, item, Fields,
  Decoded, Setter, describe, mismatch, first_error, decode_fields, string_items, string_field,
  strings_field,
}

unfoldable pub raw_items : Items → List Json
raw_items nil = []
raw_items (item v vs) = v ∷ raw_items vs

module _ (owner name : String) where
  unfoldable pub int64_field : Json → ℤ → Decoded ℤ
  unfolding describe mismatch
  int64_field null old = (old, none)
  int64_field (integer z) old = (z, none)
  int64_field (number lit) old = (old, some (mismatch ("number " <> lit) owner name "int64"))
  int64_field v old = (old, some (mismatch (describe v) owner name "int64"))

  -- A field of type `*string`.
  unfoldable pub text_pointer_field : Json → Option String → Decoded (Option String)
  unfolding describe mismatch
  text_pointer_field null old = (none, none)
  text_pointer_field (str s) old = (some s, none)
  text_pointer_field v old = (old, some (mismatch (describe v) owner name "string"))

  -- A field of type `[]json.RawMessage`.
  unfoldable pub raws_field : Json → List Json → Decoded (List Json)
  unfolding describe mismatch raw_items
  raws_field null old = ([], none)
  raws_field (arr vs) old = (raw_items vs, none)
  raws_field blank_arr old = ([], none)
  raws_field v old = (old, some (mismatch (describe v) owner name "[]json.RawMessage"))

-- A struct of the named type, by how it takes its keys, and a slice of such structs.
module _ {A : Type 0} (owner name type : String) (set : Setter A) where
  unfoldable pub struct_field : Json → A → Decoded A
  unfolding describe mismatch decode_fields
  struct_field null old = (old, none)
  struct_field (obj fs) old = decode_fields set fs old none
  struct_field blank_obj old = (old, none)
  struct_field v old = (old, some (mismatch (describe v) owner name type))

  struct_items : A → Items → Decoded (List A)
  unfolding struct_field
  struct_items zero nil = ([], none)
  struct_items zero (item v vs) =
      let (a, e) = struct_field v zero in
      let (rest, e') = struct_items zero vs in (a ∷ rest, first_error e e')

  unfoldable pub structs_field : A → Json → List A → Decoded (List A)
  unfolding describe mismatch struct_items
  structs_field zero null old = ([], none)
  structs_field zero (arr vs) old = struct_items zero vs
  structs_field zero blank_arr old = ([], none)
  structs_field zero v old = (old, some (mismatch (describe v) owner name ("[]" <> type)))

-- An array of what a function writes for each element.
abbrev pub array_of : {A : Type 0} → (A → Json) → List A → Items
array_of write [] = nil
array_of write (a ∷ rest) = item (write a) (array_of write rest)

module _ {A : Type 0} (owner name type : String) (set : Setter A) (zero : A)
    (write : A → Fields) where
  -- A struct that is decoded from what is written for it is decoded from the object of that.
  pub struct_field_lem :
      (a : A)
      → decode_fields set (write a) zero none ≡ (a, none)
      → struct_field owner name type set (obj (write a)) zero ≡ (a, none)
  unfolding struct_field
  struct_field_lem a h = h

  struct_items_lem :
      ((a : A) → decode_fields set (write a) zero none ≡ (a, none))
      → (xs : List A)
      → struct_items owner name type set zero (array_of (λ a. obj (write a)) xs) ≡ (xs, none)
  unfolding struct_items
  struct_items_lem h [] = refl
  struct_items_lem h (a ∷ rest) = rw (h a, struct_items_lem h rest) refl

  -- Structs that are each decoded from what is written for them are decoded from the array of that.
  pub structs_field_lem :
      ((a : A) → decode_fields set (write a) zero none ≡ (a, none))
      → (xs old : List A)
      → structs_field owner name type set zero (arr (array_of (λ a. obj (write a)) xs)) old
        ≡ (xs, none)
  unfolding structs_field
  structs_field_lem h xs old = struct_items_lem h xs

raw_items_lem : (xs : List Json) → raw_items (array_of (λ v. v) xs) ≡ xs
unfolding raw_items
raw_items_lem [] = refl
raw_items_lem (x ∷ rest) = ap (λ ys. x ∷ ys) (raw_items_lem rest)

string_items_lem :
    (owner name : String) (xs : List String)
    → string_items owner name (array_of str xs) ≡ (xs, none)
unfolding string_items string_field
string_items_lem owner name [] = refl
string_items_lem owner name (x ∷ rest) = rw (string_items_lem owner name rest) refl

pub strings_field_lem :
    (owner name : String) (xs old : List String)
    → strings_field owner name (arr (array_of str xs)) old ≡ (xs, none)
unfolding strings_field
strings_field_lem owner name xs old = string_items_lem owner name xs

pub raws_field_lem :
    (owner name : String) (xs old : List Json)
    → raws_field owner name (arr (array_of (λ v. v) xs)) old ≡ (xs, none)
unfolding raws_field
raws_field_lem owner name xs old = rw (raw_items_lem xs) refl
