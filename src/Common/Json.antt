-- ===== src/Common/Json.antt =====
-- Decoded JSON and TOML values, and the Python built-ins that convert them.
use Prim.Native.Nat.{ℕ}
use Prim.Native.String.{String}
use mathlib.Core.Path.{◌≡◌, refl, ap}
use mathlib.Core.Bool.{Bool}
use mathlib.Core.Option.{Option, none, some}
use mathlib.Core.List.{List, [], ◌∷◌}
use s3_storage_node.Common.Int.{ℤ}
use s3_storage_node.Common.Dict.{Dict}

-- A float is a time in thousandths of a second, exact and not negative.
mutual
  pub data Json : Type 0 where
    null : Json
    bool : Bool → Json
    int : ℤ → Json
    float : ℕ → Json
    str : String → Json
    arr : Items → Json
    obj : Fields → Json

  pub data Items : Type 0 where
    nil : Items
    cons : Json → Items → Items

  pub data Fields : Type 0 where
    end : Fields
    field : String → Json → Fields → Fields

abbrev pub entries : Fields → Dict Json
entries end = []
entries (field k v fs) = (k, v) ∷ entries fs

abbrev pub fields_of : Dict Json → Fields
fields_of [] = end
fields_of ((k, v) ∷ d) = field k v (fields_of d)

abbrev pub object : Dict Json → Json
object d = obj (fields_of d)

abbrev pub elements : Items → List Json
elements nil = []
elements (cons x xs) = x ∷ elements xs

abbrev pub items_of : List Json → Items
items_of [] = nil
items_of (x ∷ xs) = cons x (items_of xs)

abbrev pub array : List Json → Json
array xs = arr (items_of xs)

-- `isinstance(v, dict)`
abbrev pub as_dict : Json → Option (Dict Json)
as_dict (obj fs) = some (entries fs)
as_dict _ = none

-- `isinstance(v, list)`
abbrev pub as_list : Json → Option (List Json)
as_list (arr xs) = some (elements xs)
as_list _ = none

-- `isinstance(v, str)`
abbrev pub as_str : Json → Option String
as_str (str s) = some s
as_str _ = none

-- `isinstance(v, bool)`
abbrev pub as_bool : Json → Option Bool
as_bool (bool b) = some b
as_bool _ = none

pub entries-fields_of : (d : Dict Json) → entries (fields_of d) ≡ d
entries-fields_of [] = refl
entries-fields_of ((k, v) ∷ d) = ap (λ r. (k, v) ∷ r) (entries-fields_of d)

pub elements-items_of : (xs : List Json) → elements (items_of xs) ≡ xs
elements-items_of [] = refl
elements-items_of (x ∷ xs) = ap (λ r. x ∷ r) (elements-items_of xs)

-- `str(v)`, `float(v)` and `int(v)` of Python; `none` is a raised TypeError or ValueError.
pub record Builtins : Type 0 where
  pub str_of : Json → String
  pub float_of : Json → Option ℕ
  pub int_of : Json → Option ℤ
  pub str_of_str : (s : String) → str_of (str s) ≡ s
  pub float_of_float : (t : ℕ) → float_of (float t) ≡ some t
  pub int_of_int : (z : ℤ) → int_of (int z) ≡ some z

abbrev plain_str : Json → String
plain_str (str s) = s
plain_str _ = ""

abbrev plain_float : Json → Option ℕ
plain_float (float t) = some t
plain_float _ = none

abbrev plain_int : Json → Option ℤ
plain_int (int z) = some z
plain_int _ = none

-- Built-ins that convert no value to another type.
abbrev pub plain : Builtins
plain = record {
  str_of = plain_str;
  float_of = plain_float;
  int_of = plain_int;
  str_of_str = λ s. refl;
  float_of_float = λ t. refl;
  int_of_int = λ z. refl;
}
