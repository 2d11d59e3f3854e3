-- ===== src/Config/Values.antt =====
-- `config_helpers.py`: the checks on the values of a configuration file. Python's `Path` and
-- `shlex` are parameters.
use s3_storage_node.Common.{
  String, Bool, not, ◌&&◌, ◌||◌, List, [], ◌∷◌, Option, none, some, if◌then◌else◌, str_eq, mem_text,
}
use s3_storage_node.Common.Int.{ℤ, pos, negsuc, eq_ℤ}
use s3_storage_node.Common.Dict.{Dict, lookup}
use s3_storage_node.Common.Json.{Json, null, bool, int, str, arr, object, elements, as_dict}
use s3_storage_node.Common.Result.{Result, ok, err, ◌>>=◌}

-- The messages of `ConfigError`, with the name of the value.
pub data ConfigError : Type 0 where
  not_a_table not_a_string not_an_integer not_a_boolean : String → ConfigError
  not_strings not_integers not_relative not_positive : String → ConfigError

-- `Path(text)`: whether it is absolute, and its parts.
pub record Paths : Type 0 where
  pub is_absolute : String → Bool
  pub parts : String → List String
  -- `shlex.split`
  pub shell_words : String → List String

abbrev or_object : Option Json → Json
or_object none = object []
or_object (some v) = v

abbrev dict_or_raise : String → Option (Dict Json) → Result ConfigError (Dict Json)
dict_or_raise key none = err (not_a_table key)
dict_or_raise key (some d) = ok d

-- `_table`
unfoldable pub table : Dict Json → String → Result ConfigError (Dict Json)
table data_ key = dict_or_raise key (as_dict (or_object (lookup key data_)))

-- `_string`; a missing value and a null are `null`.
abbrev pub string_value : Json → String → String → Result ConfigError String
string_value null name default = ok default
string_value (str s) name default = ok s
string_value _ name default = err (not_a_string name)

-- `_int`
abbrev pub int_value : Json → String → ℤ → Result ConfigError ℤ
int_value null name default = ok default
int_value (int z) name default = ok z
int_value _ name default = err (not_an_integer name)

-- `_bool`
abbrev pub bool_value : Json → String → Bool → Result ConfigError Bool
bool_value null name default = ok default
bool_value (bool b) name default = ok b
bool_value _ name default = err (not_a_boolean name)

abbrev add_string :
    String → Json → Result ConfigError (List String) → Result ConfigError (List String)
add_string name (str s) (ok rest) = ok (s ∷ rest)
add_string name _ _ = err (not_strings name)

unfoldable pub all_strings : String → List Json → Result ConfigError (List String)
all_strings name [] = ok []
all_strings name (v ∷ vs) = add_string name v (all_strings name vs)

-- `_string_list`
abbrev pub string_list : Paths → Json → String → Result ConfigError (List String)
string_list paths null name = ok []
string_list paths (str s) name = ok (paths.shell_words s)
string_list paths (arr items) name = all_strings name (elements items)
string_list paths _ name = err (not_strings name)

abbrev add_int : String → Json → Result ConfigError (List ℤ) → Result ConfigError (List ℤ)
add_int name (int z) (ok rest) = ok (z ∷ rest)
add_int name _ _ = err (not_integers name)

unfoldable pub all_ints : String → List Json → Result ConfigError (List ℤ)
all_ints name [] = ok []
all_ints name (v ∷ vs) = add_int name v (all_ints name vs)

-- `_int_list`
abbrev pub int_list : Json → String → Result ConfigError (List ℤ)
int_list null name = ok []
int_list (arr items) name = all_ints name (elements items)
int_list _ name = err (not_integers name)

abbrev pub checked_path : Paths → String → String → Result ConfigError String
checked_path paths name result =
    if str_eq result "" || paths.is_absolute result || mem_text ".." (paths.parts result)
    then err (not_relative name)
    else ok result

-- `_relative_path`
unfoldable pub relative_path : Paths → Json → String → String → Result ConfigError String
relative_path paths value name default = string_value value name default >>= checked_path paths name

-- `_positive`
abbrev pub positive : ℤ → String → Bool → Result ConfigError ℤ
positive (negsuc n) name allow_zero = err (not_positive name)
positive (pos n) name allow_zero =
    if eq_ℤ (pos n) (pos 0) && not allow_zero then err (not_positive name) else ok (pos n)
