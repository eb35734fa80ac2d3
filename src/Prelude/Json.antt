-- ===== src/Prelude/Json.antt =====
-- The values that `encoding/json` decodes into an `interface{}`, and Go's type assertions on them.
-- A decoded object is a Go map, so no key stands twice in it.
use Prim.Native.String.{String}
use mathlib.Core.Bool.{Bool}
use mathlib.Core.Option.{Option, none, some}
use mathlib.Core.List.{List, [], ◌∷◌}
use text.Mathlib.Text.{◌==◌}
use mercury_relay.Prelude.Tests.{if◌then◌else◌}

mutual
  pub data Json (F : Type 0) : Type 0 where
    null : Json F
    boolean : Bool → Json F
    num : F → Json F
    str : String → Json F
    arr : Items F → Json F
    obj : Fields F → Json F

  pub data Items (F : Type 0) : Type 0 where
    nil : Items F
    cons : Json F → Items F → Items F

  pub data Fields (F : Type 0) : Type 0 where
    end : Fields F
    entry : String → Json F → Fields F → Fields F

module _ {F : Type 0} where
  abbrev pub to_list : Items F → List (Json F)
  to_list nil = []
  to_list (cons j js) = j ∷ to_list js

  -- `v, ok := m[name]`
  unfoldable pub get : String → Fields F → Option (Json F)
  get name end = none
  get name (entry k j fs) = if k == name then some j else get name fs

  -- `x, ok := j.(string)`, and so on.
  abbrev pub as_string : Json F → Option String
  as_string (str s) = some s
  as_string _ = none

  abbrev pub as_number : Json F → Option F
  as_number (num x) = some x
  as_number _ = none

  abbrev pub as_array : Json F → Option (List (Json F))
  as_array (arr js) = some (to_list js)
  as_array _ = none

  abbrev pub as_object : Json F → Option (Fields F)
  as_object (obj fs) = some fs
  as_object _ = none

-- What the program takes from Go's standard library and reads no further: the JSON decoder,
-- Unicode lower-casing, splitting at white space, and regular expressions, whose answer is `none`
-- where the pattern does not compile.
pub record Stdlib (F : Type 0) : Type 0 where
  pub decode : String → Option (Json F)
  pub to_lower : String → String
  pub fields : String → List String
  pub match_string : String → String → Option Bool
