-- ===== src/Proxy/Values.antt =====
-- The values that encoding/json writes; an object lists its fields in the order of the code.
use xdev.Prelude.{Bool, List, [], ◌∷◌, Option, none, some, if◌then◌else◌, Text, text_eq}
use xdev.Prelude.Int.{ℤ}

mutual
  pub data Json : Type 0 where
    text : Text → Json
    number : ℤ → Json
    flag : Bool → Json
    array : Items → Json
    object : Fields → Json

  pub data Items : Type 0 where
    end : Items
    item : Json → Items → Items

  pub data Fields : Type 0 where
    close : Fields
    field : Text → Json → Fields → Fields

abbrev pub items : List Json → Items
items [] = end
items (j ∷ js) = item j (items js)

abbrev pub texts : List Text → Items
texts [] = end
texts (t ∷ ts) = item (text t) (texts ts)

abbrev pub fields : List (Text × Json) → Fields
fields [] = close
fields (e ∷ es) = field e.0 e.1 (fields es)

unfoldable pub get_field : Text → Fields → Option Json
get_field k close = none
get_field k (field name j fs) = let rest = get_field k fs in if text_eq name k then some j else rest

-- A field of a value, if that is an object with such a field.
unfoldable pub lookup : Text → Option Json → Option Json
unfolding get_field
lookup k none = none
lookup k (some (text t)) = none
lookup k (some (number n)) = none
lookup k (some (flag b)) = none
lookup k (some (array js)) = none
lookup k (some (object fs)) = get_field k fs
