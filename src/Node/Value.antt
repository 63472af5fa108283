-- ===== src/Node/Value.antt =====
-- The Go values of type `any` that a decoded document holds, and `map[string]any`.
pub mod Laws
use proxy_proxy.Prelude.{Bool, List, Option, none, some}
use proxy_proxy.Prelude.Tests.{◌==◌, if◌then◌else◌}
use proxy_proxy.Prelude.Int.{ℤ}
use proxy_proxy.Prelude.Text.{Str, str_eq}

-- `float` holds the number's integer part and the form that `fmt.Sprint` gives it.
mutual
  pub data Value : Type 0 where
    null : Value
    bool : Bool → Value
    int : ℤ → Value
    float : ℤ → Str → Value
    text : Str → Value
    texts : List Str → Value
    items : Items → Value
    object : Object → Value

  pub data Items : Type 0 where
    nil : Items
    cons : Value → Items → Items

  pub data Object : Type 0 where
    empty : Object
    field : Str → Value → Object → Object

-- `m[key]`, null where the key is missing
unfoldable pub get : Str → Object → Value
get key empty = null
get key (field k v m) = if k == key then v else get key m

-- `_, ok := m[key]`
unfoldable pub find? : Str → Object → Option Value
find? key empty = none
find? key (field k v m) = if k == key then some v else find? key m

-- `m[key] = v`
unfoldable pub set : Str → Value → Object → Object
set key v empty = field key v empty
set key v (field k w m) = if k == key then field k v m else field k w (set key v m)
