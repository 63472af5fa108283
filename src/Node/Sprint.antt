-- ===== src/Node/Sprint.antt =====
-- `fmt.Sprint` of a decoded value, and the conversions `str`, `toInt` and `toBool` of
-- internal/node/node.go.
use proxy_proxy.Prelude.{◌-◌, ◌^◌, List, [], ◌∷◌, ◌++◌, map, Bool, true, false, ◌||◌}
use proxy_proxy.Prelude.Tests.{if◌then◌else◌, ltb, nat_beq, ◌==◌}
use proxy_proxy.Prelude.Int.{ℤ, pos, negsuc}
use proxy_proxy.Prelude.Text.{Str, lit, join, trim_space, str_eq}
use proxy_proxy.Prelude.Text.Numeral.{itoa, atoi, value_of}
use proxy_proxy.Node.Value.{
  Value, null, bool, int, float, text, texts, items, object, Items, nil, cons, Object, empty, field,
}

-- The byte order of strings.
unfoldable pub str_ltb : Str → Str → Bool
str_ltb [] [] = false
str_ltb [] (b ∷ t) = true
str_ltb (a ∷ s) [] = false
str_ltb (a ∷ s) (b ∷ t) = let rest = str_ltb s t in if nat_beq a b then rest else ltb a b

unfoldable pub insert_field : Str × Str → List (Str × Str) → List (Str × Str)
unfolding str_ltb
insert_field (k, v) [] = (k, v) ∷ []
insert_field (k, v) ((j, w) ∷ fs) =
    if str_ltb k j then (k, v) ∷ (j, w) ∷ fs else (j, w) ∷ insert_field (k, v) fs

unfoldable pub print_bool : Bool → Str
unfolding lit
print_bool true = lit "true"
print_bool false = lit "false"

abbrev pub bracketed : List Str → Str
bracketed parts = b'[' ∷ (join (b' ' ∷ []) parts ++ b']' ∷ [])

-- Maps print their keys in order.
unfoldable mutual
  unfolding insert_field print_bool lit

  pub sprint : Value → Str
  sprint null = lit "<nil>"
  sprint (bool b) = print_bool b
  sprint (int n) = itoa n
  sprint (float n s) = s
  sprint (text s) = s
  sprint (texts ss) = bracketed ss
  sprint (items vs) = bracketed (sprint_items vs)
  sprint (object m) = lit "map" ++ bracketed (map (λ (k, v). k ++ (b':' ∷ v)) (sprint_fields m))

  pub sprint_items : Items → List Str
  sprint_items nil = []
  sprint_items (cons v vs) = sprint v ∷ sprint_items vs

  pub sprint_fields : Object → List (Str × Str)
  sprint_fields empty = []
  sprint_fields (field k v m) = insert_field (k, sprint v) (sprint_fields m)

unfoldable pub str : Value → Str
str null = []
str (text s) = s
str v = sprint v

-- `int(n)`: an unsigned 64-bit integer may be too large for a signed one, and wraps around.
unfoldable pub as_int : ℤ → ℤ
as_int (pos n) = if ltb n (2 ^ 63) then pos n else negsuc (2 ^ 64 - 1 - n)
as_int (negsuc n) = negsuc n

-- A numeral in a string gives its value, also out of range; other text gives 0. The decoders of the
-- program give no `json.Number`, which is left out, and a float beyond the integers, whose conversion
-- Go leaves to the platform, gives its integer part.
unfoldable pub to_int : Value → ℤ
unfolding as_int
to_int (int n) = as_int n
to_int (float n s) = n
to_int (text s) = value_of (atoi (trim_space s))
to_int _ = pos 0

unfoldable pub to_bool : Value → Bool
to_bool (bool b) = b
to_bool (text s) = s == lit "true" || s == lit "1" || s == lit "tls"
to_bool _ = false
