-- ===== src/Prelude/Text.antt =====
-- Go strings as lists of bytes, and the functions of Go's `strings` and `strconv` that the
-- program calls.
pub mod Numeral
pub mod Host
pub mod Plain
pub mod Decimal
use Prim.Native.Nat.{ℕ, zero, suc, ◌+◌, ◌-◌, ◌*◌, ◌/◌, ◌%◌, ◌≤◌, ◌<◌}
use Prim.Native.Char.{code}
use Prim.Native.String.{String}
use mathlib.Core.Path.{◌≡◌, refl, ap}
use mathlib.Core.Logic.{◌≢◌, ◌↔◌}
use mathlib.Core.Bool.{Bool, true, false, ◌&&◌, ◌||◌, not}
use mathlib.Core.Option.{Option, none, some}
use mathlib.Core.List.{List, [], ◌∷◌, ◌++◌, map, reverse}
use native.Mathlib.Omega.{arith}
use proxy_proxy.Prelude.Tests.{ltb, leb, nat_beq, nat_beq_iff, Eq, ◌==◌, nat_eq, if◌then◌else◌}
use proxy_proxy.Prelude.Lists.{length, drop}
use proxy_proxy.Prelude.Member.{contains}

abbrev pub Str : Type 0
Str = List ℕ

-- A literal of the source; the ones used are ASCII.
unfoldable pub lit : String → Str
lit String.[] = []
lit (String.◌∷◌ c s) = code c ∷ lit s

unfoldable pub str_beq : Str → Str → Bool
str_beq [] [] = true
str_beq (a ∷ s) (b ∷ t) = nat_beq a b && str_beq s t
str_beq _ _ = false

pub str_beq_iff : (s t : Str) → (str_beq s t ≡ true) ↔ (s ≡ t)
unfolding str_beq
str_beq_iff [] [] = ground arith
str_beq_iff (a ∷ s) (b ∷ t) = ground (arith, str_beq_iff s t)
str_beq_iff [] (b ∷ t) = ground arith
str_beq_iff (a ∷ s) [] = ground arith

instance abbrev pub str_eq : Eq Str
str_eq = record { beq = str_beq; beq_iff = str_beq_iff }

abbrev pub is_empty : Str → Bool
is_empty [] = true
is_empty (c ∷ s) = false

pub eq-nil_of_is_empty : (s : Str) → is_empty s ≡ true → s ≡ []
eq-nil_of_is_empty [] h = refl
eq-nil_of_is_empty (c ∷ s) h = cc

pub is_empty_of_ne : (s : Str) → s ≢ [] → is_empty s ≡ false
is_empty_of_ne [] h = absurd (h refl)
is_empty_of_ne (c ∷ s) h = refl

pub is_empty_of_eq : (s : Str) → s ≡ [] → is_empty s ≡ true
is_empty_of_eq [] h = refl
is_empty_of_eq (c ∷ s) h = cc

-- `strings.HasPrefix`
unfoldable pub has_prefix : Str → Str → Bool
has_prefix s [] = true
has_prefix [] (c ∷ p) = false
has_prefix (a ∷ s) (c ∷ p) = nat_beq a c && has_prefix s p

-- `strings.Contains`
unfoldable pub contains_str : Str → Str → Bool
unfolding has_prefix
contains_str [] p = is_empty p
contains_str (a ∷ s) p = has_prefix (a ∷ s) p || contains_str s p

-- `strings.ContainsAny` with a set of ASCII characters
unfoldable pub contains_any : Str → Str → Bool
unfolding contains
contains_any [] cs = false
contains_any (a ∷ s) cs = contains cs a || contains_any s cs

-- The UTF-8 forms of the runes for which `unicode.IsSpace` holds.
abbrev spaces : List Str
spaces =
    (0x20 ∷ [])
    ∷ (0x09 ∷ [])
    ∷ (0x0a ∷ [])
    ∷ (0x0b ∷ [])
    ∷ (0x0c ∷ [])
    ∷ (0x0d ∷ [])
    ∷ (0xc2 ∷ 0x85 ∷ [])
    ∷ (0xc2 ∷ 0xa0 ∷ [])
    ∷ (0xe1 ∷ 0x9a ∷ 0x80 ∷ [])
    ∷ (0xe2 ∷ 0x80 ∷ 0x80 ∷ [])
    ∷ (0xe2 ∷ 0x80 ∷ 0x81 ∷ [])
    ∷ (0xe2 ∷ 0x80 ∷ 0x82 ∷ [])
    ∷ (0xe2 ∷ 0x80 ∷ 0x83 ∷ [])
    ∷ (0xe2 ∷ 0x80 ∷ 0x84 ∷ [])
    ∷ (0xe2 ∷ 0x80 ∷ 0x85 ∷ [])
    ∷ (0xe2 ∷ 0x80 ∷ 0x86 ∷ [])
    ∷ (0xe2 ∷ 0x80 ∷ 0x87 ∷ [])
    ∷ (0xe2 ∷ 0x80 ∷ 0x88 ∷ [])
    ∷ (0xe2 ∷ 0x80 ∷ 0x89 ∷ [])
    ∷ (0xe2 ∷ 0x80 ∷ 0x8a ∷ [])
    ∷ (0xe2 ∷ 0x80 ∷ 0xa8 ∷ [])
    ∷ (0xe2 ∷ 0x80 ∷ 0xa9 ∷ [])
    ∷ (0xe2 ∷ 0x80 ∷ 0xaf ∷ [])
    ∷ (0xe2 ∷ 0x81 ∷ 0x9f ∷ [])
    ∷ (0xe3 ∷ 0x80 ∷ 0x80 ∷ [])
    ∷ []

-- The length of the first form that the text begins with, 0 if there is none.
unfoldable pub form_width : List Str → Str → ℕ
unfolding has_prefix
form_width [] s = 0
form_width (p ∷ ps) s = if has_prefix s p then length p else form_width ps s

-- Drops forms from the front; each takes at least a byte, so the length is fuel enough.
unfoldable pub drop_forms : List Str → ℕ → Str → Str
unfolding form_width
drop_forms ps zero s = s
drop_forms ps (suc f) s =
    let n = form_width ps s in
    let rest = drop_forms ps f (drop n s) in if nat_beq n 0 then s else rest

-- `strings.TrimSpace`
unfoldable pub trim_space : Str → Str
unfolding drop_forms
trim_space s =
    let front = drop_forms spaces (length s) s in
    reverse (drop_forms (map reverse spaces) (length front) (reverse front))

-- The lower case of the rune in front, and how many more bytes it takes. Only ASCII letters and
-- U+0130 (i) and U+212A (k) have an ASCII lower case.
unfoldable pub lower_head : ℕ → Str → ℕ × ℕ
unfolding has_prefix
lower_head a s =
    if leb b'A' a && leb a b'Z'
    then (a + 32, 0)
    else if nat_beq a 0xc4 && has_prefix s (0xb0 ∷ [])
    then (b'i', 1)
    else if nat_beq a 0xe2 && has_prefix s (0x84 ∷ 0xaa ∷ [])
    then (b'k', 2)
    else (a, 0)

unfoldable pub lower_from : ℕ → Str → Str
unfolding lower_head
lower_from skip [] = []
lower_from (suc skip) (a ∷ s) = lower_from skip s
lower_from zero (a ∷ s) = let (c, skip) = lower_head a s in c ∷ lower_from skip s

-- `strings.ToLower`, as far as a comparison with ASCII text shows: another rune is left as it is,
-- and neither it nor its lower case is ASCII.
unfoldable pub to_lower : Str → Str
unfolding lower_from
to_lower s = lower_from 0 s

-- `strings.Join`
unfoldable pub join : Str → List Str → Str
join sep [] = []
join sep (s ∷ []) = s
join sep (s ∷ t ∷ ss) = s ++ (sep ++ join sep (t ∷ ss))

trim_lower : to_lower (trim_space (lit "  User-AgentX ")) ≡ lit "user-agentx"
unfolding to_lower trim_space lit
trim_lower = refl
