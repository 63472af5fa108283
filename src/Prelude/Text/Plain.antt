-- ===== src/Prelude/Text/Plain.antt =====
-- Texts of printable ASCII bytes: nothing is trimmed from them.
use proxy_proxy.Prelude.Tests.{nat_beq, leb}
use proxy_proxy.Prelude.Lists.{length, all}
use proxy_proxy.Prelude.Member.{All}
use proxy_proxy.Prelude.Text.{Str, spaces, has_prefix, form_width, drop_forms, trim_space}
use Prim.Native.Nat.{ℕ, zero, suc, ◌<◌}
use mathlib.Core.Path.{◌≡◌, refl}
use mathlib.Core.Bool.{Bool, true, false, ◌||◌}
use mathlib.Core.List.{List, [], ◌∷◌, ◌++◌, map, reverse, reverse-cons, reverse-reverse}
use native.Mathlib.Omega.{arith}

abbrev pub IsPlain : Str → Type 0
IsPlain s = All (λ c. (32 < c) × (c < 127)) s

IsPlain-concat : (s : Str) (c : ℕ) → IsPlain s → 32 < c → c < 127 → IsPlain (s ++ c ∷ [])
IsPlain-concat [] c h lo hi = ((lo, hi), tt)
IsPlain-concat (a ∷ s) c (h, hs) lo hi = (h, IsPlain-concat s c hs lo hi)

pub IsPlain-append : (s t : Str) → IsPlain s → IsPlain t → IsPlain (s ++ t)
IsPlain-append [] t h k = k
IsPlain-append (a ∷ s) t (h, hs) k = (h, IsPlain-append s t hs k)

IsPlain-reverse : (s : Str) → IsPlain s → IsPlain (reverse s)
IsPlain-reverse [] h = tt
IsPlain-reverse (c ∷ s) ((lo, hi), hs) =
    rw (reverse-cons c s) (IsPlain-concat (reverse s) c (IsPlain-reverse s hs) lo hi)

-- A form that begins with no printable ASCII byte.
unfoldable starts_outside : Str → Bool
starts_outside [] = false
starts_outside (d ∷ p) = leb d 32 || leb 127 d

form_width-plain :
    (ps : List Str) (c : ℕ) (s : Str)
    → 32 < c
    → c < 127
    → all starts_outside ps ≡ true
    → form_width ps (c ∷ s) ≡ 0
unfolding all starts_outside form_width has_prefix
form_width-plain [] c s lo hi h = refl
form_width-plain ([] ∷ ps) c s lo hi h = absurd (cc)
form_width-plain ((d ∷ p) ∷ ps) c s lo hi h =
    let ih = form_width-plain ps c s lo hi (ground arith) in
    let differs : nat_beq c d ≡ false = ground arith in rw differs ih

spaces-outside :
    (all starts_outside spaces ≡ true) × (all starts_outside (map reverse spaces) ≡ true)
unfolding all starts_outside
spaces-outside = (refl, refl)

drop_forms-none : (ps : List Str) (f : ℕ) (s : Str) → form_width ps s ≡ 0 → drop_forms ps f s ≡ s
unfolding drop_forms
drop_forms-none ps zero s h = refl
drop_forms-none ps (suc f) s h = rw (h, drop_forms) refl

drop_forms-plain :
    (ps : List Str) (f : ℕ) (s : Str)
    → all starts_outside ps ≡ true
    → IsPlain s
    → drop_forms ps f s ≡ s
unfolding form_width has_prefix all starts_outside
drop_forms-plain ps f [] h plain = drop_forms-none ps f [] (nothing ps h)
  where
    nothing : (ps : List Str) → all starts_outside ps ≡ true → form_width ps [] ≡ 0
    nothing [] h = refl
    nothing ([] ∷ ps) h = absurd (cc)
    nothing ((d ∷ p) ∷ ps) h = nothing ps (ground arith)
drop_forms-plain ps f (c ∷ s) h ((lo, hi), plain) =
    drop_forms-none ps f (c ∷ s) (form_width-plain ps c s lo hi h)

-- A plain text is as it is when trimmed.
pub trim_space-plain : (s : Str) → IsPlain s → trim_space s ≡ s
unfolding trim_space
trim_space-plain s plain =
    let (front, back) = spaces-outside in
    rw
      (
        drop_forms-plain spaces (length s) s front plain,
        drop_forms-plain (map reverse spaces) (length s) (reverse s) back (IsPlain-reverse s plain),
      )
      (reverse-reverse s)
