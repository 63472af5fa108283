-- ===== src/Prelude/Text/Numeral.antt =====
-- `strconv.Itoa` and `strconv.Atoi`, and that different numbers have different numerals.
use proxy_proxy.Prelude.Tests.{ltb, leb, nat_beq, if◌then◌else◌, Result, ok, err}
use proxy_proxy.Prelude.Int.{ℤ, pos, negsuc}
use proxy_proxy.Prelude.Text.{Str}
use Prim.Native.Nat.{ℕ, zero, suc, ◌+◌, ◌-◌, ◌*◌, ◌/◌, ◌%◌, ◌^◌, ◌<◌}
use mathlib.Core.Path.{◌≡◌, refl, ap, sym, ◌∙◌}
use mathlib.Core.Bool.{◌&&◌}
use mathlib.Core.Option.{Option, none, some}
use mathlib.Core.List.{[], ◌∷◌, ◌++◌}
use native.Mathlib.Omega.{arith}

-- The decimal digits; `f` is fuel, one for each digit.
unfoldable pub decimal_from : ℕ → ℕ → Str
decimal_from zero n = []
decimal_from (suc f) n =
    let front = decimal_from f (n / 10) in
    if ltb n 10 then (48 + n) ∷ [] else front ++ (48 + n % 10) ∷ []

unfoldable pub decimal : ℕ → Str
unfolding decimal_from
decimal n = decimal_from (suc n) n

-- `strconv.Itoa`
unfoldable pub itoa : ℤ → Str
unfolding decimal
itoa (pos n) = decimal n
itoa (negsuc n) = b'-' ∷ decimal (suc n)

-- The number that a row of digits stands for.
unfoldable pub digits_value : ℕ → Str → ℕ
digits_value n [] = n
digits_value n (c ∷ s) = digits_value (n * 10 + (c - 48)) s

digits_value-append :
    (n c : ℕ) (s : Str) → digits_value n (s ++ c ∷ []) ≡ digits_value n s * 10 + (c - 48)
unfolding digits_value
digits_value-append n c [] = refl
digits_value-append n c (d ∷ s) = digits_value-append (n * 10 + (d - 48)) c s

digits_value-decimal_from : (f n : ℕ) → n < f → digits_value 0 (decimal_from f n) ≡ n
unfolding decimal_from digits_value
digits_value-decimal_from zero n h = elim h [ ]
digits_value-decimal_from (suc f) n h = ground (
  arith,
  digits_value-decimal_from f (n / 10),
  digits_value-append 0 (48 + n % 10) (decimal_from f (n / 10)),
)

pub digits_value-decimal : (n : ℕ) → digits_value 0 (decimal n) ≡ n
unfolding decimal
digits_value-decimal n = digits_value-decimal_from (suc n) n (omega arith)

pub decimal_inj : (m n : ℕ) → decimal m ≡ decimal n → m ≡ n
decimal_inj m n e = sym (digits_value-decimal m) ∙ (ap (digits_value 0) e ∙ digits_value-decimal n)

-- The error of `strconv.Atoi`; with a range error the value is the nearest bound.
pub data NumError : Type 0 where
  syntax_error : NumError
  range_error : ℤ → NumError

-- The value of a row of digits, `none` if it is empty or has another character.
unfoldable pub digits_from : ℕ → Str → Option ℕ
digits_from n [] = some n
digits_from n (c ∷ s) =
    let rest = digits_from (n * 10 + (c - 48)) s in if leb 48 c && leb c 57 then rest else none

unfoldable pub digits : Str → Option ℕ
unfolding digits_from
digits [] = none
digits (c ∷ s) = digits_from 0 (c ∷ s)

abbrev pub max_int : ℕ
max_int = 2 ^ 63 - 1

unfoldable pub positive_value : Option ℕ → Result NumError ℤ
positive_value none = err syntax_error
positive_value (some n) = if leb n max_int then ok (pos n) else err (range_error (pos max_int))

unfoldable pub negative_value : Option ℕ → Result NumError ℤ
negative_value none = err syntax_error
negative_value (some zero) = ok (pos 0)
negative_value (some (suc n)) =
    if leb n max_int then ok (negsuc n) else err (range_error (negsuc max_int))

-- `strconv.Atoi` on a 64-bit machine: an optional sign and decimal digits
unfoldable pub atoi : Str → Result NumError ℤ
unfolding digits positive_value negative_value
atoi [] = err syntax_error
atoi (c ∷ s) =
    if nat_beq c b'+'
    then positive_value (digits s)
    else if nat_beq c b'-'
    then negative_value (digits s)
    else positive_value (digits (c ∷ s))

-- The value that Go returns beside the error.
unfoldable pub value_of : Result NumError ℤ → ℤ
value_of (ok n) = n
value_of (err syntax_error) = pos 0
value_of (err (range_error n)) = n

atoi_tests :
    (atoi (b'8' ∷ b'0' ∷ []) ≡ ok (pos 80))
    × (atoi (b'-' ∷ b'1' ∷ []) ≡ ok (negsuc 0))
    × (atoi (b'x' ∷ []) ≡ err syntax_error)
    × (itoa (pos 65535) ≡ b'6' ∷ b'5' ∷ b'5' ∷ b'3' ∷ b'5' ∷ [])
unfolding atoi itoa
atoi_tests = (refl, refl, refl, refl)
