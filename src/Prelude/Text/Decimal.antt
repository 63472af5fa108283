-- ===== src/Prelude/Text/Decimal.antt =====
-- `strconv.Atoi` reads what `strconv.Itoa` writes.
use proxy_proxy.Prelude.Tests.{leb, nat_beq, ltb, ok, ok_inj, Bool-cases}
use proxy_proxy.Prelude.Int.{pos, negsuc, pos_part}
use proxy_proxy.Prelude.Member.{All}
use proxy_proxy.Prelude.Text.{Str}
use proxy_proxy.Prelude.Text.Plain.{IsPlain}
use proxy_proxy.Prelude.Text.Numeral.{
  decimal_from, decimal, digits_value, digits_value-decimal, digits_from, digits, max_int, atoi,
  positive_value, negative_value,
}
use Prim.Native.Nat.{ℕ, zero, suc, ◌+◌, ◌-◌, ◌*◌, ◌/◌, ◌%◌, ◌≤◌, ◌<◌}
use mathlib.Core.Path.{◌≡◌, refl, subst, ap, sym, ◌∙◌}
use mathlib.Core.Logic.{inl, inr}
use mathlib.Core.Bool.{true, false, ◌&&◌}
use mathlib.Core.Option.{Option, none, some}
use mathlib.Core.List.{[], ◌∷◌, ◌++◌}
use native.Mathlib.Omega.{arith}

abbrev IsDigits : Str → Type 0
IsDigits s = All (λ c. (48 ≤ c) × (c < 58)) s

IsDigits-concat : (s : Str) (c : ℕ) → IsDigits s → 48 ≤ c → c < 58 → IsDigits (s ++ c ∷ [])
IsDigits-concat [] c h lo hi = ((lo, hi), tt)
IsDigits-concat (a ∷ s) c (h, hs) lo hi = (h, IsDigits-concat s c hs lo hi)

decimal_from-IsDigits : (f n : ℕ) → IsDigits (decimal_from f n)
unfolding decimal_from
decimal_from-IsDigits zero n = tt
decimal_from-IsDigits (suc f) n = elim (Bool-cases (ltb n 10)) [
  | inl small ↦ rw small ((omega arith, ground arith), tt)
  | inr large ↦ rw large (
      IsDigits-concat (decimal_from f (n / 10)) (48 + n % 10) (decimal_from-IsDigits f (n / 10))
        (omega arith) (omega arith))
]

digits_from-IsDigits : (n : ℕ) (s : Str) → IsDigits s → digits_from n s ≡ some (digits_value n s)
unfolding digits_from digits_value
digits_from-IsDigits n [] h = refl
digits_from-IsDigits n (c ∷ s) ((lo, hi), hs) =
    let ih = digits_from-IsDigits (n * 10 + (c - 48)) s hs in
    let digit : (leb 48 c && leb c 57) ≡ true = ground arith in rw (digit, ih) refl

positive_value-bound : (n : ℕ) → n ≤ max_int → positive_value (some n) ≡ ok (pos n)
unfolding positive_value
positive_value-bound n h = ground arith

atoi-IsDigits :
    (c : ℕ) (s : Str) → IsDigits (c ∷ s) → atoi (c ∷ s) ≡ positive_value (digits (c ∷ s))
unfolding atoi
atoi-IsDigits c s ((lo, hi), hs) =
    let plus : nat_beq c b'+' ≡ false = ground arith in
    let minus : nat_beq c b'-' ≡ false = ground arith in rw (plus, minus) refl

snoc-cons : (s : Str) (d : ℕ) → (c : ℕ) × (t : Str) × (s ++ d ∷ [] ≡ c ∷ t)
snoc-cons [] d = (d, [], refl)
snoc-cons (a ∷ s) d = (a, s ++ d ∷ [], refl)

decimal-cons : (n : ℕ) → (c : ℕ) × (t : Str) × (decimal n ≡ c ∷ t)
unfolding decimal decimal_from
decimal-cons n = elim (Bool-cases (ltb n 10)) [
  | inl small ↦ (48 + n, [], rw small refl)
  | inr large ↦
      let (c, t, q) = snoc-cons (decimal_from n (n / 10)) (48 + n % 10) in (c, t, rw large q)
]

decimal-IsDigits : (n : ℕ) → IsDigits (decimal n)
unfolding decimal
decimal-IsDigits n = decimal_from-IsDigits (suc n) n

digits-IsPlain : (s : Str) → IsDigits s → IsPlain s
digits-IsPlain [] h = tt
digits-IsPlain (c ∷ s) ((lo, hi), hs) = ((omega arith, omega arith), digits-IsPlain s hs)

pub decimal-IsPlain : (n : ℕ) → IsPlain (decimal n)
decimal-IsPlain n = digits-IsPlain (decimal n) (decimal-IsDigits n)

pub atoi-decimal : (n : ℕ) → n ≤ max_int → atoi (decimal n) ≡ ok (pos n)
unfolding digits
atoi-decimal n h =
    let (c, t, q) = decimal-cons n in
    let all : IsDigits (c ∷ t) = subst IsDigits q (decimal-IsDigits n) in
    let read : digits (c ∷ t) ≡ some n =
      digits_from-IsDigits 0 (c ∷ t) all
      ∙ ap some (ap (digits_value 0) (sym q) ∙ digits_value-decimal n) in
    ap atoi q ∙ (atoi-IsDigits c t all ∙ (ap positive_value read ∙ positive_value-bound n h))

positive_value-le : (o : Option ℕ) (n : ℕ) → positive_value o ≡ ok (pos n) → n ≤ max_int
unfolding positive_value
positive_value-le none n h = absurd (cc)
positive_value-le (some k) n h = elim (Bool-cases (leb k max_int)) [
  | inl fits ↦
      let e : ok (pos k) ≡ ok (pos n) = rw fits at h in
      let same = ap pos_part (ok_inj e) in ground arith
  | inr over ↦ let bad = rw over at h in absurd (cc)
]

negative_value-zero : (o : Option ℕ) (n : ℕ) → negative_value o ≡ ok (pos n) → n ≡ 0
unfolding negative_value
negative_value-zero none n h = absurd (cc)
negative_value-zero (some zero) n h = ap pos_part (sym (ok_inj h))
negative_value-zero (some (suc k)) n h = elim (Bool-cases (leb k max_int)) [
  | inl fits ↦ let e : ok (negsuc k) ≡ ok (pos n) = rw fits at h in ap pos_part (sym (ok_inj e))
  | inr over ↦ let bad = rw over at h in absurd (cc)
]

-- What `strconv.Atoi` reads as a positive number fits an `int`.
pub atoi-le : (s : Str) (n : ℕ) → atoi s ≡ ok (pos n) → 1 ≤ n → n ≤ max_int
unfolding atoi negative_value
atoi-le [] n h le = absurd (cc)
atoi-le (c ∷ s) n h le = elim (Bool-cases (nat_beq c b'+')) [
  | inl plus ↦ positive_value-le (digits s) n (rw plus at h)
  | inr other ↦ elim (Bool-cases (nat_beq c b'-')) [
    | inl minus ↦
        let zero_here = negative_value-zero (digits s) n (rw (other, minus) at h) in
        absurd (omega arith)
    | inr digit ↦ positive_value-le (digits (c ∷ s)) n (rw (other, digit) at h)
  ]
]
