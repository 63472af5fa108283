-- ===== src/Prelude/Member.antt =====
-- Membership that can be taken apart, the Boolean test of it, and lists without repetition.
use Prim.Native.Nat.{◌≤◌, ◌<◌}
use mathlib.Core.Path.{◌≡◌, refl, sym, ◌∙◌}
use mathlib.Core.Logic.{◌≢◌, ◌↔◌, ◌⊎◌, inl, inr}
use mathlib.Core.Bool.{Bool, true, false, ◌||◌}
use mathlib.Core.List.{List, [], ◌∷◌, ◌++◌, Memᴰ}
use mathlib.Core.List.Memᴰ
use native.Mathlib.Omega.{arith}
use proxy_proxy.Prelude.Tests.{Eq, ◌==◌, if◌then◌else◌, Bool-cases, eq_of_beq, eq-or-ne}
use proxy_proxy.Prelude.Lists.{length, filter, any}

abbrev pub All {ℓ κ} : {A : Type ℓ} → (A → Type κ) → List A → Type κ
All P [] = Unit
All P (x ∷ xs) = P x × All P xs

module _ {ℓ κ} {A : Type ℓ} (P : A → Type κ) where
  pub All-mem : {a : A} (xs : List A) → All P xs → Memᴰ a xs → P a
  All-mem [] h m = elim m [ ]
  All-mem (x ∷ xs) h (Memᴰ.head p) = rw p h.0
  All-mem (x ∷ xs) h (Memᴰ.tail m) = All-mem xs h.1 m

  pub All-of_mem : (xs : List A) → ((a : A) → Memᴰ a xs → P a) → All P xs
  All-of_mem [] h = tt
  All-of_mem (x ∷ xs) h = (h x (Memᴰ.head refl), All-of_mem xs (λ a m. h a (Memᴰ.tail m)))

module _ {ℓ} {A : Type ℓ} where
  pub mem-filter :
      (p : A → Bool) {a : A} (xs : List A) → Memᴰ a (filter p xs) → Memᴰ a xs × (p a ≡ true)
  unfolding filter
  mem-filter p (x ∷ xs) m = elim (Bool-cases (p x)) [
    | inl keep ↦ elim (Memᴰ.cases_cons (rw keep at m)) [
      | inl same ↦ (Memᴰ.head same, rw same keep)
      | inr later ↦ let (l, r) = mem-filter p xs later in (Memᴰ.tail l, r)
    ]
    | inr drop ↦ let (l, r) = mem-filter p xs (rw drop at m) in (Memᴰ.tail l, r)
  ]
  mem-filter p [] m = elim m [ ]

  pub mem-filter_of :
      (p : A → Bool) {a : A} (xs : List A) → Memᴰ a xs → p a ≡ true → Memᴰ a (filter p xs)
  unfolding filter
  mem-filter_of p [] m h = elim m [ ]
  mem-filter_of p {a} (x ∷ xs) (Memᴰ.head same) h =
      let e : p x ≡ true = rw (← same) h in rw e (Memᴰ.head same)
  mem-filter_of p (x ∷ xs) (Memᴰ.tail m) h = elim (Bool-cases (p x)) [
    | inl keep ↦ rw keep (Memᴰ.tail (mem-filter_of p xs m h))
    | inr drop ↦ rw drop (mem-filter_of p xs m h)
  ]

  pub any_of_mem : (p : A → Bool) {a : A} (xs : List A) → Memᴰ a xs → p a ≡ true → any p xs ≡ true
  unfolding any
  any_of_mem p [] m h = elim m [ ]
  any_of_mem p (x ∷ xs) (Memᴰ.head same) h = let e : p x ≡ true = rw (← same) h in rw e
  any_of_mem p (x ∷ xs) (Memᴰ.tail m) h = ground (arith, any_of_mem p xs m h)

  pub mem_of_any :
      (p : A → Bool) (xs : List A) → any p xs ≡ true → (a : A) × Memᴰ a xs × (p a ≡ true)
  unfolding any
  mem_of_any p [] h = cc
  mem_of_any p (x ∷ xs) h = elim (Bool-cases (p x)) [
    | inl here ↦ (x, Memᴰ.head refl, here)
    | inr not_here ↦ let (a, m, e) = mem_of_any p xs (rw not_here at h) in (a, Memᴰ.tail m, e)
  ]

module _ {ℓ} {A : Type ℓ} where
  -- In a list of fewer than two elements any two members are the same.
  pub eq_of_short : (xs : List A) {a b : A} → length xs < 2 → Memᴰ a xs → Memᴰ b xs → a ≡ b
  eq_of_short (x ∷ []) h m n = Memᴰ.eq_of_singleton m ∙ sym (Memᴰ.eq_of_singleton n)
  eq_of_short (x ∷ y ∷ xs) h m n = absurd (omega arith)
  eq_of_short [] h m n = elim m [ ]

module _ {ℓ} {A : Type ℓ} ⦃e : Eq A⦄ where
  -- `slices.Contains`, and a lookup in a `map[K]bool` that holds only true.
  unfoldable pub contains : List A → A → Bool
  contains [] a = false
  contains (x ∷ xs) a = a == x || contains xs a

  pub mem_of_contains : (xs : List A) (a : A) → contains xs a ≡ true → Memᴰ a xs
  unfolding contains
  mem_of_contains [] a h = absurd (cc)
  mem_of_contains (x ∷ xs) a h = elim (Bool-cases (a == x)) [
    | inl same ↦ Memᴰ.head (eq_of_beq a x same)
    | inr other ↦ Memᴰ.tail (mem_of_contains xs a (rw other at h))
  ]

  pub contains_of_mem : (xs : List A) {a : A} → Memᴰ a xs → contains xs a ≡ true
  unfolding contains
  contains_of_mem [] m = elim m [ ]
  contains_of_mem (x ∷ xs) {a} (Memᴰ.head same) = rw ((e.beq_iff a x).1 same)
  contains_of_mem (x ∷ xs) {a} (Memᴰ.tail m) = ground (arith, contains_of_mem xs m)

  pub contains_iff : (xs : List A) (a : A) → (contains xs a ≡ true) ↔ Memᴰ a xs
  contains_iff xs a = (mem_of_contains xs a, contains_of_mem xs)

  pub not-contains : (xs : List A) (a : A) → ¬ Memᴰ a xs → contains xs a ≡ false
  not-contains xs a h = elim (Bool-cases (contains xs a)) [
    | inl found ↦ absurd (h (mem_of_contains xs a found))
    | inr missing ↦ missing
  ]

  pub contains-append :
      (xs ys : List A) (a : A) → contains (xs ++ ys) a ≡ (contains xs a || contains ys a)
  unfolding contains
  contains-append [] ys a = refl
  contains-append (x ∷ xs) ys a = ground (arith, contains-append xs ys a)

  -- No element stands twice.
  abbrev pub IsDistinct : List A → Type ℓ
  IsDistinct [] = Unit
  IsDistinct (x ∷ xs) = (contains xs x ≡ false) × IsDistinct xs

  pub IsDistinct-concat :
      (xs : List A) (a : A) → IsDistinct xs → contains xs a ≡ false → IsDistinct (xs ++ a ∷ [])
  unfolding contains
  IsDistinct-concat [] a d h = (refl, tt)
  IsDistinct-concat (x ∷ xs) a (fresh, d) h = (
    rw (contains-append xs (a ∷ []) x) (ground (arith, e.beq_iff a x, e.beq_iff x a)),
    IsDistinct-concat xs a d (ground arith),
  )

  -- In a list of two or more distinct elements there is one that differs from `a`.
  pub other_of_long :
      (xs : List A) (a : A) → IsDistinct xs → 2 ≤ length xs → (b : A) × Memᴰ b xs × (b ≢ a)
  unfolding contains
  other_of_long (x ∷ y ∷ xs) a (fresh, d) h = elim (eq-or-ne x a) [
    | inl same ↦ (y, Memᴰ.tail (Memᴰ.head refl), λ p. ground (arith, e.beq_iff x y))
    | inr other ↦ (x, Memᴰ.head refl, other)
  ]
  other_of_long (x ∷ []) a d h = absurd (omega arith)
  other_of_long [] a d h = absurd (omega arith)

  -- `appendUnique`, and a write of true to a `map[K]bool`.
  unfoldable pub append_unique : List A → A → List A
  append_unique xs a = if contains xs a then xs else xs ++ a ∷ []

  pub append_unique-IsDistinct :
      (xs : List A) (a : A) → IsDistinct xs → IsDistinct (append_unique xs a)
  unfolding append_unique
  append_unique-IsDistinct xs a d = elim (Bool-cases (contains xs a)) [
    | inl old ↦ rw old d
    | inr new ↦ rw new (IsDistinct-concat xs a d new)
  ]

  pub mem-append_unique :
      (xs : List A) (a b : A) → Memᴰ b (append_unique xs a) → Memᴰ b xs ⊎ (b ≡ a)
  unfolding append_unique
  mem-append_unique xs a b m = elim (Bool-cases (contains xs a)) [
    | inl old ↦ inl (rw old at m)
    | inr new ↦ elim (Memᴰ.append_cases xs (rw new at m)) [
      | inl before ↦ inl before
      | inr last ↦ inr (Memᴰ.eq_of_singleton last)
    ]
  ]

  pub mem-append_unique_left :
      (xs : List A) (a : A) {b : A} → Memᴰ b xs → Memᴰ b (append_unique xs a)
  unfolding append_unique
  mem-append_unique_left xs a m = elim (Bool-cases (contains xs a)) [
    | inl old ↦ rw old m
    | inr new ↦ rw new (Memᴰ.append_left (a ∷ []) m)
  ]

  pub mem-append_unique_self : (xs : List A) (a : A) → Memᴰ a (append_unique xs a)
  unfolding append_unique
  mem-append_unique_self xs a = elim (Bool-cases (contains xs a)) [
    | inl old ↦ rw old (mem_of_contains xs a old)
    | inr new ↦ rw new (Memᴰ.append_right xs (Memᴰ.head refl))
  ]

  -- The elements of a list, each once, in the order of their first occurrence.
  unfoldable pub uniques_from : List A → List A → List A
  uniques_from seen [] = seen
  uniques_from seen (x ∷ xs) = uniques_from (append_unique seen x) xs

  pub uniques_from-IsDistinct :
      (seen xs : List A) → IsDistinct seen → IsDistinct (uniques_from seen xs)
  unfolding uniques_from
  uniques_from-IsDistinct seen [] d = d
  uniques_from-IsDistinct seen (x ∷ xs) d =
      uniques_from-IsDistinct (append_unique seen x) xs (append_unique-IsDistinct seen x d)

  pub mem-uniques_from :
      (seen xs : List A) {a : A} → Memᴰ a (uniques_from seen xs) → Memᴰ a seen ⊎ Memᴰ a xs
  unfolding uniques_from
  mem-uniques_from seen [] m = inl m
  mem-uniques_from seen (x ∷ xs) {a} m = elim (mem-uniques_from (append_unique seen x) xs m) [
    | inl old ↦ elim (mem-append_unique seen x a old) [
      | inl before ↦ inl before
      | inr same ↦ inr (Memᴰ.head same)
    ]
    | inr later ↦ inr (Memᴰ.tail later)
  ]

  pub mem-uniques_from_seen :
      (seen xs : List A) {a : A} → Memᴰ a seen → Memᴰ a (uniques_from seen xs)
  unfolding uniques_from
  mem-uniques_from_seen seen [] m = m
  mem-uniques_from_seen seen (x ∷ xs) m =
      mem-uniques_from_seen (append_unique seen x) xs (mem-append_unique_left seen x m)

  pub mem-uniques_from_of : (seen xs : List A) {a : A} → Memᴰ a xs → Memᴰ a (uniques_from seen xs)
  unfolding uniques_from
  mem-uniques_from_of seen [] m = elim m [ ]
  mem-uniques_from_of seen (x ∷ xs) (Memᴰ.head same) =
      rw same (mem-uniques_from_seen (append_unique seen x) xs (mem-append_unique_self seen x))
  mem-uniques_from_of seen (x ∷ xs) (Memᴰ.tail m) = mem-uniques_from_of (append_unique seen x) xs m

  abbrev pub uniques : List A → List A
  uniques xs = uniques_from [] xs
