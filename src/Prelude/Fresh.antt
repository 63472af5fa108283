-- ===== src/Prelude/Fresh.antt =====
-- The loop `for k := 2; used[name]; k++ { name = ... k ... }`, by which several parts of the program
-- find a name that is not in use.
use proxy_proxy.Prelude.{
  ℕ, zero, suc, ◌+◌, ◌≤◌, List, [], ◌∷◌, Option, none, some, false, ◌≡◌, ◌≢◌, refl, sym, ap, ◌∙◌,
  Memᴰ, inl, inr, arith,
}
use proxy_proxy.Prelude.Tests.{
  Eq, ◌==◌, if◌then◌else◌, Bool-cases, Option-cases, some_inj, eq_of_beq, beq_of_eq,
}
use proxy_proxy.Prelude.Lists.{length}
use proxy_proxy.Prelude.Member.{
  contains, mem_of_contains, contains_of_mem, not-contains, IsDistinct,
}
use proxy_proxy.Prelude.Text.{Str, str_eq}
use mathlib.Core.List.Memᴰ

-- `name` is the candidate, `numbered k` the next one. `none` means that the fuel ran out.
unfoldable pub first_free : List Str → (ℕ → Str) → ℕ → ℕ → Str → Option Str
first_free used numbered zero k name = none
first_free used numbered (suc f) k name =
    let next = first_free used numbered f (suc k) (numbered k) in
    if contains used name then next else some name

-- One candidate for each used name, the first one and one more are enough.
unfoldable pub free_name : List Str → (ℕ → Str) → Str → Option Str
free_name used numbered base = first_free used numbered (length used + 2) 2 base

module _ {ℓ} {A : Type ℓ} ⦃e : Eq A⦄ where
  -- Without the first occurrence of `a`.
  drop_one : A → List A → List A
  drop_one a [] = []
  drop_one a (x ∷ xs) = let rest = drop_one a xs in if a == x then xs else x ∷ rest

  length-drop_one : (a : A) (xs : List A) → Memᴰ a xs → length (drop_one a xs) + 1 ≡ length xs
  unfolding drop_one
  length-drop_one a [] m = elim m [ ]
  length-drop_one a (x ∷ xs) m = elim (Bool-cases (a == x)) [
    | inl same ↦ rw same (omega arith)
    | inr other ↦ elim (Memᴰ.cases_cons m) [
      | inl q ↦ let bad = beq_of_eq a x q in absurd (cc)
      | inr later ↦ rw other (omega (arith, length-drop_one a xs later))
    ]
  ]

  mem-drop_one : (a : A) (xs : List A) {b : A} → b ≢ a → Memᴰ b xs → Memᴰ b (drop_one a xs)
  unfolding drop_one
  mem-drop_one a [] ne m = elim m [ ]
  mem-drop_one a (x ∷ xs) ne m = elim (Bool-cases (a == x)) [
    | inl same ↦ elim (Memᴰ.cases_cons m) [
      | inl q ↦ absurd (ne (q ∙ sym (eq_of_beq a x same)))
      | inr later ↦ rw same later
    ]
    | inr other ↦ elim (Memᴰ.cases_cons m) [
      | inl q ↦ rw other (Memᴰ.head q)
      | inr later ↦ rw other (Memᴰ.tail (mem-drop_one a xs ne later))
    ]
  ]

  -- Distinct elements of a list are at most as many as it has.
  length-le_of_mem :
      (xs ys : List A) → IsDistinct xs → ((a : A) → Memᴰ a xs → Memᴰ a ys) → length xs ≤ length ys
  length-le_of_mem [] ys d sub = omega arith
  length-le_of_mem (x ∷ xs) ys (fresh, d) sub =
      let m = sub x (Memᴰ.head refl) in
      let rest = length-le_of_mem xs (drop_one x ys) d (λ a k.
        mem-drop_one x ys (λ q. let hit = contains_of_mem xs (rw q at k) in cc)
          (sub a (Memᴰ.tail k))) in
      omega (arith, length-drop_one x ys m)

candidates : (ℕ → Str) → ℕ → ℕ → List Str
candidates numbered zero k = []
candidates numbered (suc f) k = numbered k ∷ candidates numbered f (suc k)

length-candidates : (numbered : ℕ → Str) (f k : ℕ) → length (candidates numbered f k) ≡ f
unfolding candidates
length-candidates numbered zero k = refl
length-candidates numbered (suc f) k = ap suc (length-candidates numbered f (suc k))

mem-candidates :
    (numbered : ℕ → Str) (f k : ℕ) {s : Str}
    → Memᴰ s (candidates numbered f k)
    → (j : ℕ) × (k ≤ j) × (s ≡ numbered j)
unfolding candidates
mem-candidates numbered zero k m = elim m [ ]
mem-candidates numbered (suc f) k m = elim (Memᴰ.cases_cons m) [
  | inl q ↦ (k, omega arith, q)
  | inr later ↦ let (j, le, q) = mem-candidates numbered f (suc k) later in (j, omega arith, q)
]

candidates-IsDistinct :
    (numbered : ℕ → Str)
    → ((j k : ℕ) → numbered j ≡ numbered k → j ≡ k)
    → (f k : ℕ) → IsDistinct (candidates numbered f k)
unfolding candidates
candidates-IsDistinct numbered inj zero k = tt
candidates-IsDistinct numbered inj (suc f) k = (
  not-contains _ (numbered k) (λ m.
      let (j, le, q) = mem-candidates numbered f (suc k) m in
      let same = inj k j q in absurd (omega arith)),
  candidates-IsDistinct numbered inj f (suc k),
)

-- Where the loop runs out of fuel, the candidate and all that follow are in use.
first_free-none :
    (used : List Str) (numbered : ℕ → Str) (f k : ℕ) (name : Str)
    → first_free used numbered (suc f) k name ≡ none
    → (s : Str) → Memᴰ s (candidates numbered f k)
    → Memᴰ s used
unfolding first_free candidates
first_free-none used numbered zero k name h s m = elim m [ ]
first_free-none used numbered (suc f) k name h s m =
    let later : first_free used numbered (suc f) (suc k) (numbered k) ≡ none = ground arith in
    elim (Memᴰ.cases_cons m) [
      | inl q ↦ rw q (mem_of_contains used (numbered k) (ground arith))
      | inr rest ↦ first_free-none used numbered f (suc k) (numbered k) later s rest
    ]

first_free-fresh :
    (used : List Str) (numbered : ℕ → Str) (f k : ℕ) (name : Str) {s : Str}
    → first_free used numbered f k name ≡ some s
    → contains used s ≡ false
unfolding first_free
first_free-fresh used numbered zero k name h = absurd (cc)
first_free-fresh used numbered (suc f) k name {s} h = elim (Bool-cases (contains used name)) [
  | inl taken ↦ first_free-fresh used numbered f (suc k) (numbered k) (rw (taken, first_free) at h)
  | inr free ↦ let same = some_inj (rw (free, first_free) at h) in rw (← same) free
]

-- The loop ends, with a name that is not in use, if different numbers make different names.
pub free_name_total :
    (used : List Str) (numbered : ℕ → Str) (base : Str)
    → ((j k : ℕ) → numbered j ≡ numbered k → j ≡ k)
    → (s : Str) × (free_name used numbered base ≡ some s) × (contains used s ≡ false)
unfolding free_name
free_name_total used numbered base inj =
    elim (Option-cases (first_free used numbered (length used + 2) 2 base)) [
      | inr (s, found) ↦ (s, found, first_free-fresh used numbered _ 2 base found)
      | inl out ↦
          let n = length used in
          let all = first_free-none used numbered (suc n) 2 base (rw (two_more n) at out) in
          let few =
            length-le_of_mem (candidates numbered (suc n) 2) used
              (candidates-IsDistinct numbered inj (suc n) 2) all in
          absurd (omega (arith, length-candidates numbered (suc n) 2))
    ]
  where
    two_more : (n : ℕ) → n + 2 ≡ suc (suc n)
    two_more n = omega arith

-- A name that is not in use is taken as it is.
pub free_name-base :
    (used : List Str) (numbered : ℕ → Str) (base : Str)
    → contains used base ≡ false
    → free_name used numbered base ≡ some base
unfolding free_name first_free
free_name-base used numbered base h =
    let two_more : length used + 2 ≡ suc (suc (length used)) = omega arith in rw two_more (rw h)
