-- ===== src/Config/RelaySubs/Lists.antt =====
-- What `shorten` and an append at the end do to the list of relay subs.
use proxy_proxy.Prelude.{
  ℕ, zero, suc, List, [], ◌∷◌, ◌++◌, map, some, ◌≡◌, refl, sym, ap, Memᴰ, arith,
}
use proxy_proxy.Prelude.Tests.{some_inj}
use proxy_proxy.Prelude.Lists.{length, get_elem?}
use proxy_proxy.Prelude.Int.{ℤ, min_ℤ, ◌≤ℤ◌}
use proxy_proxy.Prelude.Text.{Str}
use proxy_proxy.Config.Types.{Sub}
use proxy_proxy.Config.RelaySubs.{shorten}

abbrev pub names_of : List Sub → List Str
names_of subs = map (λ s. s.name) subs

abbrev pub urls_of : List Sub → List Str
urls_of subs = map (λ s. s.url) subs

pub min_ℤ-le : (a b : ℤ) → (min_ℤ a b ≤ℤ a) × (min_ℤ a b ≤ℤ b)
min_ℤ-le a b = ground arith

pub ≤ℤ-trans : (a b c : ℤ) → a ≤ℤ b → b ≤ℤ c → a ≤ℤ c
≤ℤ-trans a b c h k = omega arith

-- The same sub, with an interval that is no longer.
abbrev pub Shortens : Sub → Sub → Type 0
Shortens s t = (t.name ≡ s.name) × (t.url ≡ s.url) × (t.interval ≤ℤ s.interval)

pub names_of-shorten :
    (k : ℕ) (i : ℤ) (subs : List Sub) → names_of (shorten k i subs) ≡ names_of subs
unfolding shorten
names_of-shorten k i [] = refl
names_of-shorten zero i (s ∷ subs) = refl
names_of-shorten (suc k) i (s ∷ subs) = ap (λ ns. s.name ∷ ns) (names_of-shorten k i subs)

pub urls_of-shorten : (k : ℕ) (i : ℤ) (subs : List Sub) → urls_of (shorten k i subs) ≡ urls_of subs
unfolding shorten
urls_of-shorten k i [] = refl
urls_of-shorten zero i (s ∷ subs) = refl
urls_of-shorten (suc k) i (s ∷ subs) = ap (λ ns. s.url ∷ ns) (urls_of-shorten k i subs)

pub mem-shorten :
    (k : ℕ) (i : ℤ) (subs : List Sub) (s : Sub)
    → Memᴰ s subs
    → (t : Sub) × Memᴰ t (shorten k i subs) × Shortens s t
unfolding shorten
mem-shorten k i [] s m = elim m [ ]
mem-shorten zero i (r ∷ subs) s (Memᴰ.head same) = (
  _,
  Memᴰ.head refl,
  (ap (λ x. x.name) (sym same), ap (λ x. x.url) (sym same), rw same ((min_ℤ-le r.interval i).0)),
)
mem-shorten zero i (r ∷ subs) s (Memᴰ.tail m) = (s, Memᴰ.tail m, (refl, refl, omega arith))
mem-shorten (suc k) i (r ∷ subs) s (Memᴰ.head same) = (s, Memᴰ.head same, (refl, refl, omega arith))
mem-shorten (suc k) i (r ∷ subs) s (Memᴰ.tail m) =
    let (t, n, h) = mem-shorten k i subs s m in (t, Memᴰ.tail n, h)

-- The sub at the index, after `shorten`.
pub shorten-at :
    (k : ℕ) (i : ℤ) (subs : List Sub) (s : Sub)
    → get_elem? subs k ≡ some s
    → (t : Sub) × Memᴰ t (shorten k i subs)
      × (t.name ≡ s.name)
      × (t.url ≡ s.url)
      × (t.interval ≤ℤ i)
unfolding shorten
shorten-at k i [] s h = absurd (cc)
shorten-at zero i (r ∷ subs) s h = (
  record r { interval = min_ℤ r.interval i },
  Memᴰ.head refl,
  ap (λ x. x.name) (some_inj h),
  ap (λ x. x.url) (some_inj h),
  (min_ℤ-le r.interval i).1,
)
shorten-at (suc k) i (r ∷ subs) s h =
    let (t, n, a, b, c) = shorten-at k i subs s h in (t, Memᴰ.tail n, a, b, c)

pub get_elem?-shorten :
    (k j : ℕ) (i : ℤ) (subs : List Sub) (s : Sub)
    → get_elem? subs j ≡ some s
    → (t : Sub) × (get_elem? (shorten k i subs) j ≡ some t) × (t.url ≡ s.url)
unfolding shorten
get_elem?-shorten k j i [] s h = absurd (cc)
get_elem?-shorten zero zero i (r ∷ subs) s h = (_, refl, ap (λ x. x.url) (some_inj h))
get_elem?-shorten zero (suc j) i (r ∷ subs) s h = (s, h, refl)
get_elem?-shorten (suc k) zero i (r ∷ subs) s h = (s, h, refl)
get_elem?-shorten (suc k) (suc j) i (r ∷ subs) s h = get_elem?-shorten k j i subs s h

pub get_elem?-append :
    (xs ys : List Sub) (k : ℕ) (s : Sub) → get_elem? xs k ≡ some s → get_elem? (xs ++ ys) k ≡ some s
get_elem?-append [] ys k s h = absurd (cc)
get_elem?-append (x ∷ xs) ys zero s h = h
get_elem?-append (x ∷ xs) ys (suc k) s h = get_elem?-append xs ys k s h

pub get_elem?-last : (xs : List Sub) (s : Sub) → get_elem? (xs ++ s ∷ []) (length xs) ≡ some s
get_elem?-last [] s = refl
get_elem?-last (x ∷ xs) s = get_elem?-last xs s

pub map-append :
    {B : Type 0} (f : Sub → B) (xs : List Sub) (s : Sub)
    → map f (xs ++ s ∷ []) ≡ map f xs ++ f s ∷ []
map-append f [] s = refl
map-append f (x ∷ xs) s = ap (λ r. f x ∷ r) (map-append f xs s)
