-- ===== src/Config/Validate/Keys.antt =====
-- What `validateKeys` accepts, and which subs a key resolves to.
use proxy_proxy.Prelude.{
  ℕ, suc, List, [], ◌∷◌, map, none, some, Bool, true, false, ◌||◌, ◌≡◌, ◌≢◌, ◌↔◌, refl, sym, ap,
  ◌∙◌, inl, inr,
}
use proxy_proxy.Prelude.Tests.{Bool-cases, Option-cases, Result, ok, err, bind-eq-ok, ok_inj}
use proxy_proxy.Prelude.Lists.{filter}
use proxy_proxy.Prelude.Member.{contains, All}
use proxy_proxy.Prelude.Text.{Str, is_empty, str_eq, is_empty_of_ne}
use proxy_proxy.Config.Types.{Key}
use proxy_proxy.Config.Source.{ConfigError}
use proxy_proxy.Config.Validate.{find_unknown, resolve_key, validate_keys_from, validate_keys}

abbrev pub is_nil : List Str → Bool
is_nil [] = true
is_nil (s ∷ ss) = false

-- The subs a key may see, in config order.
abbrev pub allowed : List Str → Key → List Str
allowed names k = filter (λ n. is_nil k.allowed_subs || contains k.allowed_subs n) names

-- Each key has a value, no two the same, and its subs exist.
abbrev pub AreKeys : List Str → List Str → List Key → Type 0
AreKeys seen seen_keys [] = Unit
AreKeys seen seen_keys (k ∷ ks) =
    (k.key ≢ [])
    × (contains seen_keys k.key ≡ false)
    × All (λ n. contains seen n ≡ true) k.allowed_subs
    × AreKeys seen (k.key ∷ seen_keys) ks

find_unknown-none :
    (seen names : List Str)
    → (find_unknown seen names ≡ none) ↔ All (λ n. contains seen n ≡ true) names
unfolding find_unknown
find_unknown-none seen [] = (λ h. tt, λ h. refl)
find_unknown-none seen (n ∷ names) = (
  λ h. elim (Bool-cases (contains seen n)) [
    | inl known ↦ (known, (find_unknown-none seen names).0 (rw (known, find_unknown) at h))
    | inr unknown ↦ absurd (some-ne-none (rw (unknown, find_unknown) at h))
  ],
  λ h. rw (h.0, find_unknown) ((find_unknown-none seen names).1 h.1),
)
  where
    some-ne-none : ¬ (some n ≡ none)
    some-ne-none q = cc

validate_keys_from-of :
    (i : ℕ) (names seen seen_keys : List Str) (ks : List Key)
    → AreKeys seen seen_keys ks
    → validate_keys_from i names seen seen_keys ks ≡ ok (map (resolve_key names) ks)
unfolding validate_keys_from
validate_keys_from-of i names seen seen_keys [] h = refl
validate_keys_from-of i names seen seen_keys (k ∷ ks) (ne, new, known, rest) =
    let full = is_empty_of_ne k.key ne in
    let none_unknown = (find_unknown-none seen k.allowed_subs).1 known in
    let ih = validate_keys_from-of (suc i) names seen (k.key ∷ seen_keys) ks rest in
    rw (full, new, none_unknown, ih) refl

validate_keys_from-ok :
    (i : ℕ) (names seen seen_keys : List Str) (ks ks' : List Key)
    → validate_keys_from i names seen seen_keys ks ≡ ok ks'
    → AreKeys seen seen_keys ks
unfolding validate_keys_from
validate_keys_from-ok i names seen seen_keys [] ks' h = tt
validate_keys_from-ok i names seen seen_keys (k ∷ ks) ks' h = elim (Bool-cases (is_empty k.key)) [
  | inl empty ↦ absurd (err-ne-ok (rw empty at h))
  | inr full ↦ elim (Bool-cases (contains seen_keys k.key)) [
    | inl old ↦ absurd (err-ne-ok (rw (full, old) at h))
    | inr new ↦ elim (Option-cases (find_unknown seen k.allowed_subs)) [
      | inr (n, unknown) ↦ absurd (err-ne-ok (rw (full, new, unknown) at h))
      | inl known ↦
          let (rest, later, same) =
            bind-eq-ok (validate_keys_from (suc i) names seen (k.key ∷ seen_keys) ks)
              (λ rest. ok (resolve_key names k ∷ rest)) (rw (full, new, known) at h) in
          (
            not_empty full,
            new,
            (find_unknown-none seen k.allowed_subs).0 known,
            validate_keys_from-ok (suc i) names seen (k.key ∷ seen_keys) ks rest later,
          )
    ]
  ]
]
  where
    err-ne-ok : {e : ConfigError} → ¬ (◌≡◌ {A = Result ConfigError (List Key)} (err e) (ok ks'))
    err-ne-ok q = cc

    not_empty : is_empty k.key ≡ false → k.key ≢ []
    not_empty full q = let e : is_empty k.key ≡ true = rw q refl in cc

-- `validateKeys` accepts keys if and only if each has a value, no two have the same one, and each
-- names only subs that exist; it then resolves each key.
pub validate_keys_iff :
    (names seen : List Str) (ks ks' : List Key)
    → (validate_keys names seen ks ≡ ok ks')
      ↔ (AreKeys seen [] ks × (ks' ≡ map (resolve_key names) ks))
unfolding validate_keys
validate_keys_iff names seen ks ks' = (
  λ h.
      let are = validate_keys_from-ok 0 names seen [] ks ks' h in
      (are, ok_inj (sym h ∙ validate_keys_from-of 0 names seen [] ks are)),
  λ h. rw h.1 (validate_keys_from-of 0 names seen [] ks h.0),
)

filter-true : (names : List Str) → filter (λ n. true) names ≡ names
unfolding filter
filter-true [] = refl
filter-true (n ∷ names) = ap (λ ns. n ∷ ns) (filter-true names)

-- A key that names no subs resolves to all of them, any other to those that it names; both in the
-- order of the configuration.
pub resolve_key-resolved :
    (names : List Str) (k : Key)
    → k.resolved ≡ []
    → (resolve_key names k).resolved ≡ allowed names k
unfolding resolve_key
resolve_key-resolved names k h = by_list k.allowed_subs refl
  where
    by_list :
        (as' : List Str) → k.allowed_subs ≡ as' → (resolve_key names k).resolved ≡ allowed names k
    by_list [] e = rw (e, resolve_key) (sym (filter-true names))
    by_list (a ∷ as') e = rw (e, resolve_key, h) (rw e refl)
