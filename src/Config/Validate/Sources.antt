-- ===== src/Config/Validate/Sources.antt =====
-- Where `parseSubSource` has a sub read from.
use proxy_proxy.Prelude.{
  ℕ, [], some, true, false, ◌||◌, ◌≡◌, ◌≢◌, ◌⊎◌, refl, sym, ap, ◌∙◌, inl, inr,
}
use proxy_proxy.Prelude.Tests.{◌==◌, Bool-cases, Option-cases, Result, ok, err, ok_inj, eq_of_beq}
use proxy_proxy.Prelude.Text.{
  Str, lit, is_empty, str_eq, to_lower, eq-nil_of_is_empty, is_empty_of_eq,
}
use proxy_proxy.Config.Types.{Sub}
use proxy_proxy.Config.Source.{
  Platform, Url, ConfigError, SubSource, file_url_to_path, parse_sub_source,
}

-- Where a sub is read from, as the file says: a path, an http or https URL that parses, or a file URL,
-- which becomes its path.
abbrev pub IsSourceOf : Platform → Sub → Sub → Type 0
IsSourceOf p s t =
    ((s.file ≢ []) × (s.url ≡ []) × (t.file ≡ s.file) × (t.url ≡ []))
    ⊎ ((s.file ≡ [])
        × (s.url ≢ [])
        × ((u : Url) × (p.parse s.url ≡ some u)
            × (((to_lower u.scheme ≡ lit "http" ⊎ to_lower u.scheme ≡ lit "https")
                  × (t.url ≡ s.url)
                  × (t.file ≡ []))
                ⊎ ((to_lower u.scheme ≡ lit "file")
                    × (file_url_to_path p s.url ≡ ok t.file)
                    × (t.url ≡ [])))))

Result-cases : {E A : Type 0} (r : Result E A) → ((e : E) × (r ≡ err e)) ⊎ ((a : A) × (r ≡ ok a))
Result-cases (err e) = inl (e, refl)
Result-cases (ok a) = inr (a, refl)

one_of : (t u v : Str) → ((t == u) || (t == v)) ≡ true → (t ≡ u) ⊎ (t ≡ v)
one_of t u v h = elim (Bool-cases (t == u)) [
  | inl is ↦ inl (eq_of_beq t u is)
  | inr other ↦ inr (eq_of_beq t v (rw other at h))
]

module _ (p : Platform) (s : Sub) (index : ℕ) (r : SubSource × Sub)
    (h : parse_sub_source p s index ≡ ok r) where
  err-ne-ok : {e : ConfigError} → ¬ (◌≡◌ {A = Result ConfigError (SubSource × Sub)} (err e) (ok r))
  err-ne-ok q = cc

  full-ne-nil : (t : Str) → is_empty t ≡ false → t ≢ []
  full-ne-nil t full q = let bad = is_empty_of_eq t q in cc

  -- A sub with a URL only.
  url-IsSourceOf : is_empty s.url ≡ false → is_empty s.file ≡ true → IsSourceOf p s r.1
  unfolding parse_sub_source
  url-IsSourceOf url no_file = inr (
    eq-nil_of_is_empty s.file no_file,
    full-ne-nil s.url url,
    elim (Option-cases (p.parse s.url)) [
      | inl bad ↦ absurd (err-ne-ok (rw (url, no_file, bad, parse_sub_source) at h))
      | inr (u, parsed) ↦ (u, parsed, by_scheme u parsed)
    ],
  )
    where
      by_scheme :
          (u : Url)
          → p.parse s.url ≡ some u
          → ((to_lower u.scheme ≡ lit "http" ⊎ to_lower u.scheme ≡ lit "https")
              × (r.1.url ≡ s.url)
              × (r.1.file ≡ []))
            ⊎ ((to_lower u.scheme ≡ lit "file")
                × (file_url_to_path p s.url ≡ ok r.1.file)
                × (r.1.url ≡ []))
      by_scheme u parsed = elim (Bool-cases (to_lower u.scheme == lit "file")) [
        | inl is_file ↦ elim (Result-cases (file_url_to_path p s.url)) [
          | inl (e, bad) ↦
              absurd (err-ne-ok (rw (url, no_file, parsed, is_file, bad, parse_sub_source) at h))
          | inr (path, good) ↦
              let is = ok_inj (rw (url, no_file, parsed, is_file, good, parse_sub_source) at h) in
              inr (
                eq_of_beq (to_lower u.scheme) (lit "file") is_file,
                good ∙ ap (λ (x : SubSource × Sub). ok x.1.file) is,
                sym (ap (λ (x : SubSource × Sub). x.1.url) is),
              )
        ]
        | inr other ↦
            elim (Bool-cases
              (to_lower u.scheme == lit "http" || to_lower u.scheme == lit "https")) [
                | inr bad ↦
                    absurd
                      (err-ne-ok (rw (url, no_file, parsed, other, bad, parse_sub_source) at h))
                | inl good ↦
                    let is =
                      ok_inj (rw (url, no_file, parsed, other, good, parse_sub_source) at h) in
                    inl (
                      one_of (to_lower u.scheme) (lit "http") (lit "https") good,
                      sym (ap (λ (x : SubSource × Sub). x.1.url) is),
                      sym (ap (λ (x : SubSource × Sub). x.1.file) is)
                          ∙ eq-nil_of_is_empty s.file no_file,
                    )
              ]
      ]

  pub parse_sub_source-IsSourceOf : IsSourceOf p s r.1
  unfolding parse_sub_source
  parse_sub_source-IsSourceOf = elim (Bool-cases (is_empty s.url)) [
    | inl no_url ↦ elim (Bool-cases (is_empty s.file)) [
      | inl no_file ↦ absurd (err-ne-ok (rw (no_url, no_file, parse_sub_source) at h))
      | inr path ↦
          let is = ok_inj (rw (no_url, path, parse_sub_source) at h) in
          inl (
            full-ne-nil s.file path,
            eq-nil_of_is_empty s.url no_url,
            sym (ap (λ (x : SubSource × Sub). x.1.file) is),
            sym (ap (λ (x : SubSource × Sub). x.1.url) is) ∙ eq-nil_of_is_empty s.url no_url,
          )
    ]
    | inr url ↦ elim (Bool-cases (is_empty s.file)) [
      | inr both ↦ absurd (err-ne-ok (rw (url, both, parse_sub_source) at h))
      | inl no_file ↦ url-IsSourceOf url no_file
    ]
  ]
