-- ===== src/Server/Formats.antt =====
-- Which format a client gets, as the parameters and the user agent say.
use proxy_proxy.Prelude.{
  List, [], ◌∷◌, Bool, true, false, ◌||◌, ◌≡◌, ◌≢◌, ◌↔◌, ◌⊎◌, refl, inl, inr, arith, Memᴰ,
}
use proxy_proxy.Prelude.Tests.{if◌then◌else◌, ◌==◌, Bool-cases}
use proxy_proxy.Prelude.Lists.{any}
use proxy_proxy.Prelude.Text.{Str, lit, str_eq, str_beq, str_beq_iff, to_lower, contains_str}
use mathlib.Core.List.Memᴰ
use proxy_proxy.Agg.Render.{Format, base64, raw, clash}
use proxy_proxy.Server.{Request, value, clash_uas, negotiate_format}

abbrev IsClashName : Str → Type 0
IsClashName f = (f ≡ lit "clash") ⊎ (f ≡ lit "yaml")

abbrev IsRawName : Str → Type 0
IsRawName f = (f ≡ lit "raw") ⊎ (f ≡ lit "uri")

-- A client of the Clash family: its user agent, in lower case, holds one of the known names.
abbrev IsClashClient : Request → Type 0
IsClashClient r =
    (name : Str) × Memᴰ name clash_uas
    × (contains_str (to_lower (value (lit "User-Agent") r.headers)) name ≡ true)

-- The format that the query asks for; where it asks for none of them, Clash for the clients of its
-- family and base64 for the others. The full configuration is for Clash only, on request.
pub record IsNegotiated (r : Request) (format : Format) (full : Bool) : Type 0 where
  pub clash_iff : (format ≡ clash) ↔ (
      IsClashName (value (lit "format") r.query)
      ⊎ ((value (lit "format") r.query ≢ lit "base64")
          × (¬ IsRawName (value (lit "format") r.query))
          × IsClashClient r))
  pub raw_iff : (format ≡ raw) ↔ IsRawName (value (lit "format") r.query)
  pub full_iff : (full ≡ true) ↔ (
      (format ≡ clash)
      × ((value (lit "full") r.query ≡ lit "1") ⊎ (value (lit "full") r.query ≡ lit "true")))

either_iff : (t u v : Str) → ((t == u || t == v) ≡ true) ↔ ((t ≡ u) ⊎ (t ≡ v))
either_iff t u v = ground (arith, str_beq_iff t u, str_beq_iff t v)

any_iff :
    (ua : Str) (names : List Str)
    → (any (contains_str ua) names ≡ true)
      ↔ ((name : Str) × Memᴰ name names × (contains_str ua name ≡ true))
unfolding any
any_iff ua [] = (λ h. absurd (cc), λ (name, m, _). elim m [ ])
any_iff ua (n ∷ names) =
    let ih = any_iff ua names in
    elim (Bool-cases (contains_str ua n)) [
      | inl here ↦ (λ h. (n, Memᴰ.head refl, here), λ _. ground arith)
      | inr other ↦ (
        λ h. let (name, m, found) = ih.0 (ground arith) in (name, Memᴰ.tail m, found),
        λ (name, m, found). elim (Memᴰ.cases_cons m) [
          | inl same ↦ absurd (let bad : contains_str ua n ≡ true = rw (← same) found in cc)
          | inr later ↦ let rest = ih.1 (name, later, found) in ground arith
        ],
      )
    ]

-- The choice, on the outcomes of its tests.
abbrev choice : Bool → Bool → Bool → Bool → Bool → Format × Bool
choice c b w u full =
    if c
    then (clash, full)
    else if b
    then (base64, false)
    else if w
    then (raw, false)
    else if u
    then (clash, full)
    else (base64, false)

choice_lem :
    (c b w u full : Bool)
    → (w ≡ true → c ≡ false)
    → (w ≡ true → b ≡ false)
    → let (format, all) = choice c b w u full in
      ((format ≡ clash) ↔ ((c ≡ true) ⊎ ((b ≡ false) × (w ≡ false) × (u ≡ true))))
      × ((format ≡ raw) ↔ (w ≡ true))
      × ((all ≡ true) ↔ ((format ≡ clash) × (full ≡ true)))
choice_lem true b w u full h k = (
  (λ _. inl refl, λ _. refl),
  (λ q. absurd (cc), λ q. absurd (let bad = h q in cc)),
  (λ q. (refl, q), λ q. q.1),
)
choice_lem false true w u full h k = (
  (λ q. absurd (cc), λ q. absurd (ground arith)),
  (λ q. absurd (cc), λ q. absurd (let bad = k q in cc)),
  (λ q. absurd (cc), λ q. absurd (let bad = q.0 in cc)),
)
choice_lem false false true u full h k = (
  (λ q. absurd (cc), λ q. absurd (ground arith)),
  (λ _. refl, λ _. refl),
  (λ q. absurd (cc), λ q. absurd (let bad = q.0 in cc)),
)
choice_lem false false false true full h k = (
  (λ _. inr (refl, refl, refl), λ _. refl),
  (λ q. absurd (cc), λ q. absurd (cc)),
  (λ q. (refl, q), λ q. q.1),
)
choice_lem false false false false full h k = (
  (λ q. absurd (cc), λ q. absurd (ground arith)),
  (λ q. absurd (cc), λ q. absurd (cc)),
  (λ q. absurd (cc), λ q. absurd (let bad = q.0 in cc)),
)

false_of : (b : Bool) → ¬ (b ≡ true) → b ≡ false
false_of b h = elim (Bool-cases b) [ inl yes' ↦ absurd (h yes') | inr no' ↦ no' ]

module _ (r : Request) where
  abbrev named : Str
  named = value (lit "format") r.query

  is_raw-other :
      (f : Str)
      → IsRawName f
      → ((f == lit "clash" || f == lit "yaml") ≡ false) × ((f == lit "base64") ≡ false)
  unfolding str_beq lit
  is_raw-other f (inl is) = rw is (refl, refl)
  is_raw-other f (inr is) = rw is (refl, refl)

  pub negotiate_format-IsNegotiated : IsNegotiated r (negotiate_format r).0 (negotiate_format r).1
  unfolding negotiate_format
  negotiate_format-IsNegotiated =
      let c = named == lit "clash" || named == lit "yaml" in
      let b = named == lit "base64" in
      let w = named == lit "raw" || named == lit "uri" in
      let u = any (contains_str (to_lower (value (lit "User-Agent") r.headers))) clash_uas in
      let full =
        value (lit "full") r.query == lit "1" || value (lit "full") r.query == lit "true" in
      let is_c = either_iff named (lit "clash") (lit "yaml") in
      let is_b = str_beq_iff named (lit "base64") in
      let is_w = either_iff named (lit "raw") (lit "uri") in
      let is_u = any_iff (to_lower (value (lit "User-Agent") r.headers)) clash_uas in
      let is_full = either_iff (value (lit "full") r.query) (lit "1") (lit "true") in
      let (at_clash, at_raw, all) =
        choice_lem c b w u full (λ q. (is_raw-other named (is_w.0 q)).0)
          (λ q. (is_raw-other named (is_w.0 q)).1) in
      record {
        clash_iff = (
          λ q. elim (at_clash.0 q) [
            | inl x ↦ inl (is_c.0 x)
            | inr (no_b, no_w, yes_u) ↦
                inr (λ e. let bad = is_b.1 e in cc, λ e. let bad = is_w.1 e in cc, is_u.0 yes_u)
          ],
          λ h. at_clash.1 (elim h [
            | inl x ↦ inl (is_c.1 x)
            | inr (no_b, no_w, client) ↦ inr (
              false_of b (λ e. no_b (is_b.0 e)),
              false_of w (λ e. no_w (is_w.0 e)),
              is_u.1 client,
            )
          ]),
        );
        raw_iff = (λ q. is_w.0 (at_raw.0 q), λ h. at_raw.1 (is_w.1 h));
        full_iff = (
          λ q. let (is, asked) = all.0 q in (is, is_full.0 asked),
          λ (is, asked). all.1 (is, is_full.1 asked),
        );
      }
