-- ===== src/Server/IpSource/RoundTrip.antt =====
-- The text of a source is read back as the source.
use proxy_proxy.Prelude.{
  ℕ, ◌≤◌, List, [], ◌∷◌, ◌++◌, Bool, true, false, ◌&&◌, ◌≡◌, refl, sym, ap, ◌∙◌, inl, inr, ◌⊎◌,
  arith,
}
use proxy_proxy.Prelude.Tests.{Result-cases, Bool-cases, ok, ok_inj, ◌==◌, nat_eq, ltb}
use proxy_proxy.Prelude.Member.{contains}
use proxy_proxy.Prelude.Int.{ℤ, pos, negsuc, ltb_ℤ}
use proxy_proxy.Prelude.Lists.{drop, all}
use proxy_proxy.Prelude.Text.{
  Str, lit, str_eq, str_beq, has_prefix, trim_space, to_lower, lower_from, lower_head,
}
use proxy_proxy.Prelude.Text.Plain.{IsPlain, IsPlain-append, trim_space-plain}
use proxy_proxy.Prelude.Text.Numeral.{itoa, atoi, decimal, max_int}
use proxy_proxy.Prelude.Text.Decimal.{decimal-IsPlain, atoi-decimal, atoi-le}
use mathlib.Core.Path.{subst}
use proxy_proxy.Server.IpSource.{
  Netip, ClientIpSource, direct, header, xff, xff_trusted, valid_header_bytes, valid_header_name,
  new_header_source, new_xff_source, new_trusted_source, Trusted, Part, private_part, net_part,
  bad_part, parse_part, trusted_parts, split_byte, private_keyword, cf_header, parse_trimmed,
  parse_client_ip_source, source_string,
}

IsPlain-of_test : (s : Str) → all (λ c. ltb 32 c && ltb c 127) s ≡ true → IsPlain s
unfolding all
IsPlain-of_test [] h = tt
IsPlain-of_test (c ∷ s) h = ((ground arith, ground arith), IsPlain-of_test s (ground arith))

-- A byte of a header name is printable.
valid_header_bytes-IsPlain : (s : Str) → valid_header_bytes s ≡ true → IsPlain s
unfolding valid_header_bytes lit contains
valid_header_bytes-IsPlain [] h = tt
valid_header_bytes-IsPlain (c ∷ s) h =
    let rest = valid_header_bytes-IsPlain s (ground arith) in ((ground arith, ground arith), rest)

valid_header_name-IsPlain : (s : Str) → valid_header_name s ≡ true → IsPlain s
unfolding valid_header_name
valid_header_name-IsPlain s h = valid_header_bytes-IsPlain s (ground arith)

module _ (N : Netip) where
  -- What the text of a source needs to be read back: a header name that is valid, a hop that is a
  -- positive `int`.
  abbrev IsReadable : ClientIpSource N → Type 0
  IsReadable direct = Unit
  IsReadable (header name) = valid_header_name name ≡ true
  IsReadable (xff hop) = (1 ≤ hop) × (hop ≤ max_int)
  IsReadable (xff_trusted t) = ⊥

  parse-IsPlain : (s : Str) → IsPlain s → parse_client_ip_source N s ≡ parse_trimmed N s
  unfolding parse_client_ip_source
  parse-IsPlain s plain = ap (parse_trimmed N) (trim_space-plain s plain)

  header_read : (name : Str) → parse_trimmed N (lit "header:" ++ name) ≡ new_header_source N name
  unfolding parse_trimmed lit to_lower lower_from lower_head has_prefix str_beq
  header_read name = refl

  xff_read : (s : Str) → parse_trimmed N (lit "xff:" ++ s) ≡ new_xff_source N s
  unfolding parse_trimmed lit to_lower lower_from lower_head has_prefix str_beq
  xff_read s = refl

  direct_read : parse_client_ip_source N (lit "direct") ≡ ok direct
  unfolding parse_client_ip_source parse_trimmed lit to_lower lower_from lower_head has_prefix
      str_beq trim_space
  direct_read = refl

  new_header_source-plain :
      (name : Str)
      → valid_header_name name ≡ true
      → IsPlain name
      → new_header_source N name ≡ ok (header name)
  unfolding new_header_source
  new_header_source-plain name valid plain = rw (trim_space-plain name plain, valid) refl

  new_xff_source-decimal :
      (hop : ℕ) → 1 ≤ hop → hop ≤ max_int → new_xff_source N (decimal hop) ≡ ok (xff hop)
  unfolding new_xff_source
  new_xff_source-decimal hop lo hi =
      let positive : ltb_ℤ (pos hop) (pos 1) ≡ false = ground arith in
      rw (new_xff_source, trim_space-plain (decimal hop) (decimal-IsPlain hop), atoi-decimal hop hi)
        (rw positive refl)

  IsPlain-prefixes : IsPlain (lit "header:") × IsPlain (lit "xff:")
  unfolding lit all
  IsPlain-prefixes = (IsPlain-of_test (lit "header:") refl, IsPlain-of_test (lit "xff:") refl)

  parse-source_string :
      (s : ClientIpSource N) → IsReadable s → parse_client_ip_source N (source_string N s) ≡ ok s
  unfolding source_string itoa
  parse-source_string direct h = direct_read
  parse-source_string (header name) h =
      let plain = valid_header_name-IsPlain name h in
      parse-IsPlain (lit "header:" ++ name)
        (IsPlain-append (lit "header:") name IsPlain-prefixes.0 plain)
      ∙ (header_read name ∙ new_header_source-plain name h plain)
  parse-source_string (xff hop) (lo, hi) =
      parse-IsPlain (lit "xff:" ++ decimal hop)
        (IsPlain-append (lit "xff:") (decimal hop) IsPlain-prefixes.1 (decimal-IsPlain hop))
      ∙ (xff_read (decimal hop) ∙ new_xff_source-decimal hop lo hi)
  parse-source_string (xff_trusted t) h = elim h [ ]

  -- A source with a list of trusted proxies.
  abbrev pub IsProxyList : ClientIpSource N → Type 0
  IsProxyList s = (t : Trusted N) × (s ≡ xff_trusted t)

  -- A source that has been read is a list of proxies, or its text can be read again.
  IsRead : ClientIpSource N → Type 0
  IsRead s = IsProxyList s ⊎ IsReadable s

  part-IsProxyList :
      (text : Str) (parts : List Str) (priv : Bool) (nets : List N.Prefix) (canonical : List Str)
      (r : Part N) {s : ClientIpSource N}
      → ((priv' : Bool) (nets' : List N.Prefix) (canonical' : List Str)
          → trusted_parts N parts priv' nets' canonical' ≡ ok s
          → IsProxyList s)
      → parse_part N (trim_space text) ≡ r
      → trusted_parts N (text ∷ parts) priv nets canonical ≡ ok s
      → IsProxyList s
  unfolding trusted_parts
  part-IsProxyList text parts priv nets canonical private_part rest q h =
      rest true nets (canonical ++ private_keyword ∷ []) (rw (q, trusted_parts) at h)
  part-IsProxyList text parts priv nets canonical (net_part n) rest q h =
      rest priv (nets ++ n ∷ []) (canonical ++ N.prefix_string n ∷ []) (rw (q, trusted_parts) at h)
  part-IsProxyList text parts priv nets canonical bad_part rest q h =
      let no = rw (q, trusted_parts) at h in absurd (cc)

  trusted_parts-IsProxyList :
      (parts : List Str) (priv : Bool) (nets : List N.Prefix) (canonical : List Str)
      {s : ClientIpSource N}
      → trusted_parts N parts priv nets canonical ≡ ok s
      → IsProxyList s
  unfolding trusted_parts
  trusted_parts-IsProxyList [] priv nets canonical h = (_, sym (ok_inj h))
  trusted_parts-IsProxyList (p ∷ parts) priv nets canonical h =
      part-IsProxyList p parts priv nets canonical (parse_part N (trim_space p))
        (λ priv' nets' canonical' k. trusted_parts-IsProxyList parts priv' nets' canonical' k) refl
        h

  header-IsRead : (text : Str) {s : ClientIpSource N} → new_header_source N text ≡ ok s → IsRead s
  unfolding new_header_source IsRead
  header-IsRead text {s} h = elim (Bool-cases (valid_header_name (trim_space text))) [
    | inl valid ↦ subst IsRead (ok_inj (rw (new_header_source, valid) at h)) (inr valid)
    | inr bad ↦ let no = rw (new_header_source, bad) at h in absurd (cc)
  ]

  hop-IsRead :
      (text : Str) (hop : ℤ) {s : ClientIpSource N}
      → atoi (trim_space text) ≡ ok hop
      → new_xff_source N text ≡ ok s
      → IsRead s
  unfolding new_xff_source IsRead
  hop-IsRead text (negsuc n) q h =
      let low : ltb_ℤ (negsuc n) (pos 1) ≡ true = ground arith in
      let no = rw (new_xff_source, q, low) at h in absurd (cc)
  hop-IsRead text (pos n) q h = elim (Bool-cases (ltb_ℤ (pos n) (pos 1))) [
    | inl low ↦ let no = rw (new_xff_source, q, low) at h in absurd (cc)
    | inr fine ↦
        let lo : 1 ≤ n = ground arith in
        subst IsRead (ok_inj (rw (new_xff_source, q, fine) at h))
          (inr (lo, atoi-le (trim_space text) n q lo))
  ]

  xff-IsRead : (text : Str) {s : ClientIpSource N} → new_xff_source N text ≡ ok s → IsRead s
  unfolding new_xff_source new_trusted_source IsRead
  xff-IsRead text {s} h = elim (Result-cases (atoi (trim_space text))) [
    | inl (hop, q) ↦ hop-IsRead text hop q h
    | inr (e, q) ↦ inl (
        trusted_parts-IsProxyList (split_byte b',' (trim_space text)) false [] []
          (rw (new_xff_source, q) at h))
  ]

  trimmed-IsRead : (text : Str) {s : ClientIpSource N} → parse_trimmed N text ≡ ok s → IsRead s
  unfolding parse_trimmed IsRead
  trimmed-IsRead text {s} h =
      let lower = to_lower text in
      elim (Bool-cases (lower == lit "direct")) [
        | inl is ↦ subst IsRead (ok_inj (rw (parse_trimmed, is) at h)) (inr tt)
        | inr n1 ↦ elim (Bool-cases (lower == lit "cf")) [
          | inl is ↦ header-IsRead cf_header (rw (parse_trimmed, n1, is) at h)
          | inr n2 ↦ elim (Bool-cases (has_prefix lower (lit "xff:"))) [
            | inl is ↦ xff-IsRead (drop 4 text) (rw (parse_trimmed, n1, n2, is) at h)
            | inr n3 ↦ elim (Bool-cases (has_prefix lower (lit "header:"))) [
              | inl is ↦ header-IsRead (drop 7 text) (rw (parse_trimmed, n1, n2, n3, is) at h)
              | inr n4 ↦ let no = rw (parse_trimmed, n1, n2, n3, n4) at h in absurd (cc)
            ]
          ]
        ]
      ]

  -- A source that `ParseClientIPSource` has read, unless it lists trusted proxies, is read back from
  -- what its `String` prints.
  pub parse_client_ip_source-string :
      (text : Str) (s : ClientIpSource N)
      → parse_client_ip_source N text ≡ ok s
      → ¬ IsProxyList s
      → parse_client_ip_source N (source_string N s) ≡ ok s
  unfolding parse_client_ip_source IsRead
  parse_client_ip_source-string text s h single = elim (trimmed-IsRead (trim_space text) h) [
    | inl list ↦ absurd (single list)
    | inr readable ↦ parse-source_string s readable
  ]
