-- ===== src/Server/IpSource.antt =====
-- internal/server/client_ip.go: the sources of the client address, and their texts.
pub mod RoundTrip
use proxy_proxy.Prelude.{ℕ, ◌+◌, List, [], ◌∷◌, ◌++◌, map, Bool, true, false, not, ◌&&◌, ◌||◌}
use proxy_proxy.Prelude.Tests.{if◌then◌else◌, leb, ◌==◌, nat_eq, Result, ok, err}
use proxy_proxy.Prelude.Lists.{drop}
use proxy_proxy.Prelude.Member.{contains}
use proxy_proxy.Prelude.Int.{pos, pos_part, ltb_ℤ}
use proxy_proxy.Prelude.Text.{Str, lit, is_empty, str_eq, has_prefix, trim_space, to_lower, join}
use proxy_proxy.Prelude.Text.Numeral.{itoa, atoi}

-- The packages net/netip and net/textproto: addresses, prefixes of networks, and header names.
pub record Netip : Type 1 where
  pub Addr : Type 0
  pub Prefix : Type 0
  pub parse_addr : Str → Result Str Addr
  pub zone : Addr → Str
  pub unmap : Addr → Addr
  pub bit_len : Addr → ℕ
  pub addr_string : Addr → Str
  pub is_loopback : Addr → Bool
  pub is_private : Addr → Bool
  pub is_link_local_unicast : Addr → Bool
  pub parse_prefix : Str → Result Str Prefix
  pub prefix_from : Addr → ℕ → Prefix
  pub masked : Prefix → Prefix
  pub prefix_string : Prefix → Str
  pub prefix_contains : Prefix → Addr → Bool
  pub canonical_key : Str → Str

-- `strings.Split` at a byte
unfoldable pub split_byte : ℕ → Str → List Str
split_byte c [] = [] ∷ []
split_byte c (b ∷ s) =
    let rest = split_byte c s in
    if b == c then [] ∷ rest else elim rest [ [] ↦ (b ∷ []) ∷ [] | p ∷ ps ↦ (b ∷ p) ∷ ps ]

abbrev cf_header : Str
cf_header = lit "CF-Connecting-IP"

abbrev pub xff_header : Str
xff_header = lit "X-Forwarded-For"

abbrev pub private_keyword : Str
private_keyword = lit "private"

pub record Trusted (N : Netip) : Type 0 where
  pub trust_private : Bool
  pub trusted_nets : List N.Prefix
  pub trusted_spec : Str

-- `ClientIPSource`: its kind, with the fields that the kind uses.
pub data ClientIpSource (N : Netip) : Type 0 where
  direct : ClientIpSource N
  header : Str → ClientIpSource N
  xff : ℕ → ClientIpSource N
  xff_trusted : Trusted N → ClientIpSource N

pub data SourceError : Type 0 where
  invalid_source bad_hop invalid_trusted invalid_header_name : Str → SourceError

abbrev between : ℕ → ℕ → ℕ → Bool
between low high c = leb low c && leb c high

abbrev token_punctuation : Str
token_punctuation = lit "!#$%&'*+-.^_`|~"

unfoldable pub valid_header_bytes : Str → Bool
unfolding lit contains
valid_header_bytes [] = true
valid_header_bytes (c ∷ s) =
    let rest = valid_header_bytes s in
    if between b'a' b'z' c || between b'A' b'Z' c || between b'0' b'9' c
    then rest
    else if not (contains token_punctuation c)
    then false
    else rest

unfoldable pub valid_header_name : Str → Bool
unfolding valid_header_bytes
valid_header_name s = if is_empty s then false else valid_header_bytes s

-- `strings.EqualFold` with a text of ASCII letters none of which has a fold outside of ASCII.
abbrev fold_byte : ℕ → ℕ
fold_byte c = if between b'A' b'Z' c then c + 32 else c

unfoldable pub equal_fold : Str → Str → Bool
equal_fold s t = map fold_byte s == t

module _ (N : Netip) where
  unfoldable pub new_header_source : Str → Result SourceError (ClientIpSource N)
  unfolding valid_header_name
  new_header_source s =
      let name = trim_space s in
      if not (valid_header_name name) then err (invalid_header_name s) else ok (header name)

  -- One part of a list of trusted proxies: the keyword, a prefix, or an address without a zone.
  pub data Part : Type 0 where
    private_part : Part
    net_part : N.Prefix → Part
    bad_part : Part

  unfoldable pub parse_part : Str → Part
  unfolding equal_fold lit
  parse_part part =
      if equal_fold part private_keyword then private_part else elim (N.parse_prefix part) [
        | ok p ↦ net_part (N.masked p)
        | err _ ↦ elim (N.parse_addr part) [
          | err _ ↦ bad_part
          | ok a ↦
              if is_empty (N.zone a)
              then net_part (N.prefix_from (N.unmap a) (N.bit_len (N.unmap a)))
              else bad_part
        ]
      ]

  -- The loop over the parts, with the canonical texts so far.
  unfoldable pub trusted_parts :
      List Str → Bool → List N.Prefix → List Str → Result SourceError (ClientIpSource N)
  unfolding parse_part
  trusted_parts [] priv nets canonical = ok (
      xff_trusted (record {
        trust_private = priv;
        trusted_nets = nets;
        trusted_spec = join (lit ",") canonical;
      }))
  trusted_parts (s ∷ parts) priv nets canonical = elim (parse_part (trim_space s)) [
    | private_part ↦ trusted_parts parts true nets (canonical ++ private_keyword ∷ [])
    | net_part p ↦ trusted_parts parts priv (nets ++ p ∷ []) (canonical ++ N.prefix_string p ∷ [])
    | bad_part ↦ err (invalid_trusted (trim_space s))
  ]

  unfoldable pub new_trusted_source : Str → Result SourceError (ClientIpSource N)
  unfolding trusted_parts split_byte
  new_trusted_source s = trusted_parts (split_byte b',' s) false [] []

  -- An integer always means a hop count.
  unfoldable pub new_xff_source : Str → Result SourceError (ClientIpSource N)
  unfolding new_trusted_source
  new_xff_source s =
      let trimmed = trim_space s in
      elim (atoi trimmed) [
        | ok hop ↦ if ltb_ℤ hop (pos 1) then err (bad_hop s) else ok (xff (pos_part hop))
        | err _ ↦ new_trusted_source trimmed
      ]

  -- `ParseClientIPSource` after the text is trimmed
  unfoldable pub parse_trimmed : Str → Result SourceError (ClientIpSource N)
  unfolding new_header_source new_xff_source lit
  parse_trimmed s =
      let lower = to_lower s in
      if lower == lit "direct"
      then ok direct
      else if lower == lit "cf"
      then new_header_source cf_header
      else if has_prefix lower (lit "xff:")
      then new_xff_source (drop 4 s)
      else if has_prefix lower (lit "header:")
      then new_header_source (drop 7 s)
      else err (invalid_source s)

  -- `ParseClientIPSource`
  unfoldable pub parse_client_ip_source : Str → Result SourceError (ClientIpSource N)
  unfolding parse_trimmed
  parse_client_ip_source text = parse_trimmed (trim_space text)

  -- `String`
  unfoldable pub source_string : ClientIpSource N → Str
  unfolding lit
  source_string direct = lit "direct"
  source_string (header name) = lit "header:" ++ name
  source_string (xff hop) = lit "xff:" ++ itoa (pos hop)
  source_string (xff_trusted t) = lit "xff:" ++ t.trusted_spec
