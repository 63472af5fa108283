-- ===== src/Server/ClientIp.antt =====
-- internal/server/client_ip.go: which IP address counts as the client of a request.
pub mod Hops
pub mod Walk
use proxy_proxy.Prelude.{
  ℕ, suc, ◌+◌, ◌-◌, List, [], ◌∷◌, ◌++◌, map, reverse, Option, none, some, Bool, true, false, not,
  ◌&&◌, ◌||◌,
}
use proxy_proxy.Prelude.Tests.{if◌then◌else◌, ltb, leb, ◌==◌, nat_eq, Result, ok, err}
use proxy_proxy.Prelude.Lists.{length, get_elem?, drop, any}
use proxy_proxy.Prelude.Member.{contains}
use proxy_proxy.Prelude.Dict.{Dict, lookup}
use proxy_proxy.Prelude.Int.{pos, pos_part, ltb_ℤ}
use proxy_proxy.Prelude.Text.{Str, lit, is_empty, str_eq, has_prefix, trim_space, to_lower, join}
use proxy_proxy.Prelude.Text.Host.{split_host_port}
use proxy_proxy.Prelude.Text.Numeral.{itoa, atoi}
use proxy_proxy.Server.IpSource.{
  ClientIpSource, Netip, Part, SourceError, Trusted, bad_hop, direct, equal_fold, header,
  invalid_header_name, invalid_source, invalid_trusted, new_header_source, new_trusted_source,
  new_xff_source, parse_client_ip_source, parse_part, private_keyword, source_string, split_byte,
  trusted_parts, valid_header_bytes, valid_header_name, xff, xff_header, xff_trusted,
}

pub data ResolveError : Type 0 where
  bad_remote : Str → Str → ResolveError
  bad_hop_address : ℕ → Str → ResolveError
  header_count : Str → ℕ → ResolveError
  few_hops : ℕ → ℕ → ResolveError
  bad_forwarded : Str → Str → ResolveError

-- The hops that the values of the header name, from the left to the right.
unfoldable pub hops_of : List Str → List Str
unfolding split_byte join lit
hops_of values = split_byte b',' (join (lit ",") values)

module _ (N : Netip) where
  -- `http.Header.Values`
  unfoldable pub header_values : Str → Dict Str (List Str) → List Str
  header_values name headers = elim (lookup (N.canonical_key name) headers) [
    | none ↦ []
    | some vs ↦ vs
  ]

  unfoldable pub parse_direct_addr : Str → Result ResolveError N.Addr
  parse_direct_addr remote =
      let host : Str = elim (split_host_port remote) [ ok (h, _) ↦ h | err _ ↦ remote ] in
      elim (N.parse_addr host) [ err e ↦ err (bad_remote remote e) | ok a ↦ ok (N.unmap a) ]

  unfoldable pub resolve_direct_ip : Str → Result ResolveError Str
  unfolding parse_direct_addr
  resolve_direct_ip remote = elim (parse_direct_addr remote) [
    | err e ↦ err e
    | ok a ↦ ok (N.addr_string a)
  ]

  -- An address as a proxy may forward it: without a zone, and a mapped one as IPv4.
  unfoldable pub forwarded_addr : Str → Option N.Addr
  forwarded_addr s = elim (N.parse_addr (trim_space s)) [
    | err _ ↦ none
    | ok a ↦ if is_empty (N.zone a) then some (N.unmap a) else none
  ]

  unfoldable pub parse_forwarded_ip : Str → Str → Result ResolveError Str
  unfolding forwarded_addr
  parse_forwarded_ip s source = elim (forwarded_addr s) [
    | none ↦ err (bad_forwarded source s)
    | some a ↦ ok (N.addr_string a)
  ]

  unfoldable pub trusts_proxy : Trusted N → N.Addr → Bool
  unfolding any
  trusts_proxy t a =
      if t.trust_private && (N.is_loopback a || N.is_private a || N.is_link_local_unicast a)
      then true
      else any (λ p. N.prefix_contains p a) t.trusted_nets

  -- The loop over the hops from the right, where `i` numbers the next one.
  unfoldable pub walk_hops : Trusted N → ℕ → N.Addr → List Str → Result ResolveError Str
  unfolding forwarded_addr trusts_proxy
  walk_hops t i origin [] = ok (N.addr_string origin)
  walk_hops t i origin (h ∷ hops) = elim (forwarded_addr h) [
    | none ↦ err (bad_hop_address i h)
    | some a ↦ elim (trusts_proxy t a) [
      | false ↦ ok (N.addr_string a)
      | true ↦ walk_hops t (suc i) a hops
    ]
  ]

  -- `resolveTrustedXFFIP`
  unfoldable pub resolve_trusted : Trusted N → Dict Str (List Str) → Str → Result ResolveError Str
  unfolding parse_direct_addr trusts_proxy header_values hops_of walk_hops lit
  resolve_trusted t headers remote = elim (parse_direct_addr remote) [
    | err e ↦ err e
    | ok origin ↦
        if not (trusts_proxy t origin)
        then ok (N.addr_string origin)
        else elim (header_values xff_header headers) [
          | [] ↦ ok (N.addr_string origin)
          | v ∷ vs ↦ walk_hops t 1 origin (reverse (hops_of (v ∷ vs)))
        ]
  ]

  unfoldable pub resolve_header_ip : Dict Str (List Str) → Str → Result ResolveError Str
  unfolding header_values parse_forwarded_ip lit
  resolve_header_ip headers name = elim (header_values name headers) [
    | v ∷ [] ↦ parse_forwarded_ip v (lit "header " ++ name)
    | vs ↦ err (header_count name (length vs))
  ]

  -- The hop that a number counts from the right. It is at least 1 by `new_xff_source`, so that the
  -- hop is there and the case `none` does not arise.
  unfoldable pub hop_ip : List Str → ℕ → Result ResolveError Str
  unfolding parse_forwarded_ip lit
  hop_ip hops hop =
      if ltb (length hops) hop
      then err (few_hops (length hops) hop)
      else elim (get_elem? hops (length hops - hop)) [
        | none ↦ err (few_hops 0 hop)
        | some h ↦ parse_forwarded_ip h (lit "X-Forwarded-For hop " ++ itoa (pos hop))
      ]

  unfoldable pub resolve_xff_ip : Dict Str (List Str) → ℕ → Result ResolveError Str
  unfolding header_values hops_of hop_ip lit
  resolve_xff_ip headers hop = elim (header_values xff_header headers) [
    | [] ↦ err (few_hops 0 hop)
    | v ∷ vs ↦ hop_ip (hops_of (v ∷ vs)) hop
  ]

  -- `Resolve`
  unfoldable pub resolve : ClientIpSource N → Dict Str (List Str) → Str → Result ResolveError Str
  unfolding resolve_direct_ip resolve_header_ip resolve_xff_ip resolve_trusted
  resolve direct headers remote = resolve_direct_ip remote
  resolve (header name) headers remote = resolve_header_ip headers name
  resolve (xff hop) headers remote = resolve_xff_ip headers hop
  resolve (xff_trusted t) headers remote = resolve_trusted t headers remote

  -- `clientIPLogArgs`
  pub data LogArg : Type 0 where
    remote_arg peer_arg peer_addr_arg client_ip_source_arg : Str → LogArg
    client_ip_error_arg peer_ip_error_arg : ResolveError → LogArg

  unfoldable pub client_ip_log_args : ClientIpSource N → Dict Str (List Str) → Str → List LogArg
  unfolding resolve source_string
  client_ip_log_args source headers remote =
      let args : List LogArg = elim (resolve source headers remote) [
        | ok ip ↦ remote_arg ip ∷ []
        | err e ↦ client_ip_source_arg (source_string N source) ∷ client_ip_error_arg e ∷ []
      ] in
      elim (resolve_direct_ip remote) [
        | ok peer ↦ args ++ peer_arg peer ∷ []
        | err e ↦ args ++ peer_addr_arg remote ∷ peer_ip_error_arg e ∷ []
      ]
