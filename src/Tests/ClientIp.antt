-- ===== src/Tests/ClientIp.antt =====
-- internal/server/client_ip.go with addresses that are texts, of which those with a `1` in front are
-- trusted.
use proxy_proxy.Prelude.{
  List, [], ◌∷◌, ◌++◌, true, false, ◌≡◌, refl, ap, ◌∙◌, reverse, Memᴰ, ◌≤◌, arith,
}
use proxy_proxy.Prelude.Tests.{Result, ok, err, some_inj}
use proxy_proxy.Prelude.Lists.{length, any}
use proxy_proxy.Prelude.Dict.{Dict, lookup}
use proxy_proxy.Prelude.Text.{Str, lit, str_eq, str_beq, has_prefix, trim_space, join}
use proxy_proxy.Prelude.Text.Host.{split_host_port}
use proxy_proxy.Prelude.Text.{to_lower, lower_from, lower_head, form_width, drop_forms}
use proxy_proxy.Prelude.Text.Numeral.{atoi, digits, digits_from, positive_value}
use proxy_proxy.Server.IpSource.{
  xff, parse_client_ip_source, parse_trimmed, new_xff_source, source_string,
}
use proxy_proxy.Server.IpSource.RoundTrip.{IsProxyList, parse_client_ip_source-string}
use proxy_proxy.Server.ClientIp.{
  header_values, hops_of, forwarded_addr, trusts_proxy, parse_direct_addr, resolve_trusted,
  resolve_xff_ip, walk_hops, parse_forwarded_ip,
}
use proxy_proxy.Server.IpSource.{Netip, Trusted, xff_header, split_byte}
use proxy_proxy.Server.ClientIp.Walk.{
  IsWalk, IsProxy, resolve_trusted-IsWalk, resolve_trusted-forged,
}
use proxy_proxy.Server.ClientIp.Hops.{resolve_xff_ip-forged}

abbrev texts_net : Netip
texts_net = record {
  Addr = Str;
  Prefix = Str;
  parse_addr = λ s. if_empty s;
  zone = λ a. [];
  unmap = λ a. a;
  bit_len = λ a. 32;
  addr_string = λ a. a;
  is_loopback = λ a. false;
  is_private = λ a. false;
  is_link_local_unicast = λ a. false;
  parse_prefix = λ s. err s;
  prefix_from = λ a n. a;
  masked = λ p. p;
  prefix_string = λ p. p;
  prefix_contains = λ p a. has_prefix a p;
  canonical_key = λ s. s;
}
  where
    if_empty : Str → Result Str Str
    if_empty [] = err []
    if_empty (c ∷ s) = ok (c ∷ s)

abbrev ones : Trusted texts_net
ones = record { trust_private = false; trusted_nets = lit "1" ∷ []; trusted_spec = lit "1" }

abbrev proxied : Dict Str (List Str)
proxied = (xff_header, lit "9.9.9.9,1.0.0.2" ∷ []) ∷ []

abbrev forged : Dict Str (List Str)
forged = (xff_header, lit "6.6.6.6" ∷ lit "9.9.9.9,1.0.0.2" ∷ []) ∷ []

-- What a run of `resolve_trusted` computes with.
client_ip_program : Unit {0}
unfolding lit str_beq has_prefix trim_space join lookup any split_host_port header_values hops_of
    split_byte forwarded_addr trusts_proxy parse_direct_addr resolve_trusted resolve_xff_ip
    walk_hops parse_forwarded_ip
client_ip_program = tt

peer_is : parse_direct_addr texts_net (lit "1.0.0.1:80") ≡ ok (lit "1.0.0.1")
unfolding client_ip_program
peer_is = refl

peer_trusted : trusts_proxy texts_net ones (lit "1.0.0.1") ≡ true
unfolding client_ip_program
peer_trusted = refl

proxied_values : header_values texts_net xff_header proxied ≡ lit "9.9.9.9,1.0.0.2" ∷ []
unfolding client_ip_program
proxied_values = refl

forged_values :
    header_values texts_net xff_header forged ≡ (lit "6.6.6.6" ∷ []) ++ lit "9.9.9.9,1.0.0.2" ∷ []
unfolding client_ip_program
forged_values = refl

client_hop : Memᴰ (lit "9.9.9.9") (reverse (hops_of (lit "9.9.9.9,1.0.0.2" ∷ [])))
unfolding client_ip_program
client_hop = Memᴰ.tail (Memᴰ.head refl)

client_is_none : ¬ IsProxy texts_net ones (lit "9.9.9.9")
unfolding client_ip_program
client_is_none (a, addr, trusted) =
    let same : lit "9.9.9.9" ≡ a = some_inj addr in
    let bad : false ≡ true = ap (trusts_proxy texts_net ones) same ∙ trusted in cc

two_hops : 2 ≤ length (hops_of (lit "9.9.9.9,1.0.0.2" ∷ []))
unfolding client_ip_program
two_hops = omega arith

trusted_run : resolve_trusted texts_net ones forged (lit "1.0.0.1:80") ≡ ok (lit "9.9.9.9")
unfolding client_ip_program
trusted_run = refl

resolve_trusted-IsWalk_example :
    IsWalk texts_net ones 1
      (lit "1.0.0.1")
      (reverse (hops_of (lit "9.9.9.9,1.0.0.2" ∷ [])))
      (resolve_trusted texts_net ones proxied (lit "1.0.0.1:80"))
resolve_trusted-IsWalk_example =
    resolve_trusted-IsWalk texts_net ones proxied (lit "1.0.0.1:80") (lit "1.0.0.1")
      (lit "9.9.9.9,1.0.0.2") [] peer_is peer_trusted proxied_values

resolve_trusted-forged_example :
    resolve_trusted texts_net ones forged (lit "1.0.0.1:80")
    ≡ resolve_trusted texts_net ones proxied (lit "1.0.0.1:80")
resolve_trusted-forged_example =
    resolve_trusted-forged texts_net ones proxied forged (lit "1.0.0.1:80") (lit "1.0.0.1")
      (lit "6.6.6.6") [] (lit "9.9.9.9,1.0.0.2") [] (lit "9.9.9.9") peer_is peer_trusted
      proxied_values forged_values client_hop client_is_none

resolve_xff_ip-forged_example :
    resolve_xff_ip texts_net forged 2 ≡ resolve_xff_ip texts_net proxied 2
resolve_xff_ip-forged_example =
    resolve_xff_ip-forged texts_net proxied forged 2 (lit "6.6.6.6") [] (lit "9.9.9.9,1.0.0.2") []
      proxied_values forged_values two_hops

spaced_source : parse_client_ip_source texts_net (lit " XFF:2 ") ≡ ok (xff 2)
unfolding client_ip_program parse_client_ip_source parse_trimmed new_xff_source to_lower lower_from
    lower_head atoi digits digits_from positive_value form_width drop_forms
spaced_source = refl

single_hop : ¬ IsProxyList texts_net (xff 2)
single_hop (t, q) = cc

parse_client_ip_source-string_example :
    parse_client_ip_source texts_net (source_string texts_net (xff 2)) ≡ ok (xff 2)
parse_client_ip_source-string_example =
    parse_client_ip_source-string texts_net (lit " XFF:2 ") (xff 2) spaced_source single_hop
