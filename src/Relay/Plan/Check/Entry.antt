-- ===== src/Relay/Plan/Check/Entry.antt =====
-- `checkDownstream` accepts exactly the valid downstream entries.
use proxy_proxy.Prelude.{ℕ, ◌≤◌, [], ◌∷◌, none, true, false, ◌≡◌, ◌≢◌, refl, ◌∙◌, ◌⊎◌, ◌↔◌, arith}
use proxy_proxy.Prelude.Tests.{ok}
use proxy_proxy.Prelude.Dict.{lookup}
use proxy_proxy.Prelude.Int.{ℤ, pos, negsuc, ℤ_eq, ℤ_beq_iff}
use proxy_proxy.Prelude.Text.{
  Str, lit, str_eq, str_beq_iff, contains_any, trim_space, eq-nil_of_is_empty, is_empty_of_eq,
  is_empty_of_ne,
}
use proxy_proxy.Config.Types.{Downstream}
use proxy_proxy.Relay.Types.{Endpoint, listener_types}
use proxy_proxy.Relay.Plan.Check.{
  or_default, is_some, port_error, auth_error, endpoint_of, check_downstream,
}

-- The rules for a downstream entry, beside proxy-proxy's own listen port.
pub record IsValidEntry (d : Downstream) (own_port : ℤ) : Type 0 where
  pub port : ℕ
  pub port_eq : d.port ≡ pos port
  pub port_pos : 1 ≤ port
  pub port_max : port ≤ 65535
  pub not_own : d.port ≢ own_port
  pub typ : (d.typ ≡ []) ⊎ (d.typ ≡ lit "http") ⊎ (d.typ ≡ lit "socks5") ⊎ (d.typ ≡ lit "mixed")
  pub no_lone_password : d.username ≡ [] → d.password ≡ []
  pub has_password : d.username ≢ [] → d.password ≡ [] → d.typ ≡ lit "http"
  pub plain_username : contains_any d.username (lit ",/():") ≡ false
  pub trimmed_username : trim_space d.username ≡ d.username

port_sound :
    (port own_port : ℤ)
    → port_error port own_port ≡ none
    → (n : ℕ) × (port ≡ pos n) × (1 ≤ n) × (n ≤ 65535) × (port ≢ own_port)
unfolding port_error
port_sound (pos n) own_port h = (
  n,
  refl,
  ground (arith, ℤ_beq_iff (pos n) own_port),
  ground (arith, ℤ_beq_iff (pos n) own_port),
  λ q. ground (arith, ℤ_beq_iff (pos n) own_port),
)
port_sound (negsuc n) own_port h = absurd (ground arith)

port_complete :
    (n : ℕ) (own_port : ℤ)
    → 1 ≤ n
    → n ≤ 65535
    → pos n ≢ own_port
    → port_error (pos n) own_port ≡ none
unfolding port_error
port_complete n own_port lo hi ne = ground (arith, ℤ_beq_iff (pos n) own_port)

typ_sound :
    (typ : Str)
    → is_some (lookup (or_default (lit "mixed") typ) listener_types) ≡ true
    → (typ ≡ []) ⊎ (typ ≡ lit "http") ⊎ (typ ≡ lit "socks5") ⊎ (typ ≡ lit "mixed")
unfolding lookup listener_types
typ_sound typ h = ground (
  arith,
  str_beq_iff (lit "http") typ,
  str_beq_iff (lit "socks5") typ,
  str_beq_iff (lit "mixed") typ,
  eq-nil_of_is_empty typ,
)

typ_complete :
    (typ : Str)
    → (typ ≡ []) ⊎ (typ ≡ lit "http") ⊎ (typ ≡ lit "socks5") ⊎ (typ ≡ lit "mixed")
    → is_some (lookup (or_default (lit "mixed") typ) listener_types) ≡ true
unfolding lookup listener_types
typ_complete typ h = ground (
  arith,
  str_beq_iff (lit "http") (or_default (lit "mixed") typ),
  str_beq_iff (lit "socks5") (or_default (lit "mixed") typ),
  str_beq_iff (lit "mixed") (or_default (lit "mixed") typ),
  is_empty_of_eq typ,
)

-- The rules for the credentials of an entry of the listener type `typ`.
record IsValidAuth (typ username password : Str) : Type 0 where
  no_lone_password : username ≡ [] → password ≡ []
  has_password : username ≢ [] → password ≡ [] → typ ≡ lit "http"
  plain : contains_any username (lit ",/():") ≡ false
  trimmed : trim_space username ≡ username

auth_sound :
    (typ username password : Str)
    → auth_error typ username password ≡ none
    → IsValidAuth typ username password
unfolding auth_error
auth_sound typ username password h = record {
  no_lone_password = λ q. eq-nil_of_is_empty password (ground (arith, is_empty_of_eq username q));
  has_password = λ q r.
      ground
        (arith, is_empty_of_ne username q, is_empty_of_eq password r, str_beq_iff typ (lit "http"));
  plain = ground arith;
  trimmed = ground (arith, str_beq_iff (trim_space username) username);
}

auth_complete :
    (typ username password : Str)
    → IsValidAuth typ username password
    → auth_error typ username password ≡ none
unfolding auth_error
auth_complete typ username password v = ground (
  arith,
  v.no_lone_password,
  v.has_password,
  v.plain,
  eq-nil_of_is_empty username,
  eq-nil_of_is_empty password,
  is_empty_of_eq password,
  is_empty_of_ne username,
  str_beq_iff typ (lit "http"),
  str_beq_iff (trim_space username) username,
  v.trimmed,
)

http_of_default : (typ : Str) → or_default (lit "mixed") typ ≡ lit "http" → typ ≡ lit "http"
unfolding lit
http_of_default [] h = absurd (cc)
http_of_default (c ∷ s) h = h

default_of_http : (typ : Str) → typ ≡ lit "http" → or_default (lit "mixed") typ ≡ lit "http"
unfolding lit
default_of_http [] h = absurd (cc)
default_of_http (c ∷ s) h = h

check_downstream_sound :
    (d : Downstream) (own_port : ℤ) {e : Endpoint}
    → check_downstream d own_port ≡ ok e
    → IsValidEntry d own_port
unfolding check_downstream
check_downstream_sound d own_port {e} h =
    let (n, q, lo, hi, ne) = port_sound d.port own_port (ground arith) in
    let v = auth_sound (or_default (lit "mixed") d.typ) d.username d.password (ground arith) in
    record {
      port = n;
      port_eq = q;
      port_pos = lo;
      port_max = hi;
      not_own = ne;
      typ = typ_sound d.typ (ground arith);
      no_lone_password = v.no_lone_password;
      has_password = λ p r. http_of_default d.typ (v.has_password p r);
      plain_username = v.plain;
      trimmed_username = v.trimmed;
    }

check_downstream_complete :
    (d : Downstream) (own_port : ℤ)
    → IsValidEntry d own_port
    → check_downstream d own_port ≡ ok (endpoint_of d (or_default (lit "mixed") d.typ))
unfolding check_downstream
check_downstream_complete d own_port v =
    let port : port_error d.port own_port ≡ none =
      rw v.port_eq
        (port_complete v.port own_port v.port_pos v.port_max (λ q. v.not_own (v.port_eq ∙ q))) in
    let auth = auth_complete (or_default (lit "mixed") d.typ) d.username d.password (record {
      no_lone_password = v.no_lone_password;
      has_password = λ p r. default_of_http d.typ (v.has_password p r);
      plain = v.plain_username;
      trimmed = v.trimmed_username;
    }) in
    ground (arith, typ_complete d.typ v.typ, port, auth)

-- An entry is accepted, and then with its own fields and the type that defaults to mixed, exactly
-- when it is valid: a known type or none, a port from 1 to 65535 that is not proxy-proxy's own, no
-- password without a username, no username without a password unless the type is http, and a
-- username without `,`, `/`, `(`, `)`, `:` and surrounding space.
pub check_downstream_iff :
    (d : Downstream) (own_port : ℤ)
    → ((check_downstream d own_port ≡ ok (endpoint_of d (or_default (lit "mixed") d.typ)))
        ↔ IsValidEntry d own_port)
      × ((e : Endpoint) → check_downstream d own_port ≡ ok e → IsValidEntry d own_port)
check_downstream_iff d own_port = (
  (check_downstream_sound d own_port, check_downstream_complete d own_port),
  λ e h. check_downstream_sound d own_port h,
)
