-- ===== src/Relay/Plan/Check.antt =====
-- internal/relay/plan.go: the validation of one relay, from its name to its own ports.
pub mod OwnPorts
pub mod Entry
use proxy_proxy.Prelude.{
  ℕ, suc, List, [], ◌∷◌, ◌++◌, Option, none, some, Bool, true, false, ◌&&◌, ◌||◌, not,
}
use proxy_proxy.Prelude.Tests.{Result, ok, err, nat_eq, ◌==◌, if◌then◌else◌, ◌>>=◌}
use proxy_proxy.Prelude.Dict.{lookup}
use proxy_proxy.Prelude.Member.{contains}
use proxy_proxy.Prelude.Int.{ℤ, pos, ltb_ℤ, ℤ_eq, pos_part}
use proxy_proxy.Prelude.Text.{Str, lit, str_eq, is_empty, contains_str, contains_any, trim_space}
use proxy_proxy.Node.Value.{Object, empty, text, set}
use proxy_proxy.Config.Types.{Upstream, Downstream, Relay, is_sub_url}
use proxy_proxy.Relay.Types.{
  strategies, listener_types, builtin_proxies, UpstreamSpec, RelaySpec, Endpoint, Adapter,
  NameError, name_required, bad_name, reserved_name, DownstreamError, unknown_type, port_required,
  port_out_of_range, own_listen_port, password_without_username, username_without_password,
  bad_username, OwnPortError, listens_differ, mixed_auth, two_passwords, RelayError, name_error,
  unknown_strategy, no_upstream, invalid_sub_url, unknown_sub, interval_on_name, bad_proxy,
  no_downstream, downstream_error, own_port_error,
}

-- `_, ok := m[k]`
abbrev pub is_some {ℓ} : {A : Type ℓ} → Option A → Bool
is_some none = false
is_some (some a) = true

abbrev pub or_default : Str → Str → Str
or_default d s = if is_empty s then d else s

unfoldable pub check_relay_name : Str → Option NameError
check_relay_name name =
    if is_empty name
    then some name_required
    else if contains_str name (lit ",") || not (trim_space name == name)
    then some (bad_name name)
    else if contains builtin_proxies name
    then some (reserved_name name)
    else none

-- The clone of the map with the name set is what mihomo loads and closes again.
unfoldable pub check_proxy : Adapter → Option Object → Option Str
check_proxy a m =
    let named = set (lit "name") (text (lit "check")) (elim m [ none ↦ empty | some o ↦ o ]) in
    elim (a.parse_proxy named) [ ok p ↦ a.close p | err e ↦ some e ]

-- The endpoint of an entry whose port has passed its checks; the relay is filled in later.
abbrev pub endpoint_of : Downstream → Str → Endpoint
endpoint_of d typ = record {
  relay = [];
  typ = typ;
  listen = d.listen;
  port = pos_part d.port;
  username = d.username;
  password = d.password;
}

unfoldable pub port_error : ℤ → ℤ → Option DownstreamError
port_error port own_port =
    if port == pos 0
    then some port_required
    else if ltb_ℤ port (pos 0) || ltb_ℤ (pos 65535) port
    then some (port_out_of_range port)
    else if port == own_port
    then some (own_listen_port port)
    else none

unfoldable pub auth_error : Str → Str → Str → Option DownstreamError
auth_error typ username password =
    if is_empty username && not (is_empty password)
    then some password_without_username
    else if not (is_empty username) && is_empty password && not (typ == lit "http")
    then some username_without_password
    else if contains_any username (lit ",/():") || not (trim_space username == username)
    then some (bad_username username)
    else none

unfoldable pub check_downstream : Downstream → ℤ → Result DownstreamError Endpoint
check_downstream d own_port =
    let typ = or_default (lit "mixed") d.typ in
    if not (is_some (lookup typ listener_types))
    then err (unknown_type typ)
    else elim (port_error d.port own_port) [
      | some e ↦ err e
      | none ↦ elim (auth_error typ d.username d.password) [
        | some e ↦ err e
        | none ↦ ok (endpoint_of d typ)
      ]
    ]

-- The inner loop of `checkOwnPorts`: `e` against the endpoints before it.
unfoldable pub check_own_port : Endpoint → List Endpoint → Option OwnPortError
check_own_port e [] = none
check_own_port e (prev ∷ before) =
    let rest = check_own_port e before in
    if not (prev.port == e.port)
    then rest
    else if not (prev.listen == e.listen)
    then some (listens_differ e.port prev.listen e.listen)
    else if (is_empty prev.username && not (is_empty e.username))
        || (not (is_empty prev.username) && is_empty e.username)
    then some (mixed_auth e.port)
    else if prev.username == e.username && not (prev.password == e.password)
    then some (two_passwords e.port e.username)
    else rest

-- The outer loop; `before` holds the endpoints that it has passed.
unfoldable pub check_own_ports_from : List Endpoint → List Endpoint → Option OwnPortError
check_own_ports_from before [] = none
check_own_ports_from before (e ∷ eps) =
    let rest = check_own_ports_from (before ++ e ∷ []) eps in
    elim (check_own_port e before) [ some x ↦ some x | none ↦ rest ]

unfoldable pub check_own_ports : List Endpoint → Option OwnPortError
unfolding check_own_ports_from
check_own_ports eps = check_own_ports_from [] eps

-- One round of the loop over the upstreams; `known` holds the names of the fetched subs.
unfoldable pub check_upstream : Adapter → List Str → ℕ → Upstream → Result RelayError UpstreamSpec
check_upstream a known i up =
    if not (is_empty up.sub) && is_empty up.sub_name
    then err (invalid_sub_url i up.sub)
    else if not (is_empty up.sub) && not (contains known up.sub_name)
    then err (unknown_sub i up.sub)
    else if not (up.interval == pos 0) && not (is_sub_url up.sub)
    then err (interval_on_name i up.sub)
    else if not (is_empty up.sub)
    then ok (record { proxy = none; sub = up.sub_name })
    else elim (check_proxy a up.proxy) [
      | some e ↦ err (bad_proxy i e)
      | none ↦ ok (record { proxy = up.proxy; sub = [] })
    ]

unfoldable pub check_upstreams :
    Adapter → List Str → ℕ → List Upstream → Result RelayError (List UpstreamSpec)
check_upstreams a known i [] = ok []
check_upstreams a known i (up ∷ ups) = do
  spec ← check_upstream a known i up
  specs ← check_upstreams a known (suc i) ups
  ok (spec ∷ specs)

-- The endpoints of the downstream entries, with their relay filled in.
unfoldable pub check_downstreams : Str → ℤ → ℕ → List Downstream → Result RelayError (List Endpoint)
check_downstreams relay own_port i [] = ok []
check_downstreams relay own_port i (d ∷ ds) = elim (check_downstream d own_port) [
  | err x ↦ err (downstream_error i x)
  | ok e ↦ do
    eps ← check_downstreams relay own_port (suc i) ds
    ok (record e { relay = relay } ∷ eps)
]

abbrev pub is_nil {ℓ} : {A : Type ℓ} → List A → Bool
is_nil [] = true
is_nil (x ∷ xs) = false

abbrev pub guard {ℓ} : {E : Type ℓ} → Option E → Result E (Unit {0})
guard none = ok tt
guard (some e) = err e

abbrev pub wrap {ℓ κ} : {A : Type ℓ} {B : Type κ} → (A → B) → Option A → Option B
wrap f none = none
wrap f (some a) = some (f a)

unfoldable pub validate_relay :
    Adapter → List Str → ℤ → Relay → Result RelayError (RelaySpec × List Endpoint)
validate_relay a known own_port r = do
  _ ← guard (wrap name_error (check_relay_name r.name))
  let strategy = or_default (lit "url-test") r.strategy
  _ ←
      guard
        (if is_some (lookup strategy strategies) then none else some (unknown_strategy strategy))
  _ ← guard (if is_nil r.upstream then some no_upstream else none)
  ups ← check_upstreams a known 0 r.upstream
  _ ← guard (if is_nil r.downstream then some no_downstream else none)
  eps ← check_downstreams r.name own_port 0 r.downstream
  _ ← guard (wrap own_port_error (check_own_ports eps))
  ok (record { name = r.name; strategy = strategy; upstreams = ups }, eps)
