-- ===== src/Relay/Plan/Listener.antt =====
-- internal/relay/plan.go: `buildListeners`.
pub mod Laws
use proxy_proxy.Prelude.{ℕ, List, [], ◌∷◌, ◌++◌, Option, none, some, Bool}
use proxy_proxy.Prelude.Tests.{◌==◌, nat_eq, if◌then◌else◌}
use proxy_proxy.Prelude.Dict.{Dict, lookup}
use proxy_proxy.Prelude.Int.{pos}
use proxy_proxy.Prelude.Member.{contains, append_unique}
use proxy_proxy.Prelude.Text.{Str, lit, is_empty, str_eq}
use proxy_proxy.Prelude.Text.Numeral.{itoa}
use proxy_proxy.Relay.Types.{Endpoint, ListenerSpec, listener_types}
use proxy_proxy.Relay.Plan.Group.{slice_of, group_by_port}

-- `listenerTypes[typ]`; a missing key reads as the empty string.
unfoldable pub listener_type : Str → Str
listener_type typ = elim (lookup typ listener_types) [ none ↦ [] | some t ↦ t ]

-- The loop over the endpoints after the first.
unfoldable pub shared_type : Str → List Endpoint → Str
unfolding listener_type
shared_type typ [] = typ
shared_type typ (e ∷ eps) =
    shared_type (if listener_type e.typ == typ then typ else lit "mixed") eps

-- The first endpoint of each username that has not been seen.
unfoldable pub users_from : List Str → List Endpoint → List Endpoint
users_from seen [] = []
users_from seen (e ∷ eps) =
    let later = users_from (append_unique seen e.username) eps in
    if contains seen e.username then later else e ∷ later

-- The listener of a port, from its first endpoint and the rest.
unfoldable pub listener_of : ℕ → Endpoint → List Endpoint → ListenerSpec
listener_of port e eps = record {
  name = lit "relay-" ++ itoa (pos port);
  typ = shared_type (listener_type e.typ) eps;
  listen = e.listen;
  port = port;
  relay = if is_empty e.username then e.relay else [];
  users = if is_empty e.username then [] else users_from [] (e ∷ eps);
}

-- A port always has an endpoint; the code would fault on an empty list, which is `none`.
unfoldable pub build_listener : ℕ → List Endpoint → Option ListenerSpec
build_listener port [] = none
build_listener port (e ∷ eps) = some (listener_of port e eps)

unfoldable pub build_each : Dict ℕ (List Endpoint) → List ℕ → Option (List ListenerSpec)
build_each by_port [] = some []
build_each by_port (port ∷ ports) = elim (build_listener port (slice_of (lookup port by_port))) [
  | none ↦ none
  | some l ↦ elim (build_each by_port ports) [ none ↦ none | some ls ↦ some (l ∷ ls) ]
]

unfoldable pub build_listeners : List Endpoint → Option (List ListenerSpec)
build_listeners eps = let (ports, by_port) = group_by_port eps in build_each by_port ports
