-- ===== src/Relay/Render.antt =====
-- internal/relay/render.go: from a plan and the nodes of its subs to the state that mihomo is to have.
pub mod Cases
pub mod Groups
pub mod GroupNames
pub mod GroupOf
pub mod Listened
pub mod Rules
pub mod Routes
pub mod Written
pub mod Access
pub mod Callers
pub mod Laws
use proxy_proxy.Prelude.{
  ℕ, List, [], ◌∷◌, ◌++◌, map, Option, none, some, Bool, true, false, not, ◌&&◌, ◌↔◌, ◌≡◌, refl,
  arith, ap,
}
use proxy_proxy.Prelude.Tests.{if◌then◌else◌, ltb, Eq, ◌==◌}
use proxy_proxy.Prelude.Lists.{length}
use proxy_proxy.Prelude.Dict.{Dict, lookup, insert}
use proxy_proxy.Prelude.Int.{pos}
use proxy_proxy.Prelude.Text.{Str, lit, is_empty, str_eq, str_beq_iff}
use proxy_proxy.Node.Value.{
  Value, bool, int, text, texts, items, object, Items, nil, cons, Object, empty, field, set,
}
use proxy_proxy.Relay.Types.{
  Adapter, Strategy, strategies, builtin_proxies, RelaySpec, Endpoint, ListenerSpec, Plan,
}
use proxy_proxy.Relay.Registry.{Registry, Members, Warning, no_usable_upstream, NodeSource, members}

pub record Route : Type 0 where
  pub listener : Str
  pub username : Str

abbrev pub route_beq : Route → Route → Bool
route_beq r s = r.listener == s.listener && r.username == s.username

pub route_beq_iff : (r s : Route) → (route_beq r s ≡ true) ↔ (r ≡ s)
route_beq_iff r s =
    ground (arith, str_beq_iff r.listener s.listener, str_beq_iff r.username s.username)

instance abbrev pub route_eq : Eq Route
route_eq = record { beq = route_beq; beq_iff = route_beq_iff }

pub record RouteTarget : Type 0 where
  pub password : Str
  pub target : Str

pub record Desired : Type 0 where
  pub proxies : List Object
  pub groups : List Object
  pub listeners : List Object
  pub rules : List Str
  pub routes : Dict Route RouteTarget
  pub members : Dict Str (List Str)

unfoldable pub general_config : Object
unfolding lit
general_config = field (lit "mode") (text (lit "rule")) (
    field (lit "log-level") (text (lit "silent")) (
      field (lit "find-process-mode") (text (lit "off"))
        (field (lit "profile") (object (field (lit "store-selected") (bool false) empty)) empty)))

abbrev object_items : List Object → Items
object_items [] = nil
object_items (o ∷ os) = cons (object o) (object_items os)

-- The document that the method `yaml` marshals.
unfoldable pub desired_doc : Desired → Object
unfolding general_config lit
desired_doc d = set (lit "rules") (texts d.rules) (
    set (lit "listeners") (items (object_items d.listeners)) (
      set (lit "proxy-groups") (items (object_items d.groups))
        (set (lit "proxies") (items (object_items d.proxies)) general_config)))

abbrev pub no_strategy : Strategy
no_strategy = record { group_type = []; load_balance = [] }

abbrev pub group_base : RelaySpec → List Str → Str → Object
group_base r names typ =
    field (lit "name") (text r.name)
      (field (lit "type") (text typ) (field (lit "proxies") (texts names) empty))

unfoldable pub strategy_group : RelaySpec → List Str → Strategy → Object
unfolding lit
strategy_group r names s =
    if is_empty s.load_balance
    then group_base r names s.group_type
    else set (lit "strategy") (text s.load_balance) (group_base r names s.group_type)

unfoldable pub strategy_of : Str → Strategy
strategy_of name = elim (lookup name strategies) [ none ↦ no_strategy | some s ↦ s ]

unfoldable pub relay_group : RelaySpec → List Str → Object
unfolding strategy_group strategy_of lit
relay_group r (name ∷ []) = group_base r (name ∷ []) (lit "select")
relay_group r names = strategy_group r names (strategy_of r.strategy)

-- The variables of the loop over the relays.
pub record Grouped : Type 0 where
  pub groups : List Object
  pub members : Dict Str (List Str)
  pub target : Dict Str Str
  pub registry : Registry

abbrev pub reject_target : Str
reject_target = lit "REJECT"

unfoldable pub group_relay :
    Adapter → (Object → Option Str) → NodeSource → RelaySpec → Grouped → Grouped
unfolding relay_group
group_relay a marshal nodes r g =
    let m = members a marshal nodes r g.registry in
    elim m.names [
      | [] ↦ record g {
        target = insert r.name reject_target g.target;
        registry = record (m.registry) {
          warns =
              if m.pending
              then m.registry.warns
              else m.registry.warns ++ no_usable_upstream r.name ∷ [];
        };
      }
      | n ∷ ns ↦ record {
        groups = g.groups ++ relay_group r m.names ∷ [];
        members = insert r.name m.names g.members;
        target = insert r.name r.name g.target;
        registry = m.registry;
      }
    ]

unfoldable pub group_relays :
    Adapter → (Object → Option Str) → NodeSource → List RelaySpec → Grouped → Grouped
unfolding group_relay
group_relays a marshal nodes [] g = g
group_relays a marshal nodes (r ∷ rs) g =
    group_relays a marshal nodes rs (group_relay a marshal nodes r g)

-- `target[relay]`; a missing key reads as the empty string.
unfoldable pub target_of : Dict Str Str → Str → Str
target_of target relay = elim (lookup relay target) [ none ↦ [] | some t ↦ t ]

-- The variables that the loop over the listeners adds to.
pub record Listening : Type 0 where
  pub listeners : List Object
  pub rules : List Str
  pub routes : Dict Route RouteTarget

unfoldable pub user_rule : Str → Str → Str → Str
unfolding lit
user_rule listener username target =
    lit "AND,((IN-NAME," ++ (listener ++ (lit "),(IN-USER," ++ (username ++ (lit "))," ++ target))))

unfoldable pub add_user : Dict Str Str → Str → Endpoint → Listening → Listening
unfolding target_of user_rule
add_user target listener u s =
    let t = target_of target u.relay in
    record s {
      rules = s.rules ++ user_rule listener u.username t ∷ [];
      routes =
          insert (record { listener = listener; username = u.username })
            (record { password = u.password; target = t }) s.routes;
    }

unfoldable pub add_users : Dict Str Str → Str → List Endpoint → Listening → Listening
unfolding add_user
add_users target listener [] s = s
add_users target listener (u ∷ us) s = add_users target listener us (add_user target listener u s)

abbrev pub user_items : List Endpoint → Items
user_items [] = nil
user_items (u ∷ us) =
    cons
      (object
        (field (lit "username") (text u.username) (field (lit "password") (text u.password) empty)))
      (user_items us)

unfoldable pub listener_head : ListenerSpec → Object
unfolding lit
listener_head l =
    let m =
      field (lit "name") (text l.name)
        (field (lit "type") (text l.typ) (field (lit "port") (int (pos l.port)) empty)) in
    if is_empty l.listen then m else set (lit "listen") (text l.listen) m

unfoldable pub add_listener : Dict Str Str → ListenerSpec → Listening → Listening
unfolding add_users listener_head target_of lit
add_listener target l s =
    if not (is_empty l.relay)
    then (let t = target_of target l.relay in
        let m = set (lit "proxy") (text t) (set (lit "users") (items nil) (listener_head l)) in
        record s {
          listeners =
              s.listeners
              ++ (if l.typ == lit "http" then m else set (lit "udp") (bool true) m) ∷ [];
          routes =
              insert (record { listener = l.name; username = [] })
                (record { password = []; target = t }) s.routes;
        })
    else (let s' = add_users target l.name l.users s in
        record s' {
          listeners =
              s'.listeners ++ set (lit "users") (items (user_items l.users)) (listener_head l) ∷ [];
        })

unfoldable pub add_listeners : Dict Str Str → List ListenerSpec → Listening → Listening
unfolding add_listener
add_listeners target [] s = s
add_listeners target (l ∷ ls) s = add_listeners target ls (add_listener target l s)

-- The registry before the first relay: groups share the namespace of the proxies.
unfoldable pub new_registry : List RelaySpec → Registry
new_registry rs = record {
  used = builtin_proxies ++ map (λ r. r.name) rs;
  by_content = [];
  proxies = [];
  warns = [];
}

unfoldable pub grouped : Adapter → (Object → Option Str) → NodeSource → Plan → Grouped
unfolding group_relays new_registry
grouped a marshal nodes p =
    group_relays a marshal nodes p.relays
      (record { groups = []; members = []; target = []; registry = new_registry p.relays })

unfoldable pub listening : Dict Str Str → Plan → Listening
unfolding add_listeners
listening target p =
    add_listeners target p.listeners (record { listeners = []; rules = []; routes = [] })

-- `Plan.Render`
unfoldable pub render_plan :
    Adapter → (Object → Option Str) → NodeSource → Plan → Desired × List Warning
unfolding grouped listening lit
render_plan a marshal nodes p =
    let g = grouped a marshal nodes p in
    let s = listening g.target p in
    (
      record {
        proxies = g.registry.proxies;
        groups = g.groups;
        listeners = s.listeners;
        rules = s.rules ++ lit "MATCH,REJECT" ∷ [];
        routes = s.routes;
        members = g.members;
      },
      g.registry.warns,
    )
