-- ===== src/Tests/RelayPlan.antt =====
-- internal/relay/plan.go on a configuration with three relays, two of which share a port.
use proxy_proxy.Prelude.{ℕ, List, [], ◌∷◌, none, some, ◌≡◌, refl, Memᴰ, String, ◌↔◌}
use proxy_proxy.Prelude.Tests.{ok, nat_eq}
use proxy_proxy.Prelude.Int.{pos}
use proxy_proxy.Prelude.Text.{lit}
use proxy_proxy.Node.Value.{Object}
use proxy_proxy.Config.Types.{Config, Relay, Upstream, Downstream}
use proxy_proxy.Relay.Types.{
  Adapter, Plan, RelaySpec, Endpoint, conflict, no_username, strategies, listener_types,
  builtin_proxies,
}
use proxy_proxy.Prelude.{ap}
use proxy_proxy.Prelude.Lists.{filter, any}
use proxy_proxy.Prelude.Dict.{lookup, insert, keys}
use proxy_proxy.Prelude.Member.{contains, append_unique, uniques_from}
use proxy_proxy.Prelude.Text.{str_beq, contains_str, contains_any, trim_space}
use proxy_proxy.Prelude.Text.Host.{split_host_port}
use proxy_proxy.Prelude.Text.Numeral.{atoi, value_of, itoa}
use proxy_proxy.Config.Types.{fetched_sub_names}
use proxy_proxy.Node.Value.{set}
use proxy_proxy.Relay.Plan.{
  new_plan, check_relay, check_relays, name_count, listen_port, kept_endpoints, kept_relays,
}
use proxy_proxy.Relay.Plan.Check.{
  validate_relay, check_relay_name, check_proxy, check_downstream, port_error, auth_error,
  check_own_port, check_own_ports, check_upstream, check_upstreams, check_downstreams, endpoint_of,
  or_default,
}
use proxy_proxy.Relay.Plan.Check.OwnPorts.{PairwiseCanShare, check_own_ports_iff}
use proxy_proxy.Relay.Plan.Check.Entry.{IsValidEntry, check_downstream_iff}
use proxy_proxy.Relay.Plan.Group.{group_by_port, owners_from}
use proxy_proxy.Relay.Plan.Group.Laws.{on_port}
use proxy_proxy.Relay.Plan.Conflict.{find_conflicts, judge_port, judge_ports, judge_users, reject}
use proxy_proxy.Relay.Plan.Conflict.Spec.{Clashes}
use proxy_proxy.Relay.Plan.Conflict.Laws.{find_conflicts-rejected_iff}
use proxy_proxy.Relay.Plan.Isolation.{kept_endpoints-IsIsolated}
use proxy_proxy.Relay.Plan.Accept.{checked-OwnShare}
use proxy_proxy.Relay.Plan.Listener.{
  build_listeners, build_each, build_listener, listener_of, shared_type, users_from,
}
use proxy_proxy.Relay.Plan.Listener.Laws.{AreListeners, IsIsolated}
use proxy_proxy.Relay.Plan.Laws.{
  checked_endpoints, checked_relays, new_plan-AreListeners, new_plan-relays_iff,
}

abbrev pub adapter : Adapter
adapter = record { Proxy = Unit {0}; parse_proxy = λ o. ok tt; close = λ p. none }

abbrev entry : ℕ → String → Downstream
entry port user = record {
  typ = [];
  listen = [];
  port = pos port;
  username = lit user;
  password = lit user;
}

abbrev upstream : Upstream
upstream = record { sub = []; interval = pos 0; proxy = some Object.empty; sub_name = [] }

abbrev relay : String → List Downstream → Relay
relay name ds = record { name = lit name; strategy = []; upstream = upstream ∷ []; downstream = ds }

abbrev pub config : Config
config = record {
  listen = lit ":8080";
  user_agent = [];
  timeout = pos 0;
  subs = [];
  keys = [];
  relays =
      relay "pool" (entry 1080 "pool" ∷ [])
      ∷ relay "wg" (entry 1080 "wg" ∷ entry 1090 "" ∷ [])
      ∷ relay "open" (entry 1090 "" ∷ [])
      ∷ [];
  relay_subs = [];
}

-- Everything that a run of `new_plan` computes with.
relay_program : Unit {0}
unfolding new_plan str_beq check_relay check_relays name_count listen_port split_host_port atoi
    value_of fetched_sub_names validate_relay check_relay_name check_proxy check_downstream
    port_error auth_error check_own_port check_own_ports check_upstream check_upstreams
    check_downstreams find_conflicts judge_port judge_ports judge_users reject group_by_port
    owners_from kept_endpoints kept_relays build_listeners build_each build_listener listener_of
    shared_type users_from itoa lit contains contains_str contains_any trim_space set lookup insert
    keys append_unique uniques_from filter any strategies listener_types builtin_proxies on_port
relay_program = tt

abbrev pub pool_end : Endpoint
pool_end = record {
  relay = lit "pool";
  typ = lit "mixed";
  listen = [];
  port = 1080;
  username = lit "pool";
  password = lit "pool";
}

-- `wg` and `open` clash on port 1090, where neither has a username.
abbrev pub pool_plan : Plan
pool_plan = record {
  relays =
      record {
        name = lit "pool";
        strategy = lit "url-test";
        upstreams = record { proxy = some Object.empty; sub = [] } ∷ [];
      }
      ∷ [];
  listeners =
      record {
        name = lit "relay-1080";
        typ = lit "mixed";
        listen = [];
        port = 1080;
        relay = [];
        users = pool_end ∷ [];
      }
      ∷ [];
}

pub new_plan_run :
    new_plan adapter config
    ≡ (some pool_plan, conflict 1090 no_username (lit "wg" ∷ lit "open" ∷ []) ∷ [])
unfolding relay_program
new_plan_run = refl

pub pool_end_kept : Memᴰ pool_end (kept_endpoints (checked_endpoints adapter config))
unfolding relay_program
pool_end_kept = Memᴰ.head refl

new_plan-AreListeners_example :
    (p : Plan) × ((new_plan adapter config).0 ≡ some p)
    × AreListeners (kept_endpoints (checked_endpoints adapter config)) p.listeners
new_plan-AreListeners_example = new_plan-AreListeners adapter config

abbrev pool_spec : RelaySpec
pool_spec = record {
  name = lit "pool";
  strategy = lit "url-test";
  upstreams = record { proxy = some Object.empty; sub = [] } ∷ [];
}

new_plan-relays_iff_example : Memᴰ pool_spec pool_plan.relays ↔ (
    Memᴰ pool_spec (checked_relays adapter config)
    × ¬ Clashes (checked_endpoints adapter config) (lit "pool"))
new_plan-relays_iff_example =
    new_plan-relays_iff adapter config pool_plan pool_spec (ap (λ r. r.0) new_plan_run)

find_conflicts-rejected_iff_example :
    Memᴰ (lit "wg") (find_conflicts (checked_endpoints adapter config)).rejected
    ↔ Clashes (checked_endpoints adapter config) (lit "wg")
find_conflicts-rejected_iff_example =
    find_conflicts-rejected_iff (checked_endpoints adapter config) (lit "wg")

kept_endpoints-IsIsolated_example : IsIsolated (kept_endpoints (checked_endpoints adapter config))
kept_endpoints-IsIsolated_example =
    kept_endpoints-IsIsolated (checked_endpoints adapter config) (checked-OwnShare adapter config)

check_own_ports_iff_example :
    (check_own_ports (pool_end ∷ pool_end ∷ []) ≡ none)
    ↔ PairwiseCanShare (pool_end ∷ pool_end ∷ [])
check_own_ports_iff_example = check_own_ports_iff (pool_end ∷ pool_end ∷ [])

check_downstream_iff_example :
    ((check_downstream (entry 1080 "pool") (pos 8080)
        ≡ ok (endpoint_of (entry 1080 "pool") (or_default (lit "mixed") [])))
      ↔ IsValidEntry (entry 1080 "pool") (pos 8080))
    × ((e : Endpoint)
        → check_downstream (entry 1080 "pool") (pos 8080) ≡ ok e
        → IsValidEntry (entry 1080 "pool") (pos 8080))
check_downstream_iff_example = check_downstream_iff (entry 1080 "pool") (pos 8080)
