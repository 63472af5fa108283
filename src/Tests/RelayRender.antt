-- ===== src/Tests/RelayRender.antt =====
-- internal/relay/render.go on the plan of the configuration with three relays.
use proxy_proxy.Prelude.{List, [], ◌∷◌, Memᴰ, ◌++◌, Option, some, false, ◌≡◌, ap}
use proxy_proxy.Prelude.Int.{pos}
use proxy_proxy.Prelude.Text.{Str, lit, str_eq}
use proxy_proxy.Prelude.Text.Numeral.{itoa}
use proxy_proxy.Node.Value.{Object}
use proxy_proxy.Relay.Types.{Endpoint}
use proxy_proxy.Relay.Plan.{new_plan, kept_endpoints}
use proxy_proxy.Relay.Plan.Laws.{checked_endpoints}
use proxy_proxy.Relay.Registry.{NodeSource}
use proxy_proxy.Relay.Render.{Route, RouteTarget, route_eq, Desired, render_plan}
use proxy_proxy.Relay.Render.Groups.{target_in}
use proxy_proxy.Relay.Render.Laws.{IsRendered, render_plan-IsRendered}
use proxy_proxy.Relay.Render.Access.{render_plan-routes, render_plan-only_routes}
use proxy_proxy.Relay.Render.Callers.{IsServed, IsRuleOf, render_plan-callers}
use proxy_proxy.Tests.RelayPlan.{adapter, config, pool_end, pool_end_kept, pool_plan, new_plan_run}

abbrev pub marshal : Object → Option Str
marshal o = some []

abbrev pub no_nodes : NodeSource
no_nodes name = ([], false)

abbrev pub pool_state : Desired
pool_state = (render_plan adapter marshal no_nodes pool_plan).0

pub pool_is : (new_plan adapter config).0 ≡ some pool_plan
pool_is = ap (λ r. r.0) new_plan_run

render_plan-IsRendered_example :
    IsRendered pool_plan (render_plan adapter marshal no_nodes pool_plan).0
render_plan-IsRendered_example =
    render_plan-IsRendered adapter marshal no_nodes config pool_plan pool_is

render_plan-callers_example :
    let eps = kept_endpoints (checked_endpoints adapter config) in
    ((e : Endpoint) → Memᴰ e eps → IsServed pool_state e)
    × ((rules : List Str) × (pool_state.rules ≡ rules ++ lit "MATCH,REJECT" ∷ [])
        × ((rule : Str) → Memᴰ rule rules → IsRuleOf pool_state eps rule))
render_plan-callers_example = render_plan-callers adapter marshal no_nodes config pool_plan pool_is

abbrev pool_route : Route
pool_route = record {
  listener = lit "relay-" ++ itoa (pos pool_end.port);
  username = pool_end.username;
}

abbrev pool_target : RouteTarget
pool_target = record {
  password = pool_end.password;
  target = target_in pool_state.members pool_end.relay;
}

render_plan-only_routes_example :
    (e : Endpoint) × Memᴰ e (kept_endpoints (checked_endpoints adapter config))
    × (pool_route ≡ record { listener = lit "relay-" ++ itoa (pos e.port); username = e.username })
    × (pool_target
        ≡ record { password = e.password; target = target_in pool_state.members e.relay })
render_plan-only_routes_example =
    render_plan-only_routes adapter marshal no_nodes config pool_plan pool_is pool_route pool_target
      (render_plan-routes adapter marshal no_nodes config pool_plan pool_is pool_end pool_end_kept)
