-- ===== src/Relay/Plan/Laws.antt =====
-- What a plan promises: which relays it keeps, and that each caller reaches the relay it asks for.
use proxy_proxy.Prelude.{List, some, not, ◌≡◌, sym, ap, ◌∙◌, Memᴰ, ◌↔◌, arith}
use proxy_proxy.Prelude.Tests.{some_inj}
use proxy_proxy.Prelude.Member.{contains, mem-filter, mem-filter_of, contains_of_mem, not-contains}
use proxy_proxy.Prelude.Text.{str_eq}
use proxy_proxy.Config.Types.{Config}
use proxy_proxy.Relay.Types.{Plan, RelaySpec, ListenerSpec, Endpoint, Adapter}
use proxy_proxy.Relay.Plan.{start, check_relays, kept_endpoints, kept_relays, new_plan}
use proxy_proxy.Relay.Plan.Conflict.{find_conflicts}
use proxy_proxy.Relay.Plan.Conflict.Spec.{Clashes}
use proxy_proxy.Relay.Plan.Conflict.Laws.{find_conflicts-rejected_iff}
use proxy_proxy.Relay.Plan.Isolation.{kept_endpoints-IsIsolated}
use proxy_proxy.Relay.Plan.Accept.{checked-OwnShare}
use proxy_proxy.Relay.Plan.Listener.Laws.{AreListeners, build_listeners-AreListeners}

-- The endpoints and the relays that pass the first loop of `NewPlan`.
abbrev pub checked_endpoints : Adapter → Config → List Endpoint
checked_endpoints a cfg = (check_relays a cfg 0 cfg.relays start).endpoints

abbrev pub checked_relays : Adapter → Config → List RelaySpec
checked_relays a cfg = (check_relays a cfg 0 cfg.relays start).relays

abbrev plan_of : Adapter → Config → List ListenerSpec → Plan
plan_of a cfg ls = record {
  relays = kept_relays (checked_endpoints a cfg) (checked_relays a cfg);
  listeners = ls;
}

new_plan_lem :
    (a : Adapter) (cfg : Config)
    → (ls : List ListenerSpec) × ((new_plan a cfg).0 ≡ some (plan_of a cfg ls))
      × AreListeners (kept_endpoints (checked_endpoints a cfg)) ls
unfolding new_plan
new_plan_lem a cfg =
    let eps = checked_endpoints a cfg in
    let (ls, h) =
      build_listeners-AreListeners (kept_endpoints eps)
        (kept_endpoints-IsIsolated eps (checked-OwnShare a cfg)) in
    (ls, rw (h.built, new_plan), h)

-- The relays of the plan are accepted ones.
pub new_plan-relays :
    (a : Adapter) (cfg : Config) (p : Plan)
    → (new_plan a cfg).0 ≡ some p
    → p.relays ≡ kept_relays (checked_endpoints a cfg) (checked_relays a cfg)
new_plan-relays a cfg p h =
    let (ls, built, _) = new_plan_lem a cfg in
    ap (λ (q : Plan). q.relays) (some_inj (sym h ∙ built))

-- For every configuration `NewPlan` returns a plan, and its listeners serve the endpoints that are
-- in no conflict: there is one listener to a port, in increasing order of ports, each kept endpoint
-- is served by the listener of its port with its own relay and password, and each user of a
-- listener is a kept endpoint on its port.
pub new_plan-AreListeners :
    (a : Adapter) (cfg : Config)
    → (p : Plan) × ((new_plan a cfg).0 ≡ some p)
      × AreListeners (kept_endpoints (checked_endpoints a cfg)) p.listeners
new_plan-AreListeners a cfg =
    let (ls, built, h) = new_plan_lem a cfg in (plan_of a cfg ls, built, h)

-- A relay that has passed its own checks is in the plan exactly when it clashes with no other
-- relay on any port.
pub new_plan-relays_iff :
    (a : Adapter) (cfg : Config) (p : Plan) (s : RelaySpec)
    → (new_plan a cfg).0 ≡ some p
    → Memᴰ s p.relays ↔ (Memᴰ s (checked_relays a cfg) × ¬ Clashes (checked_endpoints a cfg) s.name)
unfolding kept_relays
new_plan-relays_iff a cfg p s h =
    let eps = checked_endpoints a cfg in
    let (ls, built, _) = new_plan_lem a cfg in
    let same = ap (λ (q : Plan). q.relays) (some_inj (sym h ∙ built)) in
    let test = λ (r : RelaySpec). not (contains (find_conflicts eps).rejected r.name) in
    let rejected = (find_conflicts eps).rejected in
    (
      λ m.
          let (k, t) = mem-filter test (checked_relays a cfg) (rw same at m) in
          (
            k,
            λ c.
                let hit = contains_of_mem rejected ((find_conflicts-rejected_iff eps s.name).1 c) in
                ground (arith, hit, t),
          ),
      λ (m, free). rw same (
          mem-filter_of test (checked_relays a cfg) m (
            rw (
              not-contains rejected s.name
                (λ k. free ((find_conflicts-rejected_iff eps s.name).0 k))))),
    )
