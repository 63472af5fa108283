-- ===== src/Relay/Render/Access.antt =====
-- The callers of a plan: the credentials of a kept endpoint, and the relay each route leads to.
use proxy_proxy.Prelude.{
  ℕ, List, [], ◌∷◌, ◌++◌, map, Option, some, ◌≡◌, ◌≢◌, refl, sym, ap, ◌∙◌, inl, inr, arith, Memᴰ,
  ◌<◌,
}
use proxy_proxy.Prelude.Tests.{Bool-cases, some_inj}
use proxy_proxy.Prelude.Dict.{lookup}
use proxy_proxy.Prelude.Int.{pos}
use proxy_proxy.Prelude.Member.{IsDistinct, All, contains_of_mem, not-contains}
use proxy_proxy.Prelude.Text.{Str, lit, str_eq, is_empty, eq-nil_of_is_empty, is_empty_of_eq}
use proxy_proxy.Prelude.Text.Numeral.{itoa, decimal_inj}
use proxy_proxy.Node.Value.{Object}
use proxy_proxy.Config.Types.{Config}
use proxy_proxy.Relay.Types.{Adapter, Endpoint, ListenerSpec, RelaySpec, Plan}
use proxy_proxy.Relay.Registry.{NodeSource}
use proxy_proxy.Relay.Plan.{new_plan, kept_endpoints}
use proxy_proxy.Relay.Plan.Kept.{
  kept_endpoint-relay, kept_endpoint-relay_name, kept_endpoint-password,
}
use proxy_proxy.Relay.Plan.Laws.{checked_endpoints, new_plan-AreListeners}
use proxy_proxy.Relay.Plan.RelayNames.{relay_names, new_plan-relay_names}
use proxy_proxy.Relay.Plan.Listener.Laws.{AreListeners, IsBuilt}
use proxy_proxy.Relay.Plan.Group.Laws.{IsIncreasing}
use proxy_proxy.Relay.Render.{
  Route, RouteTarget, route_eq, target_of, Listening, grouped, listening, render_plan,
}
use proxy_proxy.Relay.Render.Groups.{target_in}
use proxy_proxy.Relay.Render.Laws.{grouped-IsGrouped}
use proxy_proxy.Relay.Render.Routes.{listener_names, route_of_relay, route_of_user}
use proxy_proxy.Relay.Render.Written.{WrittenBy, add_listeners-was}
use mathlib.Core.List.Memᴰ
use mathlib.Core.Path.{subst}

abbrev pub port_name : ℕ → Str
port_name port = lit "relay-" ++ itoa (pos port)

port_name-inj : (m n : ℕ) → port_name m ≡ port_name n → m ≡ n
unfolding lit itoa
port_name-inj m n e = decimal_inj m n (cc)

-- Listeners on increasing ports have different names.
listener_names-IsDistinct :
    (ls : List ListenerSpec)
    → IsIncreasing (map (λ l. l.port) ls)
    → ((l : ListenerSpec) → Memᴰ l ls → IsBuilt l)
    → IsDistinct (listener_names ls)
listener_names-IsDistinct [] i each = tt
listener_names-IsDistinct (l ∷ ls) (above, i) each = (
  not-contains (listener_names ls) l.name (later l ls above each),
  listener_names-IsDistinct ls i (λ k m. each k (Memᴰ.tail m)),
)
  where
    later :
        (l : ListenerSpec) (ks : List ListenerSpec)
        → All (λ k. l.port < k) (map (λ k. k.port) ks)
        → ((k : ListenerSpec) → Memᴰ k (l ∷ ks) → IsBuilt k)
        → ¬ Memᴰ l.name (listener_names ks)
    later l [] above each m = elim m [ ]
    later l (k ∷ ks) (lt, above) each m = elim (Memᴰ.cases_cons m) [
      | inl same ↦
          let q = port_name-inj l.port k.port (
            sym (each l (Memᴰ.head refl)).name
            ∙ (same ∙ (each k (Memᴰ.tail (Memᴰ.head refl))).name)) in
          omega arith
      | inr rest ↦
          later l ks above
            (λ j mj. elim (Memᴰ.cases_cons mj) [
              | inl here ↦ each j (Memᴰ.head here)
              | inr there ↦ each j (Memᴰ.tail (Memᴰ.tail there))
            ])
            rest
    ]

relay_name-mem : (rs : List RelaySpec) {r : RelaySpec} → Memᴰ r rs → Memᴰ r.name (relay_names rs)
relay_name-mem [] m = elim m [ ]
relay_name-mem (s ∷ rs) (Memᴰ.head same) = Memᴰ.head (ap (λ (x : RelaySpec). x.name) same)
relay_name-mem (s ∷ rs) (Memᴰ.tail m) = Memᴰ.tail (relay_name-mem rs m)

module _ (a : Adapter) (marshal : Object → Option Str) (nodes : NodeSource) (cfg : Config)
    (p : Plan) (h : (new_plan a cfg).0 ≡ some p) where
  pub target_of-kept :
      (e : Endpoint)
      → Memᴰ e (kept_endpoints (checked_endpoints a cfg))
      → let g = grouped a marshal nodes p in
        target_of g.target e.relay ≡ target_in g.members e.relay
  unfolding target_of
  target_of-kept e m =
      let (_, known) = grouped-IsGrouped a marshal nodes p (new_plan-relay_names a cfg p h) in
      let (s, ms, q) = kept_endpoint-relay a cfg p e h m in
      rw (
        known e.relay
            (contains_of_mem (relay_names p.relays) (rw (← q) (relay_name-mem p.relays ms))),
        target_of,
      )

  pub plan-AreListeners : AreListeners (kept_endpoints (checked_endpoints a cfg)) p.listeners
  plan-AreListeners =
      let (q, built, are) = new_plan-AreListeners a cfg in
      subst (λ (x : Plan). AreListeners (kept_endpoints (checked_endpoints a cfg)) x.listeners)
        (some_inj (sym built ∙ h)) are

  -- What a listener of the plan writes is the route of a kept endpoint.
  written_endpoint :
      (l : ListenerSpec) (k : Route)
      → Memᴰ l p.listeners
      → WrittenBy (grouped a marshal nodes p).target l k
      → (e : Endpoint) × Memᴰ e (kept_endpoints (checked_endpoints a cfg))
        × (k ≡ record { listener = lit "relay-" ++ itoa (pos e.port); username = e.username })
  written_endpoint l k ml (inl (one, is)) =
      let are = plan-AreListeners in
      let (e, me, port, no_user, _) = are.open_relay l ml one in
      let named : l.name ≡ port_name e.port = rw port (are.each l ml).name in
      (e, me, is ∙ (rw (named, no_user) refl))
  written_endpoint l k ml (inr (u, mu, is)) =
      let are = plan-AreListeners in
      let (me, port) = are.users l u ml mu in
      let named : l.name ≡ port_name u.port = rw port (are.each l ml).name in
      (u, me, is ∙ (rw named refl))

  -- The state that `Render` makes of the plan of `NewPlan` routes the credentials of each kept
  -- endpoint, at the listener of its port, to the group of its own relay with its own password, or
  -- to REJECT while that relay has no members.
  pub render_plan-routes :
      (e : Endpoint)
      → Memᴰ e (kept_endpoints (checked_endpoints a cfg))
      → let d = (render_plan a marshal nodes p).0 in
        lookup
          (record { listener = lit "relay-" ++ itoa (pos e.port); username = e.username })
          d.routes
        ≡ some (record { password = e.password; target = target_in d.members e.relay })
  unfolding render_plan listening
  render_plan-routes e m =
      let are = plan-AreListeners in
      let (l, ml, serves) = are.serve e m in
      let is = are.each l ml in
      let own = listener_names-IsDistinct p.listeners are.ports are.each in
      let named : l.name ≡ port_name e.port = rw (← serves.port) is.name in
      let t = target_of-kept e m in
      let target = (grouped a marshal nodes p).target in
      let first : Listening = record { listeners = []; rules = []; routes = [] } in
      elim (Bool-cases (is_empty e.username)) [
        | inl open_port ↦
            let no_user = eq-nil_of_is_empty e.username open_port in
            let no_password =
              eq-nil_of_is_empty e.password (kept_endpoint-password a cfg e m open_port) in
            let (goes, _) = serves.without_user no_user in
            let r =
              route_of_relay target p.listeners first own ml
                (rw goes (kept_endpoint-relay_name a cfg e m)) in
            rw (no_user, no_password) (rw (named, goes, t) at r)
        | inr user ↦
            let ne : e.username ≢ [] = λ q. let bad = is_empty_of_eq e.username q in cc in
            let (u, mu, same_user, same_relay, same_password) = serves.with_user ne in
            elim is.either [
              | inl shared ↦
                  let r = route_of_user target p.listeners first own ml shared is.usernames mu in
                  rw (named, same_user, same_relay, same_password, t) at r
              | inr none_here ↦ elim (rw none_here at mu) [ ]
            ]
      ]

  -- When `new_plan` gave the plan, every route that a lookup finds in the rendered state is the
  -- route of a kept endpoint: the listener is that of the endpoint's port, the username and the
  -- password are the endpoint's, and the target is that of the endpoint's relay.
  pub render_plan-only_routes :
      (k : Route) (t : RouteTarget)
      → let d = (render_plan a marshal nodes p).0 in
        lookup k d.routes ≡ some t
        → (e : Endpoint) × Memᴰ e (kept_endpoints (checked_endpoints a cfg))
          × (k ≡ record { listener = lit "relay-" ++ itoa (pos e.port); username = e.username })
          × (t ≡ record { password = e.password; target = target_in d.members e.relay })
  unfolding render_plan listening lookup
  render_plan-only_routes k t q =
      let are = plan-AreListeners in
      let target = (grouped a marshal nodes p).target in
      let first : Listening = record { listeners = []; rules = []; routes = [] } in
      elim (add_listeners-was target p.listeners first k t q) [
        | inl old ↦ absurd (cc)
        | inr (l, ml, by) ↦
            let (e, me, same) = written_endpoint l k ml by in
            (
              e,
              me,
              same,
              some_inj (
                  sym q
                  ∙ (ap (λ (r : Route). lookup r ((render_plan a marshal nodes p).0.routes)) same
                      ∙ render_plan-routes e me)),
            )
      ]
