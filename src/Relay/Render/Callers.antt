-- ===== src/Relay/Render/Callers.antt =====
-- How mihomo is told to serve the callers of a plan: listeners, users, rules, routes and groups.
use proxy_proxy.Prelude.{
  ℕ, List, [], ◌∷◌, ◌++◌, Option, none, some, true, ◌≡◌, ◌≢◌, ◌⊎◌, refl, ap, ◌∙◌, inl, inr, Memᴰ,
}
use proxy_proxy.Prelude.Tests.{Option-cases}
use proxy_proxy.Prelude.Dict.{lookup}
use proxy_proxy.Prelude.Int.{pos}
use proxy_proxy.Prelude.Text.{Str, lit, str_eq, is_empty, is_empty_of_ne}
use proxy_proxy.Prelude.Text.Numeral.{itoa}
use proxy_proxy.Node.Value.{null, int, text, items, Items, nil, Object, get}
use proxy_proxy.Config.Types.{Config}
use proxy_proxy.Relay.Types.{Adapter, Endpoint, ListenerSpec, Plan}
use proxy_proxy.Relay.Registry.{NodeSource}
use proxy_proxy.Relay.Plan.{new_plan, kept_endpoints}
use proxy_proxy.Relay.Plan.Kept.{kept_endpoint-relay_name}
use proxy_proxy.Relay.Plan.Laws.{checked_endpoints}
use proxy_proxy.Relay.Plan.RelayNames.{new_plan-relay_names}
use proxy_proxy.Relay.Plan.Listener.Laws.{IsBuilt}
use proxy_proxy.Relay.Render.{
  route_eq, Desired, Listening, user_rule, user_items, target_of, grouped, listening, render_plan,
}
use proxy_proxy.Relay.Render.Groups.{target_in}
use proxy_proxy.Relay.Render.GroupOf.{HasGroup, grouped-HaveGroups}
use proxy_proxy.Relay.Render.Laws.{grouped-IsGrouped}
use proxy_proxy.Relay.Render.Listened.{HasItem, credentials, user_items-mem}
use proxy_proxy.Relay.Render.Rules.{listener-IsConfig, rule_of_user, user_of_rule}
use proxy_proxy.Relay.Render.Access.{
  port_name, target_of-kept, plan-AreListeners, render_plan-routes,
}
use mathlib.Core.List.Memᴰ
use mathlib.Core.Path.{subst}

-- Where the callers of a relay are sent: to its group, which lists its members, or to REJECT while it
-- has none.
abbrev pub IsTarget : Desired → Str → Str → Type 0
IsTarget d relay t =
    ((lookup relay d.members ≡ none) × (t ≡ lit "REJECT"))
    ⊎ ((names : List Str) × (lookup relay d.members ≡ some names)
        × (names ≢ [])
        × (t ≡ relay)
        × HasGroup d.groups relay names)

-- The rule for a user on a port, as mihomo reads it.
abbrev pub rule_text : ℕ → Str → Str → Str
rule_text port username target =
    lit "AND,((IN-NAME,relay-"
    ++ (itoa (pos port) ++ (lit "),(IN-USER," ++ (username ++ (lit "))," ++ target))))

-- The state lets the caller in on the endpoint's port, and sends it to the endpoint's relay.
pub record IsServed (d : Desired) (e : Endpoint) : Type 0 where
  pub target : Str
  pub sent : IsTarget d e.relay target
  pub config : Object
  pub listed : Memᴰ config d.listeners
  pub name : get (lit "name") config ≡ text (lit "relay-" ++ itoa (pos e.port))
  pub port : get (lit "port") config ≡ int (pos e.port)
  pub listen : e.listen ≢ [] → get (lit "listen") config ≡ text e.listen
  pub open_port :
      e.username ≡ []
      → (get (lit "proxy") config ≡ text target) × (get (lit "users") config ≡ items nil)
  pub user :
      e.username ≢ []
      → (get (lit "proxy") config ≡ null)
        × ((us : Items) × (get (lit "users") config ≡ items us)
            × HasItem (credentials e.username e.password) us)
        × Memᴰ (rule_text e.port e.username target) d.rules
  pub route :
      lookup
        (record { listener = lit "relay-" ++ itoa (pos e.port); username = e.username })
        d.routes
      ≡ some (record { password = e.password; target = target })

-- A rule sends a user of a port to the relay of an endpoint with that user and port.
abbrev pub IsRuleOf : Desired → List Endpoint → Str → Type 0
IsRuleOf d eps rule =
    (e : Endpoint) × (t : Str) × Memᴰ e eps
    × IsTarget d e.relay t
    × (rule ≡ rule_text e.port e.username t)

abbrev no_listening : Listening
no_listening = record { listeners = []; rules = []; routes = [] }

module _ (a : Adapter) (marshal : Object → Option Str) (nodes : NodeSource) (cfg : Config)
    (p : Plan) (h : (new_plan a cfg).0 ≡ some p) where
  target_in-IsTarget :
      (relay : Str)
      → let d = (render_plan a marshal nodes p).0 in IsTarget d relay (target_in d.members relay)
  unfolding render_plan target_in
  target_in-IsTarget relay =
      let g = grouped a marshal nodes p in
      let (inv, _) = grouped-IsGrouped a marshal nodes p (new_plan-relay_names a cfg p h) in
      elim (Option-cases (lookup relay g.members)) [
        | inl missing ↦ inl (missing, rw (missing, target_in) refl)
        | inr (names, found) ↦ inr (
          names,
          found,
          (inv.members relay names found).0,
          rw (found, target_in) refl,
          grouped-HaveGroups a marshal nodes p relay names found,
        )
      ]

  shared_port :
      (l : ListenerSpec) (u : Endpoint) → IsBuilt l → Memᴰ u l.users → is_empty l.relay ≡ true
  shared_port l u is m = elim is.either [
    | inl shared ↦ rw shared refl
    | inr none_here ↦ elim (rw none_here at m) [ ]
  ]

  rules_named :
      (name : Str) (port : ℕ) (username t : Str)
      → name ≡ port_name port
      → user_rule name username t ≡ rule_text port username t
  unfolding user_rule lit
  rules_named name port username t q = rw q refl

  kept-IsServed :
      (e : Endpoint)
      → Memᴰ e (kept_endpoints (checked_endpoints a cfg))
      → IsServed (render_plan a marshal nodes p).0 e
  unfolding render_plan listening
  kept-IsServed e m =
      let are = plan-AreListeners a marshal nodes cfg p h in
      let (l, ml, serves) = are.serve e m in
      let is = are.each l ml in
      let named : l.name ≡ port_name e.port = rw (← serves.port) is.name in
      let g = grouped a marshal nodes p in
      let t = target_of-kept a marshal nodes cfg p h e m in
      let (o, mo, cfg_of) = listener-IsConfig g.target p.listeners no_listening ml in
      record {
        target = target_in g.members e.relay;
        sent = target_in-IsTarget e.relay;
        config = o;
        listed = mo;
        name = cfg_of.name ∙ ap text named;
        port = cfg_of.port ∙ ap (λ n. int (pos n)) serves.port;
        listen = λ ne.
            cfg_of.listen (rw serves.listen (is_empty_of_ne e.listen ne)) ∙ ap text serves.listen;
        open_port = λ q.
            let (goes, _) = serves.without_user q in
            let (to, nobody) = cfg_of.one_relay (rw goes (kept_endpoint-relay_name a cfg e m)) in
            (to ∙ ap text (ap (target_of g.target) goes ∙ t), nobody);
        user = λ ne.
            let (u, mu, same_user, same_relay, same_password) = serves.with_user ne in
            let shared = shared_port l u is mu in
            let (nobody, users) = cfg_of.by_user shared in
            let rule = rule_of_user g.target p.listeners no_listening ml shared mu in
            (
              nobody,
              (
                user_items l.users,
                users,
                rw (same_user, same_password) at (user_items-mem l.users mu),
              ),
              Memᴰ.append_left (lit "MATCH,REJECT" ∷ []) (
                  subst (λ r. Memᴰ r (listening g.target p).rules)
                    (rules_named l.name e.port u.username (target_of g.target u.relay) named
                      ∙ ap (λ v. rule_text e.port v (target_of g.target u.relay)) same_user
                      ∙ ap (rule_text e.port e.username) (ap (target_of g.target) same_relay ∙ t))
                    rule),
            );
        route = render_plan-routes a marshal nodes cfg p h e m;
      }

  rule-IsRuleOf :
      (rule : Str)
      → Memᴰ rule (listening (grouped a marshal nodes p).target p).rules
      → IsRuleOf (render_plan a marshal nodes p).0 (kept_endpoints (checked_endpoints a cfg)) rule
  unfolding render_plan listening
  rule-IsRuleOf rule m =
      let g = grouped a marshal nodes p in
      let are = plan-AreListeners a marshal nodes cfg p h in
      let (l, u, ml, mu, is) = user_of_rule g.target p.listeners no_listening refl m in
      let (me, port) = are.users l u ml mu in
      let named : l.name ≡ port_name u.port = rw port (are.each l ml).name in
      let t = target_of-kept a marshal nodes cfg p h u me in
      (
        u,
        target_in g.members u.relay,
        me,
        target_in-IsTarget u.relay,
        is
            ∙ (rules_named l.name u.port u.username (target_of g.target u.relay) named
                ∙ ap (rule_text u.port u.username) t),
      )

  -- What mihomo is told to do with the callers of the plan of `NewPlan`. Each kept endpoint has a
  -- listener on its port and address. Where it has no username, the listener has no users and sends
  -- everybody to the endpoint's relay; otherwise the listener has a user with the endpoint's username
  -- and password and no target of its own, and there is a rule that sends this user of this listener to
  -- the endpoint's relay. The route that is kept for its credentials has the same target. Being sent to
  -- a relay is to its group, which exists and lists its members, or to REJECT while it has no members.
  -- Every rule sends a user of a kept endpoint to the endpoint's relay, but for the last one, which
  -- rejects all others.
  pub render_plan-callers :
      let d = (render_plan a marshal nodes p).0 in
      let eps = kept_endpoints (checked_endpoints a cfg) in
      ((e : Endpoint) → Memᴰ e eps → IsServed d e)
      × ((rules : List Str) × (d.rules ≡ rules ++ lit "MATCH,REJECT" ∷ [])
          × ((rule : Str) → Memᴰ rule rules → IsRuleOf d eps rule))
  unfolding render_plan
  render_plan-callers =
      (kept-IsServed, ((listening (grouped a marshal nodes p).target p).rules, refl, rule-IsRuleOf))
