-- ===== src/Relay/Render/Laws.antt =====
-- The groups and proxies that `Render` makes of a plan.
use proxy_proxy.Prelude.{
  List, [], ◌∷◌, ◌++◌, Option, none, some, true, false, ◌≡◌, ◌≢◌, ◌↔◌, refl, sym, ap, ◌∙◌, inl, inr,
  arith,
}
use proxy_proxy.Prelude.Tests.{Bool-cases, Option-cases, ◌==◌, eq_of_beq, beq_refl, beq_of_eq}
use proxy_proxy.Prelude.Dict.{lookup, lookup-insert}
use proxy_proxy.Prelude.Member.{contains, IsDistinct, All}
use proxy_proxy.Prelude.Text.{Str, str_eq, str_beq_iff}
use proxy_proxy.Node.Value.{Object}
use proxy_proxy.Relay.Types.{Adapter, RelaySpec, Plan, builtin_proxies}
use proxy_proxy.Config.Types.{Config}
use proxy_proxy.Relay.Plan.{new_plan}
use proxy_proxy.Relay.Plan.RelayNames.{relay_names, new_plan-relay_names}
use proxy_proxy.Relay.Registry.{NodeSource}
use proxy_proxy.Relay.Registry.Laws.{names_of}
use proxy_proxy.Relay.Render.{
  Desired, Grouped, new_registry, group_relay, group_relays, grouped, render_plan,
}
use proxy_proxy.Relay.Render.Groups.{
  target_in, IsGroup, AreMembers, IsGrouped, group_relay-IsGrouped,
}
use proxy_proxy.Relay.Render.Cases.{group_relay-target}
use proxy_proxy.Relay.Render.GroupNames.{group_relays-names}
use mathlib.Core.List.{append-nil}

target-none_iff :
    (a : Adapter) (marshal : Object → Option Str) (nodes : NodeSource) (r : RelaySpec) (g : Grouped)
    (name : Str)
    → (lookup name (group_relay a marshal nodes r g).target ≡ none)
      ↔ ((r.name ≢ name) × (lookup name g.target ≡ none))
target-none_iff a marshal nodes r g name =
    let (t, eq) = group_relay-target a marshal nodes r g in
    rw (eq, lookup-insert r.name name t g.target)
      (elim (Bool-cases (r.name == name)) [
        | inl same ↦ rw same (λ q. cc, λ (ne, _). absurd (ne (eq_of_beq r.name name same)))
        | inr other ↦ rw other (λ q. (λ p. let bad = beq_of_eq r.name name p in cc, q), λ (_, q). q)
      ])

group_relays-IsGrouped :
    (a : Adapter) (marshal : Object → Option Str) (nodes : NodeSource) (base : List Str)
    (rs : List RelaySpec) (g : Grouped)
    → IsDistinct (relay_names rs)
    → ((name : Str) → contains (relay_names rs) name ≡ true → lookup name g.target ≡ none)
    → IsGrouped base g
    → IsGrouped base (group_relays a marshal nodes rs g)
      × ((name : Str)
          → lookup name (group_relays a marshal nodes rs g).target ≡ none
          → (lookup name g.target ≡ none) × (contains (relay_names rs) name ≡ false))
unfolding group_relays contains
group_relays-IsGrouped a marshal nodes base [] g d new h = (h, λ name q. (q, refl))
group_relays-IsGrouped a marshal nodes base (r ∷ rs) g (fresh, d) new h =
    let g' = group_relay a marshal nodes r g in
    let new_here = new r.name (rw (beq_refl r.name) refl) in
    let (inv, only) =
      group_relays-IsGrouped a marshal nodes base rs g' d
        (λ name m. (target-none_iff a marshal nodes r g name).1 (
          λ p. let m' : contains (relay_names rs) r.name ≡ true = rw p m in cc,
          new name (rw m (ground arith)),
        ))
        (group_relay-IsGrouped a marshal nodes base r g new_here h) in
    (
      inv,
      λ name q.
          let (none_here, missing) = only name q in
          let (ne, before) = (target-none_iff a marshal nodes r g name).0 none_here in
          (
            before,
            ground (arith, missing, str_beq_iff name r.name, λ (p : name ≡ r.name). ne (sym p)),
          ),
    )

-- The names of the state that mihomo is given are distinct, built-in ones included, and its groups
-- have names of relays and list their members, which are proxies of the state, each once and at least one.
pub record IsRendered (p : Plan) (d : Desired) : Type 0 where
  pub names : IsDistinct ((builtin_proxies ++ relay_names p.relays) ++ names_of d.proxies)
  pub group_names : IsDistinct (names_of d.groups)
  pub relays :
      (name : Str)
      → contains (names_of d.groups) name ≡ true
      → contains (relay_names p.relays) name ≡ true
  pub groups : All (IsGroup d.members) d.groups
  pub members :
      (relay : Str) (names : List Str)
      → lookup relay d.members ≡ some names
      → AreMembers d.proxies names

pub IsDistinct-right : (xs ys : List Str) → IsDistinct (xs ++ ys) → IsDistinct ys
IsDistinct-right [] ys d = d
IsDistinct-right (x ∷ xs) ys (_, d) = IsDistinct-right xs ys d

module _ (a : Adapter) (marshal : Object → Option Str) (nodes : NodeSource) (p : Plan)
    (d : IsDistinct (builtin_proxies ++ relay_names p.relays)) where
  grouped-names :
      let g = grouped a marshal nodes p in
      IsDistinct (names_of g.groups)
      × ((name : Str)
          → contains (names_of g.groups) name ≡ true
          → contains (relay_names p.relays) name ≡ true)
  unfolding grouped
  grouped-names =
      group_relays-names a marshal nodes p.relays
        (record { groups = []; members = []; target = []; registry = new_registry p.relays })
        (IsDistinct-right builtin_proxies (relay_names p.relays) d)

  -- The loop over the relays, and the target of each of them.
  pub grouped-IsGrouped :
      IsGrouped (builtin_proxies ++ relay_names p.relays) (grouped a marshal nodes p)
      × ((relay : Str)
          → contains (relay_names p.relays) relay ≡ true
          → let g = grouped a marshal nodes p in
            lookup relay g.target ≡ some (target_in g.members relay))
  unfolding grouped new_registry lookup contains
  grouped-IsGrouped =
      let base = builtin_proxies ++ relay_names p.relays in
      let g0 : Grouped = record {
        groups = [];
        members = [];
        target = [];
        registry = new_registry p.relays;
      } in
      let first : IsGrouped base g0 = record {
        registry = record {
          used_all = sym (append-nil base);
          distinct = d;
          known = λ key name q. absurd (cc);
          above = λ name q. absurd (cc);
        };
        members = λ relay names q. absurd (cc);
        groups = tt;
        no_target = λ relay q. refl;
        target = λ relay t q. absurd (cc);
      } in
      let (inv, only) =
        group_relays-IsGrouped a marshal nodes base p.relays g0
          (IsDistinct-right builtin_proxies (relay_names p.relays) d) (λ name m. refl) first in
      let g = grouped a marshal nodes p in
      (
        inv,
        λ relay m. elim (Option-cases (lookup relay g.target)) [
          | inl missing ↦ let (_, none_here) = only relay missing in absurd (cc)
          | inr (t, found) ↦ found ∙ ap some (inv.target relay t found)
        ],
      )

-- What `Render` makes of the plan that `NewPlan` returns, whatever the nodes of its subs: no two of
-- mihomo's built-in proxies, the relays and the proxies have one name, each group has a relay's name,
-- which no other group has, and lists the members recorded under it, and members are proxies of the
-- state, each once and at least one.
pub render_plan-IsRendered :
    (a : Adapter) (marshal : Object → Option Str) (nodes : NodeSource) (cfg : Config) (p : Plan)
    → (new_plan a cfg).0 ≡ some p
    → IsRendered p (render_plan a marshal nodes p).0
unfolding render_plan
render_plan-IsRendered a marshal nodes cfg p h =
    let (inv, _) = grouped-IsGrouped a marshal nodes p (new_plan-relay_names a cfg p h) in
    let (own, sub) = grouped-names a marshal nodes p (new_plan-relay_names a cfg p h) in
    record {
      group_names = own;
      relays = sub;
      names = rw (← inv.registry.used_all) inv.registry.distinct;
      groups = inv.groups;
      members = inv.members;
    }
