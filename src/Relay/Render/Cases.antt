-- ===== src/Relay/Render/Cases.antt =====
-- The two ways in which the loop over the relays handles one.
use proxy_proxy.Prelude.{List, [], ◌∷◌, ◌++◌, Option, ◌⊎◌, ◌≡◌, ◌≢◌, refl, sym, ◌∙◌, inl, inr}
use proxy_proxy.Prelude.Tests.{if◌then◌else◌, Bool-cases}
use proxy_proxy.Prelude.Dict.{insert}
use proxy_proxy.Prelude.Text.{Str, lit, is_empty, str_eq, str_beq}
use proxy_proxy.Node.Value.{texts, Object, get, set}
use proxy_proxy.Node.Sprint.{str}
use proxy_proxy.Relay.Types.{Adapter, RelaySpec, Strategy}
use proxy_proxy.Relay.Registry.{Members, NodeSource, members, no_usable_upstream}
use proxy_proxy.Relay.Registry.Laws.{names_of, names_of-append}
use proxy_proxy.Relay.Render.{
  strategy_group, strategy_of, relay_group, reject_target, Grouped, group_relay,
}

strategy_group_fields :
    (r : RelaySpec) (names : List Str) (s : Strategy)
    → (str (get (lit "name") (strategy_group r names s)) ≡ r.name)
      × (get (lit "proxies") (strategy_group r names s) ≡ texts names)
unfolding strategy_group get set str str_beq lit
strategy_group_fields r names s = elim (Bool-cases (is_empty s.load_balance)) [
  | inl plain ↦ rw (plain, strategy_group) (refl, refl)
  | inr balanced ↦ rw (balanced, strategy_group) (refl, refl)
]

pub relay_group_fields :
    (r : RelaySpec) (names : List Str)
    → (str (get (lit "name") (relay_group r names)) ≡ r.name)
      × (get (lit "proxies") (relay_group r names) ≡ texts names)
unfolding relay_group get str str_beq lit
relay_group_fields r [] = strategy_group_fields r [] (strategy_of r.strategy)
relay_group_fields r (n ∷ []) = (refl, refl)
relay_group_fields r (n ∷ m ∷ ns) = strategy_group_fields r (n ∷ m ∷ ns) (strategy_of r.strategy)

-- The two ways a relay is handled.
unfoldable pub rejected : RelaySpec → Members → Grouped → Grouped
rejected r m g = record g {
  target = insert r.name reject_target g.target;
  registry = record (m.registry) {
    warns =
        if m.pending then m.registry.warns else m.registry.warns ++ no_usable_upstream r.name ∷ [];
  };
}

unfoldable pub accepted : RelaySpec → Members → Grouped → Grouped
accepted r m g = record {
  groups = g.groups ++ relay_group r m.names ∷ [];
  members = insert r.name m.names g.members;
  target = insert r.name r.name g.target;
  registry = m.registry;
}

pub group_relay-cases :
    (a : Adapter) (marshal : Object → Option Str) (nodes : NodeSource) (r : RelaySpec) (g : Grouped)
    → let m = members a marshal nodes r g.registry in
      ((m.names ≡ []) × (group_relay a marshal nodes r g ≡ rejected r m g))
      ⊎ ((m.names ≢ []) × (group_relay a marshal nodes r g ≡ accepted r m g))
unfolding group_relay rejected accepted
group_relay-cases a marshal nodes r g = by_names (members a marshal nodes r g.registry).names refl
  where
    by_names :
        (ns : List Str)
        → (members a marshal nodes r g.registry).names ≡ ns
        → let m = members a marshal nodes r g.registry in
          ((m.names ≡ []) × (group_relay a marshal nodes r g ≡ rejected r m g))
          ⊎ ((m.names ≢ []) × (group_relay a marshal nodes r g ≡ accepted r m g))
    by_names [] e = inl (e, rw (e, group_relay) refl)
    by_names (n ∷ ns) e = inr (λ q. let bad = sym e ∙ q in cc, rw (e, group_relay) (rw e refl))

-- A relay gets a target, and no other does.
pub group_relay-target :
    (a : Adapter) (marshal : Object → Option Str) (nodes : NodeSource) (r : RelaySpec) (g : Grouped)
    → (t : Str) × ((group_relay a marshal nodes r g).target ≡ insert r.name t g.target)
unfolding rejected accepted
group_relay-target a marshal nodes r g = elim (group_relay-cases a marshal nodes r g) [
  | inl (_, eq) ↦ (reject_target, rw eq refl)
  | inr (_, eq) ↦ (r.name, rw eq refl)
]

-- A relay adds a group of its name, or none.
pub group_relay-groups :
    (a : Adapter) (marshal : Object → Option Str) (nodes : NodeSource) (r : RelaySpec) (g : Grouped)
    → let g' = group_relay a marshal nodes r g in
      (g'.groups ≡ g.groups) ⊎ (names_of g'.groups ≡ names_of g.groups ++ r.name ∷ [])
unfolding rejected accepted
group_relay-groups a marshal nodes r g = elim (group_relay-cases a marshal nodes r g) [
  | inl (_, eq) ↦ inl (rw eq refl)
  | inr (_, eq) ↦
      let m = members a marshal nodes r g.registry in
      inr (
        rw (eq, names_of-append g.groups (relay_group r m.names), (relay_group_fields r m.names).0)
          refl)
]
