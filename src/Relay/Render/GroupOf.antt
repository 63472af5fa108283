-- ===== src/Relay/Render/GroupOf.antt =====
-- Each relay with members has a group of its name.
use proxy_proxy.Prelude.{List, [], ◌∷◌, Option, some, ◌≡◌, refl, sym, ◌∙◌, inl, inr, Memᴰ}
use proxy_proxy.Prelude.Tests.{Bool-cases, some_inj, ◌==◌, eq_of_beq}
use proxy_proxy.Prelude.Dict.{lookup, lookup-insert}
use proxy_proxy.Prelude.Text.{Str, lit, str_eq}
use proxy_proxy.Node.Value.{texts, Object, get}
use proxy_proxy.Node.Sprint.{str}
use proxy_proxy.Relay.Types.{Adapter, RelaySpec, Plan}
use proxy_proxy.Relay.Registry.{NodeSource, members}
use proxy_proxy.Relay.Render.{Grouped, group_relay, group_relays, grouped, relay_group}
use proxy_proxy.Relay.Render.Cases.{relay_group_fields, rejected, accepted, group_relay-cases}
use mathlib.Core.List.Memᴰ
use mathlib.Core.Path.{subst}

-- A group of the relay's name that lists its members.
abbrev pub HasGroup : List Object → Str → List Str → Type 0
HasGroup groups relay names =
    (o : Object) × Memᴰ o groups
    × (str (get (lit "name") o) ≡ relay)
    × (get (lit "proxies") o ≡ texts names)

abbrev HaveGroups : Grouped → Type 0
HaveGroups g =
    (relay : Str) (names : List Str)
    → lookup relay g.members ≡ some names
    → HasGroup g.groups relay names

group_relay-HaveGroups :
    (a : Adapter) (marshal : Object → Option Str) (nodes : NodeSource) (r : RelaySpec) (g : Grouped)
    → HaveGroups g
    → HaveGroups (group_relay a marshal nodes r g)
unfolding rejected accepted
group_relay-HaveGroups a marshal nodes r g h =
    let m = members a marshal nodes r g.registry in
    elim (group_relay-cases a marshal nodes r g) [
      | inl (_, eq) ↦ subst HaveGroups (sym eq) h
      | inr (_, eq) ↦ subst HaveGroups (sym eq) (λ relay names q.
          elim (Bool-cases (r.name == relay)) [
            | inl same ↦
                let is : some m.names ≡ some names =
                  rw (lookup-insert r.name relay m.names g.members, same) at q in
                let (named, listed) = relay_group_fields r m.names in
                (
                  relay_group r m.names,
                  Memᴰ.append_right g.groups (Memᴰ.head refl),
                  named ∙ eq_of_beq r.name relay same,
                  rw (← (some_inj is)) listed,
                )
            | inr other ↦
                let before = rw (lookup-insert r.name relay m.names g.members, other) at q in
                let (o, mo, named, listed) = h relay names before in
                (o, Memᴰ.append_left _ mo, named, listed)
          ])
    ]

group_relays-HaveGroups :
    (a : Adapter) (marshal : Object → Option Str) (nodes : NodeSource) (rs : List RelaySpec)
    (g : Grouped)
    → HaveGroups g
    → HaveGroups (group_relays a marshal nodes rs g)
unfolding group_relays
group_relays-HaveGroups a marshal nodes [] g h = h
group_relays-HaveGroups a marshal nodes (r ∷ rs) g h =
    group_relays-HaveGroups a marshal nodes rs (group_relay a marshal nodes r g)
      (group_relay-HaveGroups a marshal nodes r g h)

pub grouped-HaveGroups :
    (a : Adapter) (marshal : Object → Option Str) (nodes : NodeSource) (p : Plan)
    → let g = grouped a marshal nodes p in
      (relay : Str) (names : List Str)
      → lookup relay g.members ≡ some names
      → HasGroup g.groups relay names
unfolding grouped lookup
grouped-HaveGroups a marshal nodes p =
    group_relays-HaveGroups a marshal nodes p.relays _ (λ relay names q. absurd (cc))
