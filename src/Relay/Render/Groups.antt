-- ===== src/Relay/Render/Groups.antt =====
-- The groups of a plan: one for each relay with usable upstreams, over registered proxies.
use proxy_proxy.Prelude.{
  List, [], ◌∷◌, ◌++◌, Option, none, some, true, ◌≡◌, ◌≢◌, refl, sym, ◌∙◌, inl, inr,
}
use proxy_proxy.Prelude.Tests.{Bool-cases, some_inj, ◌==◌, eq_of_beq, beq_of_eq, eq-or-ne}
use proxy_proxy.Prelude.Dict.{Dict, lookup, insert, lookup-insert, lookup-insert_self}
use proxy_proxy.Prelude.Member.{contains, IsDistinct, All}
use proxy_proxy.Prelude.Text.{Str, lit, str_eq}
use proxy_proxy.Node.Value.{texts, Object, get}
use proxy_proxy.Node.Sprint.{str}
use proxy_proxy.Relay.Types.{Adapter, RelaySpec}
use proxy_proxy.Relay.Registry.{Members, NodeSource, members}
use proxy_proxy.Relay.Registry.Laws.{names_of, IsRegistry, own-IsRegistry}
use proxy_proxy.Relay.Registry.Upstreams.{members-IsMembers}
use proxy_proxy.Relay.Render.{reject_target, Grouped, group_relay}
use proxy_proxy.Relay.Render.Cases.{relay_group_fields, rejected, accepted, group_relay-cases}

-- Where the callers of a relay go.
unfoldable pub target_in : Dict Str (List Str) → Str → Str
target_in ms relay = elim (lookup relay ms) [ none ↦ reject_target | some names ↦ relay ]

-- A group has a name, and lists the members of the relay with that name.
abbrev pub IsGroup : Dict Str (List Str) → Object → Type 0
IsGroup ms o =
    (names : List Str) × (lookup (str (get (lit "name") o)) ms ≡ some names)
    × (get (lit "proxies") o ≡ texts names)

-- Members are registered proxies, each once, and there is at least one.
abbrev pub AreMembers : List Object → List Str → Type 0
AreMembers proxies names =
    (names ≢ [])
    × IsDistinct names
    × ((name : Str) → contains names name ≡ true → contains (names_of proxies) name ≡ true)

pub record IsGrouped (base : List Str) (g : Grouped) : Type 0 where
  pub registry : IsRegistry base [] g.registry
  pub members :
      (relay : Str) (names : List Str)
      → lookup relay g.members ≡ some names
      → AreMembers g.registry.proxies names
  pub groups : All (IsGroup g.members) g.groups
  pub no_target : (relay : Str) → lookup relay g.target ≡ none → lookup relay g.members ≡ none
  pub target : (relay t : Str) → lookup relay g.target ≡ some t → t ≡ target_in g.members relay

no-lookup : {V : Type 0} {o : Option V} (v : V) → o ≡ none → o ≡ some v → ⊥
no-lookup v p q = let bad = sym p ∙ q in cc

-- Facts about the maps after a write for a relay that has no target yet.
module _ (r : Str) (g : Grouped) (base : List Str) (h : IsGrouped base g)
    (new : lookup r g.target ≡ none) where
  no_target-insert :
      (t relay : Str)
      → lookup relay (insert r t g.target) ≡ none
      → (r ≢ relay) × (lookup relay g.members ≡ none)
  no_target-insert t relay e = elim (Bool-cases (r == relay)) [
    | inl same ↦ absurd (no-lookup t e (rw (lookup-insert r relay t g.target, same) refl))
    | inr other ↦ (
      λ q. let yes' = beq_of_eq r relay q in cc,
      h.no_target relay (rw (lookup-insert r relay t g.target, other) at e),
    )
  ]

  members-insert :
      (names : List Str) (relay : Str)
      → r ≢ relay
      → lookup relay (insert r names g.members) ≡ lookup relay g.members
  members-insert names relay ne = elim (Bool-cases (r == relay)) [
    | inl same ↦ absurd (ne (eq_of_beq r relay same))
    | inr other ↦ rw (lookup-insert r relay names g.members, other) refl
  ]

  kept_target :
      (t relay t' : Str)
      → r ≢ relay
      → lookup relay (insert r t g.target) ≡ some t'
      → t' ≡ target_in g.members relay
  kept_target t relay t' ne e = elim (Bool-cases (r == relay)) [
    | inl same ↦ absurd (ne (eq_of_beq r relay same))
    | inr other ↦ h.target relay t' (rw (lookup-insert r relay t g.target, other) at e)
  ]

  IsGroup-insert :
      (names : List Str) (o : Object) → IsGroup g.members o → IsGroup (insert r names g.members) o
  IsGroup-insert names o (ns, found, listed) =
      let name = str (get (lit "name") o) in
      (
        ns,
        members-insert names name (λ q. no-lookup ns (h.no_target r new) (rw q found)) ∙ found,
        listed,
      )

target_in-eq :
    (ms ns : Dict Str (List Str)) (relay : Str)
    → lookup relay ms ≡ lookup relay ns
    → target_in ms relay ≡ target_in ns relay
unfolding target_in
target_in-eq ms ns relay e = rw (e, target_in) refl

target_in-none :
    (ms : Dict Str (List Str)) (relay : Str)
    → lookup relay ms ≡ none
    → target_in ms relay ≡ reject_target
unfolding target_in
target_in-none ms relay e = rw (e, target_in) refl

target_in-some :
    (ms : Dict Str (List Str)) (relay : Str) (names : List Str)
    → lookup relay ms ≡ some names
    → target_in ms relay ≡ relay
unfolding target_in
target_in-some ms relay names e = rw (e, target_in) refl

-- What is read back at the key that has just been written.
read_back :
    {V : Type 0} (r relay : Str) (v w : V) (m : Dict Str V)
    → r ≡ relay
    → lookup relay (insert r v m) ≡ some w
    → w ≡ v
read_back r relay v w m same e = some_inj (sym e ∙ (rw (← same) (lookup-insert_self r v m)))

grown :
    (p q : List Object) {names : List Str}
    → ((name : Str) → contains (names_of p) name ≡ true → contains (names_of q) name ≡ true)
    → AreMembers p names
    → AreMembers q names
grown p q grows (ne, d, sub) = (ne, d, λ name m. grows name (sub name m))

All-last :
    (P : Object → Type 0) (os : List Object) (o : Object) → All P os → P o → All P (os ++ o ∷ [])
All-last P [] o a p = (p, tt)
All-last P (x ∷ os) o (px, a) p = (px, All-last P os o a p)

All-imp :
    {P Q : Object → Type 0} (os : List Object) → ((o : Object) → P o → Q o) → All P os → All Q os
All-imp [] f a = tt
All-imp (o ∷ os) f (p, a) = (f o p, All-imp os f a)

rejected-IsGrouped :
    (base : List Str) (r : RelaySpec) (m : Members) (g : Grouped)
    → lookup r.name g.target ≡ none
    → IsRegistry base (names_of g.registry.proxies) m.registry
    → IsGrouped base g
    → IsGrouped base (rejected r m g)
unfolding rejected contains
rejected-IsGrouped base r m g new inv h = record {
  registry = record {
    used_all = inv.used_all;
    distinct = inv.distinct;
    known = inv.known;
    above = λ name bad. absurd (cc);
  };
  members = λ relay names found. grown _ _ inv.above (h.members relay names found);
  groups = h.groups;
  no_target = λ relay e. (no_target-insert r.name g base h new reject_target relay e).1;
  target = λ relay t e. elim (eq-or-ne r.name relay) [
    | inl same ↦
        read_back r.name relay reject_target t g.target same e
        ∙ sym (target_in-none g.members relay (rw (← same) (h.no_target r.name new)))
    | inr ne ↦ kept_target r.name g base h new reject_target relay t ne e
  ];
}

accepted-IsGrouped :
    (base : List Str) (r : RelaySpec) (m : Members) (g : Grouped)
    → lookup r.name g.target ≡ none
    → IsRegistry base (names_of g.registry.proxies) m.registry
    → AreMembers m.registry.proxies m.names
    → IsGrouped base g
    → IsGrouped base (accepted r m g)
unfolding accepted contains
accepted-IsGrouped base r m g new inv are h =
    let (named, listed) = relay_group_fields r m.names in
    record {
      registry = record {
        used_all = inv.used_all;
        distinct = inv.distinct;
        known = inv.known;
        above = λ name bad. absurd (cc);
      };
      members = λ relay names found. elim (eq-or-ne r.name relay) [
        | inl same ↦ rw (read_back r.name relay m.names names g.members same found) are
        | inr ne ↦ grown _ _ inv.above (
            h.members relay names
              (sym (members-insert r.name g base h new m.names relay ne) ∙ found))
      ];
      groups =
          All-last _ g.groups _
            (All-imp g.groups (IsGroup-insert r.name g base h new m.names) h.groups)
            (m.names, rw named (lookup-insert_self r.name m.names g.members), listed);
      no_target = λ relay e.
          let (ne, none_before) = no_target-insert r.name g base h new r.name relay e in
          members-insert r.name g base h new m.names relay ne ∙ none_before;
      target = λ relay t e. elim (eq-or-ne r.name relay) [
        | inl same ↦
            read_back r.name relay r.name t g.target same e
            ∙ same
            ∙ sym (
                target_in-some (insert r.name m.names g.members) relay m.names
                  (rw (← same) (lookup-insert_self r.name m.names g.members)))
        | inr ne ↦
            kept_target r.name g base h new r.name relay t ne e
            ∙ sym (target_in-eq _ _ relay (members-insert r.name g base h new m.names relay ne))
      ];
    }

pub group_relay-IsGrouped :
    (a : Adapter) (marshal : Object → Option Str) (nodes : NodeSource) (base : List Str)
    (r : RelaySpec) (g : Grouped)
    → lookup r.name g.target ≡ none
    → IsGrouped base g
    → IsGrouped base (group_relay a marshal nodes r g)
group_relay-IsGrouped a marshal nodes base r g new h =
    let m = members a marshal nodes r g.registry in
    let own = own-IsRegistry base [] g.registry h.registry in
    let (inv, d, reg) =
      members-IsMembers a marshal nodes base (names_of g.registry.proxies) r g.registry own in
    elim (group_relay-cases a marshal nodes r g) [
      | inl (none_usable, eq) ↦ rw eq (rejected-IsGrouped base r m g new inv h)
      | inr (some_usable, eq) ↦
          rw eq (accepted-IsGrouped base r m g new inv (some_usable, d, reg) h)
    ]
