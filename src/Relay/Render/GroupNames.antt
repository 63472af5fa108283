-- ===== src/Relay/Render/GroupNames.antt =====
-- The names of the groups: each is that of a relay, and no two groups share one.
use proxy_proxy.Prelude.{List, [], ◌∷◌, ◌++◌, Option, true, ◌≡◌, sym, ap, ◌∙◌, inl, inr, arith}
use proxy_proxy.Prelude.Member.{contains, contains-append, IsDistinct}
use proxy_proxy.Prelude.Text.{Str, str_eq}
use proxy_proxy.Node.Value.{Object}
use proxy_proxy.Relay.Types.{Adapter, RelaySpec}
use proxy_proxy.Relay.Plan.RelayNames.{relay_names}
use proxy_proxy.Relay.Registry.{NodeSource}
use proxy_proxy.Relay.Registry.Laws.{names_of}
use proxy_proxy.Relay.Render.{Grouped, group_relay, group_relays}
use proxy_proxy.Relay.Render.Cases.{group_relay-groups}
use mathlib.Core.List.{append_assoc, append-nil}

-- A name in the middle is left out.
IsDistinct-drop :
    (xs : List Str) (y : Str) (ys : List Str) → IsDistinct (xs ++ y ∷ ys) → IsDistinct (xs ++ ys)
unfolding contains
IsDistinct-drop [] y ys (_, d) = d
IsDistinct-drop (x ∷ xs) y ys (fresh, d) = (
  rw (contains-append xs ys x)
      (let old = sym (contains-append xs (y ∷ ys) x) ∙ fresh in ground (arith, old)),
  IsDistinct-drop xs y ys d,
)

module _ (a : Adapter) (marshal : Object → Option Str) (nodes : NodeSource) where
  -- The names of the groups so far, and of the relays still to come.
  coming : Grouped → List RelaySpec → List Str
  coming g rs = names_of g.groups ++ relay_names rs

  coming-step :
      (r : RelaySpec) (rs : List RelaySpec) (g : Grouped)
      → IsDistinct (coming g (r ∷ rs))
      → IsDistinct (coming (group_relay a marshal nodes r g) rs)
        × ((name : Str)
            → contains (coming (group_relay a marshal nodes r g) rs) name ≡ true
            → contains (coming g (r ∷ rs)) name ≡ true)
  unfolding coming contains
  coming-step r rs g d = elim (group_relay-groups a marshal nodes r g) [
    | inl same ↦ rw same (
      IsDistinct-drop (names_of g.groups) r.name (relay_names rs) d,
      λ name m. rw (contains-append (names_of g.groups) (r.name ∷ relay_names rs) name) (
          let old = sym (contains-append (names_of g.groups) (relay_names rs) name) ∙ m in
          ground (arith, old)),
    )
    | inr more ↦
        let eq =
          ap (λ ns. ns ++ relay_names rs) more
          ∙ append_assoc (names_of g.groups) (r.name ∷ []) (relay_names rs) in
        rw eq (d, λ name m. m)
  ]

  pub group_relays-names :
      (rs : List RelaySpec) (g : Grouped)
      → IsDistinct (names_of g.groups ++ relay_names rs)
      → IsDistinct (names_of (group_relays a marshal nodes rs g).groups)
        × ((name : Str)
            → contains (names_of (group_relays a marshal nodes rs g).groups) name ≡ true
            → contains (names_of g.groups ++ relay_names rs) name ≡ true)
  unfolding group_relays coming
  group_relays-names [] g d =
      rw (append-nil (names_of g.groups)) (rw (append-nil (names_of g.groups)) at d, λ name m. m)
  group_relays-names (r ∷ rs) g d =
      let (d', sub) = coming-step r rs g d in
      let (d'', sub') = group_relays-names rs (group_relay a marshal nodes r g) d' in
      (d'', λ name m. sub name (sub' name m))
