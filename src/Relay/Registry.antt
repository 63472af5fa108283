-- ===== src/Relay/Registry.antt =====
-- internal/relay/render.go: `proxyRegistry`, which loads each distinct proxy of a plan once.
pub mod Laws
pub mod Upstreams
use proxy_proxy.Prelude.{
  ℕ, suc, ◌+◌, List, [], ◌∷◌, ◌++◌, map, Option, none, some, Bool, true, false, not, ◌||◌,
}
use proxy_proxy.Prelude.Tests.{if◌then◌else◌, ltb, Result, ok, err}
use proxy_proxy.Prelude.Dict.{Dict, lookup, insert}
use proxy_proxy.Prelude.Member.{append_unique}
use proxy_proxy.Prelude.Text.{Str, lit, is_empty, str_eq}
use proxy_proxy.Node.Value.{object, Object, empty, get}
use proxy_proxy.Node.Sprint.{sprint}
use proxy_proxy.Node.Types.{Node, clash_map}
use proxy_proxy.Node.Key.{without, from_clash_map}
use proxy_proxy.Node.Names.{unique_name}
use proxy_proxy.Relay.Types.{Adapter, UpstreamSpec, RelaySpec}
use proxy_proxy.Relay.Plan.Check.{check_proxy}

pub data LoadError : Type 0 where
  no_clash : LoadError
  bad_config : Str → LoadError

pub data Warning : Type 0 where
  no_usable_upstream : Str → Warning
  skipped_nodes : Str → Str → ℕ → Option LoadError → Warning

-- A proxy that has been registered has its mihomo name, or the error of the attempt to load it.
abbrev pub Registered : Type 0
Registered = Result LoadError Str

pub record Registry : Type 0 where
  pub used : List Str
  pub by_content : Dict Str Registered
  pub proxies : List Object
  pub warns : List Warning

-- The nodes of a sub, and whether a fetch of it has finished.
abbrev pub NodeSource : Type 0
NodeSource = Str → List Node × Bool

unfoldable pub content_key : Object → Str
content_key m = sprint (object (without (lit "name") m))

-- The name of a node; `%v` prints a missing field as `<nil>`.
unfoldable pub display_name : Node → Object → Str
display_name n m =
    if not (is_empty n.name)
    then n.name
    else sprint (get (lit "type") m)
      ++ (b' ' ∷ (sprint (get (lit "server") m) ++ (b':' ∷ sprint (get (lit "port") m))))

-- The loop always ends, so the last case does not arise.
unfoldable pub proxy_name : List Str → Str → Str
proxy_name used base = elim (unique_name used base) [ some name ↦ name | none ↦ base ]

unfoldable pub registry_key : Bool → Object → Str
registry_key inline m = if inline then lit "inline " ++ sprint (object m) else content_key m

-- What `add` does with a proxy that is not registered yet.
unfoldable pub load : Adapter → Str → Node → Object → Registry → Registered × Registry
unfolding proxy_name
load a key n m g = elim (check_proxy a (some m)) [
  | some e ↦
      (err (bad_config e), record g { by_content = insert key (err (bad_config e)) g.by_content })
  | none ↦
      let name = proxy_name g.used (display_name n m) in
      (
        ok name,
        record {
          used = g.used ++ name ∷ [];
          by_content = insert key (ok name) g.by_content;
          proxies = g.proxies ++ (elim (clash_map n name) [ none ↦ empty | some o ↦ o ]) ∷ [];
          warns = g.warns;
        },
      )
]

unfoldable pub add : Adapter → Node → Bool → Registry → Registered × Registry
unfolding load
add a n inline g = elim n.clash [
  | none ↦ (err no_clash, g)
  | some m ↦
      let key = registry_key inline m in
      elim (lookup key g.by_content) [ some r ↦ (r, g) | none ↦ load a key n m g ]
]

-- The variables of `members`: the names so far, whether a fetch is pending, and the registry.
pub record Members : Type 0 where
  pub names : List Str
  pub pending : Bool
  pub registry : Registry

-- The local `add` of `members`, with its error.
unfoldable pub add_member : Adapter → Node → Bool → Members → Option LoadError × Members
unfolding add
add_member a n inline s =
    let (r, g) = add a n inline s.registry in
    elim r [
      | err e ↦ (some e, record s { registry = g })
      | ok name ↦ (none, record s { names = append_unique s.names name; registry = g })
    ]

-- The loop over the nodes of a sub, with the number of skipped nodes and the first error.
pub record Skipped : Type 0 where
  pub count : ℕ
  pub first : Option LoadError

unfoldable pub add_nodes : Adapter → List Node → Skipped → Members → Skipped × Members
unfolding add_member
add_nodes a [] k s = (k, s)
add_nodes a (n ∷ nodes) k s =
    let (e, s') = add_member a n false s in
    let k' : Skipped = elim e [
      | none ↦ k
      | some x ↦ record {
        count = suc k.count;
        first = elim k.first [ none ↦ some x | some y ↦ some y ];
      }
    ] in
    add_nodes a nodes k' s'

unfoldable pub warn : Warning → Members → Members
warn w s = record s { registry = record (s.registry) { warns = s.registry.warns ++ w ∷ [] } }

-- One round of the loop over the upstreams. `marshal` stands for `json.Marshal`.
unfoldable pub add_upstream :
    Adapter → (Object → Option Str) → NodeSource → Str → UpstreamSpec → Members → Members
unfolding add_member add_nodes warn
add_upstream a marshal nodes relay up s = elim up.proxy [
  | some m ↦ (add_member a (from_clash_map marshal [] m) true s).1
  | none ↦
      let (sub_nodes, fetched) = nodes up.sub in
      let (k, s') =
        add_nodes a sub_nodes (record { count = 0; first = none })
          (record s { pending = s.pending || not fetched }) in
      if ltb 0 k.count then warn (skipped_nodes relay up.sub k.count k.first) s' else s'
]

unfoldable pub add_upstreams :
    Adapter → (Object → Option Str) → NodeSource → Str → List UpstreamSpec → Members → Members
unfolding add_upstream
add_upstreams a marshal nodes relay [] s = s
add_upstreams a marshal nodes relay (up ∷ ups) s =
    add_upstreams a marshal nodes relay ups (add_upstream a marshal nodes relay up s)

-- The proxy names of a relay's upstreams.
unfoldable pub members :
    Adapter → (Object → Option Str) → NodeSource → RelaySpec → Registry → Members
unfolding add_upstreams
members a marshal nodes r g =
    add_upstreams a marshal nodes r.name r.upstreams
      (record { names = []; pending = false; registry = g })
