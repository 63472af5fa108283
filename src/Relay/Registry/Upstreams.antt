-- ===== src/Relay/Registry/Upstreams.antt =====
-- The members of a relay are registered proxies, each named once.
use proxy_proxy.Prelude.{
  List, [], ◌∷◌, Option, none, Bool, true, false, not, ◌||◌, ◌≡◌, inl, inr, arith,
}
use proxy_proxy.Prelude.Tests.{ltb, Bool-cases, Option-cases, Result-cases, ◌==◌, eq_of_beq}
use proxy_proxy.Prelude.Member.{
  contains, contains-append, IsDistinct, append_unique, append_unique-IsDistinct,
}
use proxy_proxy.Prelude.Text.{Str, str_eq, str_beq_iff}
use proxy_proxy.Node.Value.{Object}
use proxy_proxy.Node.Types.{Node}
use proxy_proxy.Relay.Types.{Adapter, UpstreamSpec, RelaySpec}
use proxy_proxy.Relay.Registry.{
  Registry, NodeSource, add, Members, add_member, Skipped, add_nodes, warn, add_upstream,
  add_upstreams, members, Warning,
}
use proxy_proxy.Relay.Registry.Laws.{
  names_of, IsRegistry, add-IsAdded, lift-IsRegistry, own-IsRegistry,
}

-- The names so far are registered, and no name stands twice.
abbrev pub IsMembers : List Str → List Str → Members → Type 0
IsMembers base floor s =
    IsRegistry base floor s.registry
    × IsDistinct s.names
    × ((name : Str)
        → contains s.names name ≡ true
        → contains (names_of s.registry.proxies) name ≡ true)

contains-append_unique :
    (xs : List Str) (a b : Str) → contains (append_unique xs a) b ≡ (contains xs b || b == a)
unfolding append_unique contains
contains-append_unique xs a b = elim (Bool-cases (contains xs a)) [
  | inl old ↦ rw old (ground (arith, str_beq_iff b a))
  | inr new ↦ rw (new, contains-append xs (a ∷ []) b) (ground arith)
]

add_member-IsMembers :
    (a : Adapter) (base floor : List Str) (n : Node) (inline : Bool) (s : Members)
    → IsMembers base floor s
    → IsMembers base floor (add_member a n inline s).1
unfolding add_member
add_member-IsMembers a base floor n inline s (inv, d, reg) =
    let own = own-IsRegistry base floor s.registry inv in
    let g = s.registry in
    let (r, g') = add a n inline g in
    let (inv', added) = add-IsAdded a base (names_of g.proxies) n inline g own in
    let kept =
      lift-IsRegistry base floor (names_of g.proxies) g g' inv (λ name old. old) inv'.above inv' in
    elim (Result-cases (add a n inline g).0) [
      | inr (e, bad) ↦ rw (bad, add_member) (kept, d, λ name m. inv'.above name (reg name m))
      | inl (name, good) ↦
          rw (good, add_member)
            (
              kept,
              append_unique-IsDistinct s.names name d,
              λ other m. elim (Bool-cases (other == name)) [
                | inl same ↦ rw (eq_of_beq other name same) (added name good)
                | inr differs ↦ inv'.above other (
                    reg other (
                      before (contains s.names other) (other == name)
                        (rw (contains-append_unique s.names name other) at m) differs))
              ],
            )
    ]
  where
    before : (b c : Bool) → (b || c) ≡ true → c ≡ false → b ≡ true
    before b c p q = ground arith

add_nodes-IsMembers :
    (a : Adapter) (base floor : List Str) (ns : List Node) (k : Skipped) (s : Members)
    → IsMembers base floor s
    → IsMembers base floor (add_nodes a ns k s).1
unfolding add_nodes
add_nodes-IsMembers a base floor [] k s h = h
add_nodes-IsMembers a base floor (n ∷ ns) k s h =
    add_nodes-IsMembers a base floor ns _ (add_member a n false s).1
      (add_member-IsMembers a base floor n false s h)

warn-IsMembers :
    (base floor : List Str) (w : Warning) (s : Members)
    → IsMembers base floor s
    → IsMembers base floor (warn w s)
unfolding warn
warn-IsMembers base floor w s (inv, d, reg) = (
  record { used_all = inv.used_all; distinct = inv.distinct; known = inv.known; above = inv.above },
  d,
  reg,
)

add_upstream-IsMembers :
    (a : Adapter) (marshal : Object → Option Str) (nodes : NodeSource) (base floor : List Str)
    (relay : Str) (up : UpstreamSpec) (s : Members)
    → IsMembers base floor s
    → IsMembers base floor (add_upstream a marshal nodes relay up s)
unfolding add_upstream
add_upstream-IsMembers a marshal nodes base floor relay up s h = elim (Option-cases up.proxy) [
  | inr (m, inline) ↦ rw (inline, add_upstream) (add_member-IsMembers a base floor _ true s h)
  | inl from_sub ↦
      let none_yet : Skipped = record { count = 0; first = none } in
      let s' : Members = record s { pending = s.pending || not (nodes up.sub).1 } in
      let r = add_nodes a (nodes up.sub).0 none_yet s' in
      let kept = add_nodes-IsMembers a base floor (nodes up.sub).0 none_yet s' h in
      elim (Bool-cases (ltb 0 r.0.count)) [
        | inl some_skipped ↦
            rw (from_sub, some_skipped, add_upstream) (warn-IsMembers base floor _ r.1 kept)
        | inr all_added ↦ rw (from_sub, all_added, add_upstream) kept
      ]
]

add_upstreams-IsMembers :
    (a : Adapter) (marshal : Object → Option Str) (nodes : NodeSource) (base floor : List Str)
    (relay : Str) (ups : List UpstreamSpec) (s : Members)
    → IsMembers base floor s
    → IsMembers base floor (add_upstreams a marshal nodes relay ups s)
unfolding add_upstreams
add_upstreams-IsMembers a marshal nodes base floor relay [] s h = h
add_upstreams-IsMembers a marshal nodes base floor relay (up ∷ ups) s h =
    add_upstreams-IsMembers a marshal nodes base floor relay ups
      (add_upstream a marshal nodes relay up s)
      (add_upstream-IsMembers a marshal nodes base floor relay up s h)

-- The members of a relay are registered, each once, and what was registered before still is.
pub members-IsMembers :
    (a : Adapter) (marshal : Object → Option Str) (nodes : NodeSource) (base floor : List Str)
    (r : RelaySpec) (g : Registry)
    → IsRegistry base floor g
    → IsMembers base floor (members a marshal nodes r g)
unfolding members contains
members-IsMembers a marshal nodes base floor r g inv =
    add_upstreams-IsMembers a marshal nodes base floor r.name r.upstreams _
      (inv, tt, λ name m. absurd (cc))
