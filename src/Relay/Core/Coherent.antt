-- ===== src/Relay/Core/Coherent.antt =====
-- Groups across calls of `apply`: a live group holds the live objects of its members.
use proxy_proxy.Prelude.{
  List, [], ◌∷◌, map, Option, none, some, Bool, true, false, not, ◌||◌, ◌≡◌, refl, sym, ap, ◌∙◌,
  inl, inr, arith, Memᴰ,
}
use proxy_proxy.Prelude.Tests.{if◌then◌else◌, Option-cases, ok, some_inj, ◌==◌, eq_of_beq, beq_refl}
use proxy_proxy.Prelude.Dict.{Dict, lookup}
use proxy_proxy.Prelude.Member.{contains}
use proxy_proxy.Prelude.Text.{Str, lit, str_eq}
use proxy_proxy.Node.Value.{Object, texts, get}
use proxy_proxy.Relay.Registry.Laws.{names_of}
use proxy_proxy.Relay.Render.{Desired}
use proxy_proxy.Relay.Render.Groups.{IsGroup}
use proxy_proxy.Relay.Core.{same_proxies, kept_group}
use proxy_proxy.Relay.Draining.{same_object, members_of}
use proxy_proxy.Relay.Mihomo.{Mihomo, LiveProxy, LiveGroup, Core, Groups, name_of, key_of}

module _ (M : Mihomo) where
  -- What mihomo documents of a group: it holds the objects that the map has for its proxies.
  abbrev pub HoldsMembers : (M.Proxy → List M.Proxy) → Type 0
  HoldsMembers held =
      (m : Object) (all : Dict Str M.Proxy) (ps qs : Dict Str M.Provider) (heap : M.Heap)
      (g : M.Group) (names : List Str)
      → (M.parse_group m all ps heap).0 ≡ ok (g, qs)
      → get (lit "proxies") m ≡ texts names
      → map (λ n. lookup n all) names
        ≡ map some (held (M.new_proxy g (M.parse_group m all ps heap).1).0)

  unfoldable pub object_at : Dict Str (LiveProxy M) → Str → Option M.Proxy
  object_at proxies n = elim (lookup n proxies) [ none ↦ none | some lp ↦ some lp.proxy ]

  module _ (held : M.Proxy → List M.Proxy) where
    -- A group made for the config `m` holds the live objects of its members.
    abbrev pub Holds : Dict Str (LiveProxy M) → Object → M.Proxy → Type 0
    Holds proxies m g =
        (names : List Str) × (get (lit "proxies") m ≡ texts names)
        × (map (object_at proxies) names ≡ map some (held g))

    -- Each live group was made from a config of the state, and holds the live objects of its members.
    abbrev pub IsCoherent : Dict Str (LiveProxy M) → Dict Str (LiveGroup M) → List Object → Type 0
    IsCoherent proxies groups ms =
        (name : Str) (lg : LiveGroup M)
        → lookup name groups ≡ some lg
        → (m : Object) × Memᴰ m ms
          × (name_of m ≡ name)
          × (lg.key ≡ key_of m)
          × Holds proxies m lg.proxy

  same_object-some :
      (old : LiveProxy M) (o : Option (LiveProxy M))
      → same_object M (some old) o ≡ true
      → (lp : LiveProxy M) × (o ≡ some lp) × (old.proxy ≡ lp.proxy)
  unfolding same_object
  same_object-some old none h = absurd (cc)
  same_object-some old (some lp) h = (lp, refl, (M.proxy_eq.beq_iff old.proxy lp.proxy).0 h)

  object_at-some :
      (n : Str) (proxies : Dict Str (LiveProxy M)) {lp : LiveProxy M}
      → lookup n proxies ≡ some lp
      → object_at proxies n ≡ some lp.proxy
  unfolding object_at
  object_at-some n proxies q = rw (q, object_at) refl

  -- Proxies that are the same objects.
  same_proxies-objects :
      (c : Core M) (names : List Str) (next : Dict Str (LiveProxy M))
      → same_proxies M c names next ≡ true
      → map (object_at c.proxies) names ≡ map (object_at next) names
  unfolding same_proxies
  same_proxies-objects c [] next h = refl
  same_proxies-objects c (n ∷ ns) next h = elim (Option-cases (lookup n c.proxies)) [
    | inl missing ↦ let bad = rw (missing, same_proxies) at h in absurd (cc)
    | inr (old, found) ↦
        let h' = rw (found, same_proxies) at h in
        let (same, rest) =
          both (same_object M (some old) (lookup n next)) (same_proxies M c ns next) h' in
        let (lp, q, e) = same_object-some old (lookup n next) same in
        let ih = same_proxies-objects c ns next rest in
        let head = object_at-some n c.proxies found ∙ (ap some e ∙ sym (object_at-some n next q)) in
        rw (head, ih) refl
  ]
    where
      both : (a b : Bool) → (if not a then false else b) ≡ true → (a ≡ true) × (b ≡ true)
      both a b q = ground arith

  kept_group-some :
      (c : Core M) (d : Desired) (proxies : Dict Str (LiveProxy M)) (m : Object)
      (o : Option (LiveGroup M)) (lg : LiveGroup M)
      → kept_group M c d proxies m o ≡ some lg
      → (o ≡ some lg)
        × (lg.key ≡ key_of m)
        × (same_proxies M c (members_of M d (name_of m)) proxies ≡ true)
  unfolding kept_group
  kept_group-some c d proxies m none lg h = absurd (cc)
  kept_group-some c d proxies m (some x) lg h =
      let (e, same, kept) =
        tests (x.key == key_of m) (same_proxies M c (members_of M d (name_of m)) proxies) h in
      (ap some e, ap (λ (y : LiveGroup M). y.key) (sym e) ∙ eq_of_beq x.key (key_of m) same, kept)
    where
      tests :
          (a b : Bool)
          → (if not a || not b then none else some x) ≡ some lg
          → (x ≡ lg) × (a ≡ true) × (b ≡ true)
      tests true true q = (some_inj q, refl, refl)
      tests true false q = absurd (cc)
      tests false b q = absurd (cc)

  members_of-some :
      (d : Desired) (name : Str) (names : List Str)
      → lookup name d.members ≡ some names
      → members_of M d name ≡ names
  unfolding members_of
  members_of-some d name names q = rw (q, members_of) refl

  -- The proxies stand in `all` under their names.
  abbrev pub AllHas : List Str → Dict Str (LiveProxy M) → Dict Str M.Proxy → Type 0
  AllHas names proxies all =
      (n : Str) → contains names n ≡ true → lookup n all ≡ object_at proxies n

  -- Two states tell the groups by their keys: configs with one key list the same proxies.
  abbrev pub KeysTell : List Object → List Object → Type 0
  KeysTell ms ns =
      (m n : Object)
      → Memᴰ m ms
      → Memᴰ n ns
      → key_of m ≡ key_of n
      → get (lit "proxies") m ≡ get (lit "proxies") n

  module _ (held : M.Proxy → List M.Proxy) (parses : HoldsMembers held) (c : Core M) (d : Desired)
      (before : List Object) (tell : KeysTell before d.groups)
      (old : IsCoherent held c.proxies c.groups before) (proxies : Dict Str (LiveProxy M)) where
    -- The members of a group that is kept are the same objects as before.
    pub kept-Holds :
        (m : Object) (lg : LiveGroup M)
        → Memᴰ m d.groups
        → IsGroup d.members m
        → kept_group M c d proxies m (lookup (name_of m) c.groups) ≡ some lg
        → (lg.key ≡ key_of m) × Holds held proxies m lg.proxy
    kept-Holds m lg mem (names, found, listed) kept =
        let (live, key, same) =
          kept_group-some c d proxies m (lookup (name_of m) c.groups) lg kept in
        let (m0, mem0, _, key0, (names0, listed0, holds0)) = old (name_of m) lg live in
        let eq = sym listed0 ∙ (tell m0 m mem0 mem (sym key0 ∙ key) ∙ listed) in
        let same_names : names0 ≡ names = cc in
        let same' : same_proxies M c names proxies ≡ true =
          rw (← members_of-some d (name_of m) names found) same in
        (
          key,
          (
            names,
            listed,
            sym (same_proxies-objects c names proxies same') ∙ (rw (← same_names) holds0),
          ),
        )

    pub new-Holds :
        (m : Object) (s : Groups M) {g : M.Group} {qs : Dict Str M.Provider}
        → (M.parse_group m s.all s.providers s.heap).0 ≡ ok (g, qs)
        → IsGroup d.members m
        → ((relay : Str) (names : List Str)
            → lookup relay d.members ≡ some names
            → (name : Str) → contains names name ≡ true
            → contains (names_of d.proxies) name ≡ true)
        → AllHas (names_of d.proxies) proxies s.all
        → Holds held proxies m (M.new_proxy g (M.parse_group m s.all s.providers s.heap).1).0
    unfolding contains
    new-Holds m s {g} {qs} good (names, found, listed) reg has = (
      names,
      listed,
      sym (map-eq names (reg (name_of m) names found))
          ∙ parses m s.all s.providers qs s.heap g names good listed,
    )
      where
        map-eq :
            (ns : List Str)
            → ((n : Str) → contains ns n ≡ true → contains (names_of d.proxies) n ≡ true)
            → map (λ n. lookup n s.all) ns ≡ map (object_at proxies) ns
        map-eq [] sub = refl
        map-eq (n ∷ ns) sub =
            let head = has n (sub n (rw (beq_refl n) refl)) in
            let rest = map-eq ns (λ k mk. sub k (rw mk (ground arith))) in rw (head, rest) refl
