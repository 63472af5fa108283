-- ===== src/Relay/Registry/Laws.antt =====
-- The names of the registered proxies are distinct from one another and from those taken before, and
-- a relay's members are registered proxies.
use proxy_proxy.Prelude.{
  List, [], ◌∷◌, ◌++◌, map, none, some, Bool, true, false, ◌≡◌, refl, ap, ◌∙◌, inl, inr, arith,
}
use proxy_proxy.Prelude.Tests.{ok, err, ok_inj, Bool-cases, Option-cases, some_inj, ◌==◌, beq_refl}
use proxy_proxy.Prelude.Dict.{lookup, insert, lookup-insert}
use proxy_proxy.Prelude.Member.{contains, contains-append, IsDistinct, IsDistinct-concat}
use proxy_proxy.Prelude.Text.{Str, lit, str_eq, str_beq_iff}
use proxy_proxy.Node.Value.{text, Object, empty, get}
use proxy_proxy.Node.Value.Laws.{get-set}
use proxy_proxy.Node.Sprint.{str}
use proxy_proxy.Node.Types.{Node, clash_map}
use proxy_proxy.Node.Names.Laws.{unique_name_total}
use proxy_proxy.Relay.Types.{Adapter}
use proxy_proxy.Relay.Plan.Check.{check_proxy}
use proxy_proxy.Relay.Registry.{
  LoadError, Registered, Registry, proxy_name, registry_key, display_name, load, add,
}
use mathlib.Core.List.{append_assoc}

abbrev pub names_of : List Object → List Str
names_of ms = map (λ m. str (get (lit "name") m)) ms

-- `base` holds the names taken before the first proxy, `floor` names that are already in use.
pub record IsRegistry (base floor : List Str) (g : Registry) : Type 0 where
  pub used_all : g.used ≡ base ++ names_of g.proxies
  pub distinct : IsDistinct g.used
  pub known :
      (key name : Str)
      → lookup key g.by_content ≡ some (ok name)
      → contains (names_of g.proxies) name ≡ true
  pub above : (name : Str) → contains floor name ≡ true → contains (names_of g.proxies) name ≡ true

-- An invariant above the names so far is one above any floor.
pub lift-IsRegistry :
    (base floor names : List Str) (g h : Registry)
    → IsRegistry base floor g
    → ((name : Str) → contains names name ≡ true → contains (names_of g.proxies) name ≡ true)
    → ((name : Str)
        → contains (names_of g.proxies) name ≡ true
        → contains (names_of h.proxies) name ≡ true)
    → IsRegistry base names h
    → IsRegistry base floor h
lift-IsRegistry base floor names g h inv sub grows inv' = record {
  used_all = inv'.used_all;
  distinct = inv'.distinct;
  known = inv'.known;
  above = λ name old. grows name (inv.above name old);
}

-- Any name that is registered may serve as the floor.
pub own-IsRegistry :
    (base floor : List Str) (g : Registry)
    → IsRegistry base floor g
    → IsRegistry base (names_of g.proxies) g
own-IsRegistry base floor g inv = record {
  used_all = inv.used_all;
  distinct = inv.distinct;
  known = inv.known;
  above = λ name old. old;
}

pub proxy_name-fresh : (used : List Str) (base : Str) → contains used (proxy_name used base) ≡ false
unfolding proxy_name
proxy_name-fresh used base =
    let (s, found, fresh) = unique_name_total used base in rw (found, proxy_name) fresh

pub names_of-append :
    (ms : List Object) (m : Object)
    → names_of (ms ++ m ∷ []) ≡ names_of ms ++ str (get (lit "name") m) ∷ []
names_of-append [] m = refl
names_of-append (x ∷ ms) m = ap (λ ns. str (get (lit "name") x) ∷ ns) (names_of-append ms m)

name-clash_map :
    (n : Node) (m : Object) (name : Str)
    → n.clash ≡ some m
    → str
        (get (lit "name") (elim (clash_map n name) as (λ o. Object) [ none ↦ empty | some o ↦ o ]))
      ≡ name
unfolding clash_map str
name-clash_map n m name h =
    rw (h, clash_map)
      (rw (get-set (lit "name") (lit "name") (text name) m, beq_refl (lit "name")) refl)

contains-last :
    (xs : List Str) (a b : Str) → contains xs b ≡ true → contains (xs ++ a ∷ []) b ≡ true
contains-last xs a b h = rw (contains-append xs (a ∷ []) b, h) refl

contains_self : (xs : List Str) (a : Str) → contains (xs ++ a ∷ []) a ≡ true
unfolding contains
contains_self xs a = rw (contains-append xs (a ∷ []) a) (ground (arith, str_beq_iff a a))

-- A proxy with a new name is added.
added-IsRegistry :
    (base floor : List Str) (g : Registry) (key name : Str) (m : Object)
    → str (get (lit "name") m) ≡ name
    → contains g.used name ≡ false
    → IsRegistry base floor g
    → IsRegistry base floor (record {
      used = g.used ++ name ∷ [];
      by_content = insert key (ok name) g.by_content;
      proxies = g.proxies ++ m ∷ [];
      warns = g.warns;
    })
added-IsRegistry base floor g key name m named fresh h = record {
  used_all =
      rw (h.used_all, names_of-append g.proxies m, named)
        (append_assoc base (names_of g.proxies) _);
  distinct = IsDistinct-concat g.used name h.distinct fresh;
  known = λ key' name' found.
      rw (names_of-append g.proxies m, named)
        (elim (Bool-cases (key == key')) [
          | inl same ↦
              let is : some (ok name) ≡ some (ok name') =
                rw (lookup-insert key key' (ok name) g.by_content, same) at found in
              rw (← ok_inj (some_inj is)) (contains_self (names_of g.proxies) name)
          | inr other ↦ contains-last (names_of g.proxies) name name' (
              h.known key' name'
                (rw (lookup-insert key key' (ok name) g.by_content, other) at found))
        ]);
  above = λ name' old.
      rw (names_of-append g.proxies m, named)
        (contains-last (names_of g.proxies) name name' (h.above name' old));
}

failed-IsRegistry :
    (base floor : List Str) (g : Registry) (key : Str) (e : LoadError)
    → IsRegistry base floor g
    → IsRegistry base floor (record g { by_content = insert key (err e) g.by_content })
failed-IsRegistry base floor g key e h = record {
  used_all = h.used_all;
  distinct = h.distinct;
  known = λ key' name' found. elim (Bool-cases (key == key')) [
    | inl same ↦
        let is : some (err e) ≡ some (ok name') =
          rw (lookup-insert key key' (err e) g.by_content, same) at found in
        absurd (cc)
    | inr other ↦
        h.known key' name' (rw (lookup-insert key key' (err e) g.by_content, other) at found)
  ];
  above = h.above;
}

-- What `add` answers is a registered proxy.
abbrev pub IsAdded : List Str → List Str → Registered × Registry → Type 0
IsAdded base floor r =
    IsRegistry base floor r.1
    × ((name : Str) → r.0 ≡ ok name → contains (names_of r.1.proxies) name ≡ true)

load-IsAdded :
    (a : Adapter) (base floor : List Str) (key : Str) (n : Node) (m : Object) (g : Registry)
    → n.clash ≡ some m
    → IsRegistry base floor g
    → IsAdded base floor (load a key n m g)
unfolding load
load-IsAdded a base floor key n m g h inv = elim (Option-cases (check_proxy a (some m))) [
  | inr (e, bad) ↦ rw (bad, load) (failed-IsRegistry base floor g key _ inv, λ name q. absurd (cc))
  | inl good ↦
      let name = proxy_name g.used (display_name n m) in
      let named = name-clash_map n m name h in
      rw (good, load)
        (
          added-IsRegistry base floor g key name _ named
              (proxy_name-fresh g.used (display_name n m)) inv,
          λ name' q.
              rw (names_of-append g.proxies _, named, ← ok_inj q)
                (contains_self (names_of g.proxies) name),
        )
]

pub add-IsAdded :
    (a : Adapter) (base floor : List Str) (n : Node) (inline : Bool) (g : Registry)
    → IsRegistry base floor g
    → IsAdded base floor (add a n inline g)
unfolding add
add-IsAdded a base floor n inline g inv = elim (Option-cases n.clash) [
  | inl bare ↦ rw (bare, add) (inv, λ name q. absurd (cc))
  | inr (m, h) ↦
      let key = registry_key inline m in
      elim (Option-cases (lookup key g.by_content)) [
        | inl new ↦ rw (h, new, add) (load-IsAdded a base floor key n m g h inv)
        | inr (r, old) ↦ rw (h, old, add) (inv, λ name q. inv.known key name (old ∙ ap some q))
      ]
]
