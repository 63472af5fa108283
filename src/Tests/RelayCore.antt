-- ===== src/Tests/RelayCore.antt =====
-- internal/relay/core.go and manager.go with a mihomo whose objects are texts: a proxy is a number, and
-- a group the numbers of its proxies.
use proxy_proxy.Prelude.{
  ℕ, suc, ◌+◌, List, [], ◌∷◌, map, Option, none, some, Bool, true, ◌≡◌, ◌≢◌, ◌⊎◌, refl, sym, ap,
}
use proxy_proxy.Prelude.Tests.{Result, ok, err, some_inj, ok_inj}
use proxy_proxy.Prelude.Dict.{Dict, lookup, keys}
use proxy_proxy.Prelude.Member.{contains, IsDistinct}
use proxy_proxy.Prelude.Text.{Str, lit, str_eq, str_beq}
use proxy_proxy.Node.Value.{Value, texts, get}
use proxy_proxy.Node.Sprint.{sprint}
use proxy_proxy.Relay.Render.{Desired}
use proxy_proxy.Relay.Core.{apply}
use proxy_proxy.Relay.Draining.{mark_stale, sweep}
use proxy_proxy.Relay.Mihomo.{Mihomo, Core, Tracker, new_core, drain_timeout}
use proxy_proxy.Relay.Core.Coherent.{HoldsMembers}
use proxy_proxy.Relay.Core.Laws.{IsApplied, IsCoherentCore, apply-IsApplied}
use proxy_proxy.Relay.Draining.Marks.{IsMarked, mark_stale-IsMarked}
use proxy_proxy.Relay.Draining.Deadlines.{IsSwept, sweep-IsSwept}
use proxy_proxy.Relay.Render.Laws.{render_plan-IsRendered}
use proxy_proxy.Tests.RelayPlan.{adapter, config, pool_plan}
use proxy_proxy.Tests.RelayRender.{marshal, no_nodes, pool_state, pool_is}

-- The number of a single proxy before the numbers of the others.
unfoldable pub before : Option Str → Option Str → Option Str
before (some (i ∷ [])) (some is) = some (i ∷ is)
before p is = none

unfoldable pub numbers : Dict Str Str → List Str → Option Str
unfolding before
numbers all [] = some []
numbers all (n ∷ ns) = before (lookup n all) (numbers all ns)

unfoldable pub listed : Value → List Str
listed (texts names) = names
listed v = []

unfoldable pub group_of : Option Str → Result Str (Str × Dict Str Str)
group_of none = err (lit "not found")
group_of (some is) = ok (is, [])

abbrev pub counting : Mihomo
counting = record {
  Heap = ℕ;
  Proxy = Str;
  Group = Str;
  Provider = Str;
  Rule = Str;
  Listener = Str;
  proxy_eq = str_eq;
  no_provider = [];
  parse_general = λ n. (ok [], n);
  parse_proxy = λ m n. (ok (n ∷ []), suc n);
  parse_group = λ m all ps n. (group_of (numbers all (listed (get (lit "proxies") m))), n);
  new_proxy = λ g n. (g, n);
  parse_rule = λ line. ok line;
  parse_listener = λ m. ok (sprint (get (lit "name") m));
  listener_name = λ l. l;
}

abbrev held : Str → List Str
held is = map (λ i. i ∷ []) is

before-some :
    (p is : Option Str) {js : Str}
    → before p is ≡ some js
    → (i : ℕ) × (ks : Str) × (p ≡ some (i ∷ [])) × (is ≡ some ks) × (js ≡ i ∷ ks)
unfolding before
before-some (some (i ∷ [])) (some is) h = (i, is, refl, refl, sym (some_inj h))
before-some (some (i ∷ [])) none h = absurd (cc)
before-some (some []) is h = absurd (cc)
before-some (some (i ∷ j ∷ k)) is h = absurd (cc)
before-some none is h = absurd (cc)

numbers-held :
    (all : Dict Str Str) (names : List Str) {is : Str}
    → numbers all names ≡ some is
    → map (λ n. lookup n all) names ≡ map some (held is)
unfolding numbers
numbers-held all [] {is} h = rw (← some_inj h) refl
numbers-held all (n ∷ names) {is} h =
    let (i, ks, here, rest, eq) = before-some (lookup n all) (numbers all names) h in
    rw (eq, here, numbers-held all names rest) refl

group_of-ok : (o : Option Str) (g : Str) (qs : Dict Str Str) → group_of o ≡ ok (g, qs) → o ≡ some g
unfolding group_of
group_of-ok none g qs h = absurd (cc)
group_of-ok (some is) g qs h = ap some (ap (λ r. r.0) (ok_inj h))

counting-HoldsMembers : HoldsMembers counting held
unfolding listed
counting-HoldsMembers m all ps qs heap g names h is =
    let found = group_of-ok (numbers all (listed (get (lit "proxies") m))) g qs h in
    numbers-held all names (rw is at found)

nothing_live : IsCoherentCore counting held (new_core counting) []
unfolding lookup
nothing_live name lg q = absurd (cc)

apply-IsApplied_example :
    let r = apply counting (new_core counting) pool_state 0 [] 0 in
    ((r.error ≢ none) × (r.core ≡ new_core counting) × (r.commands ≡ []))
    ⊎ ((r.error ≡ none) × IsApplied counting held (new_core counting) pool_state r)
apply-IsApplied_example =
    apply-IsApplied counting held counting-HoldsMembers (new_core counting) pool_plan pool_state []
      (render_plan-IsRendered adapter marshal no_nodes config pool_plan pool_is)
      (λ m n mem. elim mem [ ]) nothing_live 0 [] 0

abbrev idle_state : Desired
idle_state = record {
  proxies = [];
  groups = [];
  listeners = [];
  rules = [];
  routes = [];
  members = [];
}

abbrev running : Core counting
running = record {
  started = true;
  builtins = [];
  current = some pool_state;
  proxies = [];
  groups = [];
  draining = (lit "old", 7) ∷ [];
}

abbrev pub caller : Tracker
caller = record {
  id = lit "caller";
  in_name = lit "relay-1080";
  in_user = lit "pool";
  chain = lit "node" ∷ lit "pool" ∷ [];
}

mark_stale-IsMarked_example :
    IsMarked counting running pool_state
      (0 + drain_timeout)
      idle_state
      []
      (caller ∷ [])
      ((lit "old", 7) ∷ [])
      (mark_stale counting running 0 (caller ∷ []) idle_state [])
mark_stale-IsMarked_example =
    mark_stale-IsMarked counting running pool_state 0 (caller ∷ []) idle_state [] refl

abbrev draining_now : Dict Str ℕ
draining_now = (lit "old", 7) ∷ (lit "new", 9) ∷ []

abbrev tracked_now : Str → Bool
tracked_now id = true

one_deadline : IsDistinct (keys draining_now)
unfolding keys contains lit str_beq
one_deadline = (refl, (refl, tt))

sweep-IsSwept_example : IsSwept 8 tracked_now draining_now (sweep 8 tracked_now draining_now)
sweep-IsSwept_example = sweep-IsSwept 8 tracked_now draining_now one_deadline
