-- ===== src/Relay/Core.antt =====
-- internal/relay/core.go: how mihomo is switched to a state.
pub mod Apply
pub mod Coherent
pub mod Grouping
pub mod Laws
use proxy_proxy.Prelude.{
  ℕ, suc, ◌+◌, ◌*◌, List, [], ◌∷◌, ◌++◌, Option, none, some, Bool, true, false, not, ◌&&◌, ◌||◌,
}
use proxy_proxy.Prelude.Tests.{if◌then◌else◌, ltb, Eq, ◌==◌, Result, ok, err, ◌>>=◌}
use proxy_proxy.Prelude.Dict.{Dict, lookup, insert, remove}
use proxy_proxy.Prelude.Member.{contains}
use proxy_proxy.Prelude.Text.{Str, lit, str_eq}
use proxy_proxy.Node.Value.{object, Object, get}
use proxy_proxy.Node.Sprint.{str, sprint}
use proxy_proxy.Relay.Render.{Route, route_eq, RouteTarget, Desired}
use proxy_proxy.Relay.Mihomo.{
  ApplyError, ApplyStats, Command, Core, Failed, Groups, LiveGroup, LiveProxy, Mihomo, Proxies,
  Tracker, apply_general, close_provider, drain_timeout, group_error, initial, key_of,
  listener_error, name_of, new_core, patch_listeners, proxy_error, rule_error, shut_down,
  update_proxies, update_rules,
}
use proxy_proxy.Relay.Draining.{
  last_of, mark_each, mark_stale, members_of, next_deadline, next_from, route_differs, same_object,
  stale, sweep, target_at,
}

module _ (M : Mihomo) where
  -- What `start` leaves: the core, its error, the calls of mihomo, and the heap.
  pub record Started : Type 0 where
    pub core : Core M
    pub error : Option Str
    pub commands : List (Command M)
    pub heap : M.Heap

  unfoldable pub start : Core M → M.Heap → Started
  start c heap =
      let (r, heap') = M.parse_general heap in
      elim r [
        | err e ↦ record { core = c; error = some e; commands = []; heap = heap' }
        | ok builtins ↦ record {
          core = record c { builtins = builtins; started = true };
          error = none;
          commands = apply_general ∷ [];
          heap = heap';
        }
      ]

  -- The live proxy that can be kept.
  unfoldable pub kept_proxy : Str → Option (LiveProxy M) → Option (LiveProxy M)
  kept_proxy key none = none
  kept_proxy key (some lp) = if lp.key == key then some lp else none

  unfoldable pub put_proxy : Str → LiveProxy M → Proxies M → Proxies M
  put_proxy name lp s = record s {
    proxies = insert name lp s.proxies;
    all = insert name lp.proxy s.all;
  }

  unfoldable pub load_proxy : Core M → Object → Proxies M → Result (Failed M) (Proxies M)
  unfolding kept_proxy put_proxy
  load_proxy c m s = elim (kept_proxy (key_of m) (lookup (name_of m) c.proxies)) [
    | some lp ↦ ok (
        put_proxy (name_of m) lp
          (record s { stats = record (s.stats) { reused = suc s.stats.reused } }))
    | none ↦
        let (r, heap) = M.parse_proxy m s.heap in
        elim r [
          | err e ↦ err (record { error = proxy_error (name_of m) e; stats = s.stats; heap = heap })
          | ok p ↦ ok (
              put_proxy (name_of m) (record { key = key_of m; proxy = p })
                (record s { stats = record (s.stats) { built = suc s.stats.built }; heap = heap }))
        ]
  ]

  unfoldable pub load_proxies : Core M → List Object → Proxies M → Result (Failed M) (Proxies M)
  unfolding load_proxy
  load_proxies c [] s = ok s
  load_proxies c (m ∷ ms) s = do s' ← load_proxy c m s; load_proxies c ms s'

  unfoldable pub same_proxies : Core M → List Str → Dict Str (LiveProxy M) → Bool
  unfolding same_object
  same_proxies c [] next = true
  same_proxies c (n ∷ ns) next =
      let rest = same_proxies c ns next in
      elim (lookup n c.proxies) [
        | none ↦ false
        | some old ↦ if not (same_object M (some old) (lookup n next)) then false else rest
      ]

  -- The live group that can be kept: a group holds its member objects.
  unfoldable pub kept_group :
      Core M
      → Desired
      → Dict Str (LiveProxy M)
      → Object
      → Option (LiveGroup M)
      → Option (LiveGroup M)
  unfolding same_proxies members_of
  kept_group c d proxies m none = none
  kept_group c d proxies m (some lg) =
      if not (lg.key == key_of m) || not (same_proxies c (members_of M d (name_of m)) proxies)
      then none
      else some lg

  unfoldable pub put_group : Str → LiveGroup M → Groups M → Groups M
  put_group name lg s = record s {
    providers = insert name lg.provider s.providers;
    groups = insert name lg s.groups;
    all = insert name lg.proxy s.all;
  }

  -- `providers[name]`; a missing key reads as nil.
  unfoldable pub provider_of : Str → Dict Str M.Provider → M.Provider
  provider_of name ps = elim (lookup name ps) [ none ↦ M.no_provider | some p ↦ p ]

  unfoldable pub load_group :
      Core M
      → Desired
      → Dict Str (LiveProxy M)
      → ApplyStats
      → Object
      → Groups M
      → Result (Failed M) (Groups M)
  unfolding kept_group put_group provider_of
  load_group c d proxies stats m s = elim (kept_group c d proxies m (lookup (name_of m) c.groups)) [
    | some lg ↦ ok (put_group (name_of m) lg s)
    | none ↦
        let (r, heap) = M.parse_group m s.all s.providers s.heap in
        elim r [
          | err e ↦ err (record { error = group_error (name_of m) e; stats = stats; heap = heap })
          | ok (g, providers) ↦
              let (proxy, heap') = M.new_proxy g heap in
              let provider = provider_of (name_of m) providers in
              ok (
                put_group (name_of m)
                  (record { key = key_of m; proxy = proxy; provider = provider })
                  (record {
                    groups = s.groups;
                    providers = providers;
                    fresh = s.fresh ++ provider ∷ [];
                    all = s.all;
                    heap = heap';
                  }))
        ]
  ]

  unfoldable pub load_groups :
      Core M
      → Desired
      → Dict Str (LiveProxy M)
      → ApplyStats
      → List Object
      → Groups M
      → Result (Failed M) (Groups M)
  unfolding load_group
  load_groups c d proxies stats [] s = ok s
  load_groups c d proxies stats (m ∷ ms) s = do
    s' ← load_group c d proxies stats m s
    load_groups c d proxies stats ms s'

  unfoldable pub load_rules :
      ApplyStats → M.Heap → List Str → List M.Rule → Result (Failed M) (List M.Rule)
  load_rules stats heap [] rules = ok rules
  load_rules stats heap (line ∷ lines) rules = elim (M.parse_rule line) [
    | err e ↦ err (record { error = rule_error line e; stats = stats; heap = heap })
    | ok r ↦ load_rules stats heap lines (rules ++ r ∷ [])
  ]

  unfoldable pub load_listeners :
      ApplyStats
      → M.Heap
      → List Object
      → Dict Str M.Listener
      → Result (Failed M) (Dict Str M.Listener)
  load_listeners stats heap [] ls = ok ls
  load_listeners stats heap (m ∷ ms) ls = elim (M.parse_listener m) [
    | err e ↦ err (record {
      error = listener_error (sprint (get (lit "name") m)) e;
      stats = stats;
      heap = heap;
    })
    | ok l ↦ load_listeners stats heap ms (insert (M.listener_name l) l ls)
  ]

  -- The loop that stops the health checks of the groups that are gone or replaced.
  unfoldable pub close_groups : Dict Str (LiveGroup M) → Dict Str (LiveGroup M) → List (Command M)
  close_groups next [] = []
  close_groups next ((name, old) ∷ groups) =
      let rest = close_groups next groups in
      elim (lookup name next) [
        | none ↦ close_provider old.provider ∷ rest
        | some g ↦
            if not (M.proxy_eq.beq g.proxy old.proxy)
            then close_provider old.provider ∷ rest
            else rest
      ]

  abbrev pub start_providers : List M.Provider → List (Command M)
  start_providers [] = []
  start_providers (p ∷ ps) = initial p ∷ start_providers ps

  -- Everything that `apply` has parsed before it switches mihomo over.
  pub record Parsed : Type 0 where
    pub proxies : Proxies M
    pub groups : Groups M
    pub rules : List M.Rule
    pub listeners : Dict Str M.Listener

  unfoldable pub parse_all : Core M → Desired → M.Heap → Result (Failed M) Parsed
  unfolding load_proxies load_groups load_rules load_listeners
  parse_all c d heap = do
    ps ← load_proxies c d.proxies (record {
      proxies = [];
      all = c.builtins;
      stats = record { reused = 0; built = 0; draining = 0 };
      heap = heap;
    })
    gs ←
        load_groups c d ps.proxies ps.stats d.groups
          (record { groups = []; providers = []; fresh = []; all = ps.all; heap = ps.heap })
    rules ← load_rules ps.stats gs.heap d.rules []
    listeners ← load_listeners ps.stats gs.heap d.listeners []
    ok (record { proxies = ps; groups = gs; rules = rules; listeners = listeners })

  -- What `apply` leaves: the core, its results, the calls of mihomo, and the heap.
  pub record Applied : Type 0 where
    pub core : Core M
    pub stats : ApplyStats
    pub error : Option ApplyError
    pub commands : List (Command M)
    pub heap : M.Heap

  -- The part of `apply` after the parsing, which cannot fail.
  unfoldable pub switch_over : Core M → Desired → ℕ → List Tracker → Parsed → Applied
  unfolding mark_stale close_groups
  switch_over c d time open_now p =
      let (draining, n) = mark_stale M c time open_now d p.proxies.proxies in
      record {
        core = record {
          started = c.started;
          builtins = c.builtins;
          current = some d;
          proxies = p.proxies.proxies;
          groups = p.groups.groups;
          draining = draining;
        };
        stats = record (p.proxies.stats) { draining = n };
        error = none;
        commands =
            start_providers p.groups.fresh
            ++ update_proxies p.groups.all p.groups.providers
              ∷ update_rules p.rules
              ∷ patch_listeners p.listeners
              ∷ close_groups p.groups.groups c.groups;
        heap = p.groups.heap;
      }

  unfoldable pub apply : Core M → Desired → ℕ → List Tracker → M.Heap → Applied
  unfolding parse_all switch_over
  apply c d time open_now heap = elim (parse_all c d heap) [
    | err f ↦ record {
      core = c;
      stats = f.stats;
      error = some f.error;
      commands = [];
      heap = f.heap;
    }
    | ok p ↦ switch_over c d time open_now p
  ]

module _ (M : Mihomo) where
  abbrev close_all : Dict Str (LiveGroup M) → List (Command M)
  close_all [] = []
  close_all ((name, g) ∷ groups) = close_provider g.provider ∷ close_all groups

  -- `stop`
  unfoldable pub stop : Core M → List (Command M)
  stop c = if not c.started then [] else patch_listeners [] ∷ (close_all c.groups ++ shut_down ∷ [])
