-- ===== src/Relay/Core/Laws.antt =====
-- What `apply` promises, on success and on failure.
use proxy_proxy.Prelude.{
  ℕ, ◌+◌, List, [], ◌∷◌, ◌++◌, none, some, true, false, ◌≡◌, ◌≢◌, refl, sym, ap, ◌∙◌, ◌⊎◌, inl, inr,
  arith, Memᴰ,
}
use proxy_proxy.Prelude.Tests.{ok, bind-eq-ok, ok_inj, ◌==◌, beq_refl, Bool-cases, eq_of_beq}
use proxy_proxy.Prelude.Lists.{length}
use proxy_proxy.Prelude.Dict.{lookup}
use proxy_proxy.Prelude.Member.{contains, contains-append, IsDistinct}
use proxy_proxy.Prelude.Text.{Str, str_eq}
use proxy_proxy.Node.Value.{Object}
use proxy_proxy.Relay.Types.{Plan, builtin_proxies}
use proxy_proxy.Relay.Registry.Laws.{names_of}
use proxy_proxy.Relay.Plan.RelayNames.{relay_names}
use proxy_proxy.Relay.Render.{Desired}
use proxy_proxy.Relay.Render.Laws.{IsRendered, IsDistinct-right}
use proxy_proxy.Relay.Core.{
  load_proxies, load_groups, load_rules, load_listeners, Parsed, parse_all, switch_over, Applied,
  apply,
}
use proxy_proxy.Relay.Mihomo.{
  Mihomo, LiveProxy, LiveGroup, Core, Tracker, Proxies, Groups, name_of, key_of,
}
use proxy_proxy.Relay.Core.Apply.{apply-cases, load_proxies-IsLoaded}
use proxy_proxy.Relay.Core.Coherent.{HoldsMembers, IsCoherent, KeysTell, object_at}
use proxy_proxy.Relay.Core.Grouping.{IsGrouping, load_groups-IsGrouping}

-- Names on the two sides of a list without repetition are different.
IsDistinct-apart :
    (xs ys : List Str) (name : Str)
    → IsDistinct (xs ++ ys)
    → contains xs name ≡ true
    → contains ys name ≡ false
unfolding contains
IsDistinct-apart [] ys name d m = absurd (cc)
IsDistinct-apart (x ∷ xs) ys name (fresh, d) m = elim (Bool-cases (name == x)) [
  | inl same ↦
      let e = eq_of_beq name x same in
      let missing = sym (contains-append xs ys x) ∙ fresh in rw e (ground (arith, missing))
  | inr other ↦ IsDistinct-apart xs ys name d (rw other at m)
]

named :
    (ms : List Object) (name : Str)
    → contains (names_of ms) name ≡ true
    → (m : Object) × Memᴰ m ms × (name_of m ≡ name)
unfolding contains
named [] name h = absurd (cc)
named (m ∷ ms) name h = elim (Bool-cases (name == name_of m)) [
  | inl same ↦ (m, Memᴰ.head refl, sym (eq_of_beq name (name_of m) same))
  | inr other ↦ let (k, mk, q) = named ms name (rw other at h) in (k, Memᴰ.tail mk, q)
]

named-mem : (ms : List Object) {m : Object} → Memᴰ m ms → contains (names_of ms) (name_of m) ≡ true
unfolding contains
named-mem [] k = elim k [ ]
named-mem (x ∷ ms) {m} (Memᴰ.head same) =
    let e = ap name_of same in rw e (rw (beq_refl (name_of x)) refl)
named-mem (x ∷ ms) {m} (Memᴰ.tail k) = let ih = named-mem ms k in ground (arith, ih)

module _ (M : Mihomo) where
  abbrev no_proxies : Core M → M.Heap → Proxies M
  no_proxies c heap = record {
    proxies = [];
    all = c.builtins;
    stats = record { reused = 0; built = 0; draining = 0 };
    heap = heap;
  }

  abbrev no_groups : Proxies M → Groups M
  no_groups ps = record { groups = []; providers = []; fresh = []; all = ps.all; heap = ps.heap }

  parse_all-ok :
      (c : Core M) (d : Desired) (heap : M.Heap) {p : Parsed M}
      → parse_all M c d heap ≡ ok p
      → (load_proxies M c d.proxies (no_proxies c heap) ≡ ok p.proxies)
        × (load_groups M c d p.proxies.proxies p.proxies.stats d.groups (no_groups p.proxies)
            ≡ ok p.groups)
  unfolding parse_all
  parse_all-ok c d heap {p} h =
      let (ps, first, rest) = bind-eq-ok (load_proxies M c d.proxies (no_proxies c heap)) _ h in
      let (gs, second, rest') =
        bind-eq-ok (load_groups M c d ps.proxies ps.stats d.groups (no_groups ps)) _ rest in
      let (rules, _, rest'') = bind-eq-ok (load_rules M ps.stats gs.heap d.rules []) _ rest' in
      let (ls, _, last) = bind-eq-ok (load_listeners M ps.stats gs.heap d.listeners []) _ rest'' in
      let e = ok_inj last in
      let p_is = ap (λ (x : Parsed M). x.proxies) e in
      let g_is = ap (λ (x : Parsed M). x.groups) e in
      (first ∙ ap ok p_is, rw (← p_is, ← g_is) second)

  -- The invariant of the core, for the configs of the groups that it runs: each live group holds the
  -- live objects of its members, whatever `held` lists the objects of a group.
  abbrev pub IsCoherentCore : (M.Proxy → List M.Proxy) → Core M → List Object → Type 0
  IsCoherentCore held c ms = IsCoherent M held c.proxies c.groups ms

  -- A successful `apply`: every proxy and every group of the state has its live object, a live proxy
  -- with an unchanged config is kept, and each live group holds the live objects of its members.
  pub record IsApplied (held : M.Proxy → List M.Proxy) (c : Core M) (d : Desired) (r : Applied M)
      : Type 0 where
    pub current : r.core.current ≡ some d
    pub proxies :
        (m : Object)
        → Memᴰ m d.proxies
        → (lp : LiveProxy M) × (lookup (name_of m) r.core.proxies ≡ some lp)
          × (lp.key ≡ key_of m)
          × ((old : LiveProxy M)
              → lookup (name_of m) c.proxies ≡ some old
              → old.key ≡ key_of m
              → lp ≡ old)
    pub groups :
        (m : Object)
        → Memᴰ m d.groups
        → (lg : LiveGroup M) × (lookup (name_of m) r.core.groups ≡ some lg)
    pub coherent : IsCoherentCore held r.core d.groups
    pub count : r.stats.reused + r.stats.built ≡ length d.proxies

  module _ (held : M.Proxy → List M.Proxy) (parses : HoldsMembers M held) (c : Core M) (pl : Plan)
      (d : Desired) (before : List Object) (rendered : IsRendered pl d)
      (tell : KeysTell M before d.groups) (old : IsCoherentCore held c before) where
    switched-IsApplied :
        (time : ℕ) (open_now : List Tracker) (heap : M.Heap) (p : Parsed M)
        → parse_all M c d heap ≡ ok p
        → IsApplied held c d (switch_over M c d time open_now p)
    unfolding switch_over lookup contains object_at
    switched-IsApplied time open_now heap p h =
        let (first, second) = parse_all-ok c d heap h in
        let loaded =
          load_proxies-IsLoaded M c d.proxies (no_proxies c heap)
            (IsDistinct-right (builtin_proxies ++ relay_names pl.relays) (names_of d.proxies)
              rendered.names)
            first in
        let start : IsGrouping M held d p.proxies.proxies [] (no_groups p.proxies) = record {
          coherent = λ name lg q. absurd (cc);
          all = λ n m.
              let (o, mo, q) = named d.proxies n m in
              let (lp, found, in_all, _, _) = loaded.live o mo in
              rw (← q) (in_all ∙ sym (rw (found, object_at) refl));
          live = λ name q. absurd (cc);
        } in
        let (all_done, inv, has) =
          load_groups-IsGrouping M held parses c d before tell old p.proxies.proxies p.proxies.stats
            (λ relay names found. (rendered.members relay names found).2) [] d.groups
            (no_groups p.proxies) (λ m k. k)
            (λ name k.
              IsDistinct-apart (builtin_proxies ++ relay_names pl.relays) (names_of d.proxies) name
                rendered.names
                (rw
                  (
                    contains-append builtin_proxies (relay_names pl.relays) name,
                    rendered.relays name k,
                  )
                  (ground arith)))
            rendered.groups second start in
        record {
          current = refl;
          proxies =
              λ m k. let (lp, found, _, key, keeps) = loaded.live m k in (lp, found, key, keeps);
          groups = λ m k. inv.live (name_of m) (has (name_of m) (rw (named-mem d.groups k) refl));
          coherent = inv.coherent;
          count = let n = loaded.count in omega arith;
        }

    -- `apply` is all or nothing. Where something does not parse, the core is what it was and mihomo
    -- gets no call; otherwise each proxy and group of the new state is live, a live proxy whose
    -- config has not changed is kept, every proxy counts as reused or built, and each live group,
    -- kept or new, holds the live objects of its members. The state is rendered from a plan, the
    -- core before is coherent, groups of the old and the new state with one key list the same
    -- proxies, and `held` lists the objects that mihomo documents a group to hold.
    pub apply-IsApplied :
        (time : ℕ) (open_now : List Tracker) (heap : M.Heap)
        → let r = apply M c d time open_now heap in
          ((r.error ≢ none) × (r.core ≡ c) × (r.commands ≡ []))
          ⊎ ((r.error ≡ none) × IsApplied held c d r)
    unfolding switch_over
    apply-IsApplied time open_now heap = elim (apply-cases M c d time open_now heap) [
      | inl failed ↦ inl failed
      | inr (p, parsed, eq) ↦ rw eq (inr (refl, switched-IsApplied time open_now heap p parsed))
    ]
