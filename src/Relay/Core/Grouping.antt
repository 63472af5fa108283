-- ===== src/Relay/Core/Grouping.antt =====
-- The loop of `apply` over the groups, and the composition of `Render` and `apply`.
use proxy_proxy.Prelude.{List, [], ◌∷◌, some, true, false, ◌||◌, ◌≡◌, refl, inl, inr, arith, Memᴰ}
use proxy_proxy.Prelude.Tests.{
  Bool-cases, Option-cases, Result-cases, ok, err, bind-eq-ok, ok_inj, some_inj, ◌==◌, eq_of_beq,
  beq_refl,
}
use proxy_proxy.Prelude.Dict.{Dict, lookup, lookup-insert}
use proxy_proxy.Prelude.Member.{contains, All}
use proxy_proxy.Prelude.Text.{Str, str_eq, str_beq_iff}
use proxy_proxy.Node.Value.{Object}
use proxy_proxy.Relay.Registry.Laws.{names_of}
use proxy_proxy.Relay.Render.{Desired}
use proxy_proxy.Relay.Render.Groups.{IsGroup}
use proxy_proxy.Relay.Core.{kept_group, put_group, load_group, load_groups}
use proxy_proxy.Relay.Mihomo.{
  Mihomo, LiveProxy, LiveGroup, Core, Groups, ApplyStats, Failed, name_of, key_of,
}
use mathlib.Core.Path.{subst}
use proxy_proxy.Relay.Core.Coherent.{
  HoldsMembers, Holds, IsCoherent, KeysTell, AllHas, kept-Holds, new-Holds,
}

module _ (M : Mihomo) where
  module _ (held : M.Proxy → List M.Proxy) (d : Desired) (proxies : Dict Str (LiveProxy M)) where
    -- The invariant of the loop over the groups, where those of `ms` are still to come.
    pub record IsGrouping (done : List Str) (s : Groups M) : Type 0 where
      pub coherent : IsCoherent M held proxies s.groups d.groups
      pub all : AllHas M (names_of d.proxies) proxies s.all
      pub live :
          (name : Str)
          → contains done name ≡ true
          → (lg : LiveGroup M) × (lookup name s.groups ≡ some lg)

    put_group-IsGrouping :
        (done : List Str) (m : Object) (lg : LiveGroup M) (s : Groups M)
        → Memᴰ m d.groups
        → contains (names_of d.proxies) (name_of m) ≡ false
        → lg.key ≡ key_of m
        → Holds M held proxies m lg.proxy
        → IsGrouping done s
        → IsGrouping (name_of m ∷ done) (put_group M (name_of m) lg s)
    unfolding put_group contains
    put_group-IsGrouping done m lg s mem free key holds h = record {
      coherent = λ name lg' q. elim (Bool-cases (name_of m == name)) [
        | inl same ↦
            let is : some lg ≡ some lg' =
              rw (lookup-insert (name_of m) name lg s.groups, same) at q in
            let e = some_inj is in
            (m, mem, eq_of_beq (name_of m) name same, rw (← e) key, rw (← e) holds)
        | inr other ↦
            h.coherent name lg' (rw (lookup-insert (name_of m) name lg s.groups, other) at q)
      ];
      all = λ n k. elim (Bool-cases (name_of m == n)) [
        | inl same ↦
            let e = eq_of_beq (name_of m) n same in
            let bad : contains (names_of d.proxies) n ≡ false = rw (← e) free in absurd (cc)
        | inr other ↦ rw (lookup-insert (name_of m) n lg.proxy s.all, other) (h.all n k)
      ];
      live = λ name k. elim (Bool-cases (name_of m == name)) [
        | inl same ↦ (lg, rw (lookup-insert (name_of m) name lg s.groups, same) refl)
        | inr other ↦
            let old : contains done name ≡ true =
              ground (arith, str_beq_iff (name_of m) name, str_beq_iff name (name_of m)) in
            rw (lookup-insert (name_of m) name lg s.groups, other) (h.live name old)
      ];
    }

  module _ (held : M.Proxy → List M.Proxy) (parses : HoldsMembers M held) (c : Core M) (d : Desired)
      (before : List Object) (tell : KeysTell M before d.groups)
      (old : IsCoherent M held c.proxies c.groups before) (proxies : Dict Str (LiveProxy M))
      (stats : ApplyStats)
      (reg : (relay : Str) (names : List Str)
        → lookup relay d.members ≡ some names
        → (name : Str) → contains names name ≡ true
        → contains (names_of d.proxies) name ≡ true) where
    load_group-IsGrouping :
        (done : List Str) (m : Object) (s : Groups M) {s' : Groups M}
        → Memᴰ m d.groups
        → contains (names_of d.proxies) (name_of m) ≡ false
        → IsGroup d.members m
        → load_group M c d proxies stats m s ≡ ok s'
        → IsGrouping held d proxies done s
        → IsGrouping held d proxies (name_of m ∷ done) s'
    unfolding load_group
    load_group-IsGrouping done m s {s'} mem free group h inv =
        elim (Option-cases (kept_group M c d proxies m (lookup (name_of m) c.groups))) [
          | inr (lg, kept) ↦
              let (key, holds) =
                kept-Holds M held parses c d before tell old proxies m lg mem group kept in
              subst (IsGrouping held d proxies (name_of m ∷ done))
                (ok_inj (rw (kept, load_group) at h))
                (put_group-IsGrouping held d proxies done m lg s mem free key holds inv)
          | inl new ↦ elim (Result-cases (M.parse_group m s.all s.providers s.heap).0) [
            | inr (e, bad) ↦ absurd (failed (rw (new, bad, load_group) at h))
            | inl ((g, qs), good) ↦
                subst (IsGrouping held d proxies (name_of m ∷ done))
                  (ok_inj (rw (new, good, load_group) at h))
                  (put_group-IsGrouping held d proxies done m _ _ mem free refl
                    (new-Holds M held parses c d before tell old proxies m s good group reg inv.all)
                    (record { coherent = inv.coherent; all = inv.all; live = inv.live }))
          ]
        ]
      where
        failed : {f : Failed M} → err f ≡ ok s' → ⊥
        failed q = cc

    pub load_groups-IsGrouping :
        (done : List Str) (ms : List Object) (s : Groups M) {r : Groups M}
        → ((m : Object) → Memᴰ m ms → Memᴰ m d.groups)
        → ((name : Str)
            → contains (names_of ms) name ≡ true
            → contains (names_of d.proxies) name ≡ false)
        → All (IsGroup d.members) ms
        → load_groups M c d proxies stats ms s ≡ ok r
        → IsGrouping held d proxies done s
        → (all_done : List Str) × IsGrouping held d proxies all_done r
          × ((name : Str)
              → (contains (names_of ms) name || contains done name) ≡ true
              → contains all_done name ≡ true)
    unfolding load_groups contains
    load_groups-IsGrouping done [] s {r} sub free groups h inv =
        (done, subst (IsGrouping held d proxies done) (ok_inj h) inv, λ name q. q)
    load_groups-IsGrouping done (m ∷ ms) s {r} sub free (group, groups) h inv =
        let (s', first, rest) = bind-eq-ok (load_group M c d proxies stats m s) _ h in
        let inv' =
          load_group-IsGrouping done m s (sub m (Memᴰ.head refl))
            (free (name_of m) (rw (beq_refl (name_of m)) refl)) group first inv in
        let (all_done, final, has) =
          load_groups-IsGrouping (name_of m ∷ done) ms s' (λ x k. sub x (Memᴰ.tail k))
            (λ name k. free name (rw k (ground arith))) groups rest inv' in
        (all_done, final, λ name q. has name (ground arith))
