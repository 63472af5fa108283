-- ===== src/Relay/Core/Apply.antt =====
-- `apply` on failure, and the proxies that it keeps and builds.
use proxy_proxy.Prelude.{
  ℕ, suc, ◌+◌, List, [], ◌∷◌, Option, none, some, false, ◌≡◌, ◌≢◌, refl, sym, ap, ◌∙◌, inl, inr,
  ◌⊎◌, arith, Memᴰ,
}
use proxy_proxy.Prelude.Tests.{
  Bool-cases, Option-cases, Result-cases, ok, err, bind-eq-ok, ok_inj, some_inj, ◌==◌, eq_of_beq,
  beq_of_eq,
}
use proxy_proxy.Prelude.Lists.{length}
use proxy_proxy.Prelude.Dict.{lookup, insert, lookup-insert, lookup-insert_self}
use proxy_proxy.Prelude.Member.{contains, IsDistinct}
use proxy_proxy.Prelude.Text.{Str, str_eq, str_beq_iff}
use proxy_proxy.Node.Value.{Object}
use proxy_proxy.Relay.Registry.Laws.{names_of}
use proxy_proxy.Relay.Render.{Desired}
use proxy_proxy.Relay.Core.{
  kept_proxy, put_proxy, load_proxy, load_proxies, Parsed, parse_all, switch_over, apply,
}
use proxy_proxy.Relay.Mihomo.{Mihomo, LiveProxy, Core, Tracker, Failed, Proxies, name_of, key_of}
use mathlib.Core.List.Memᴰ
use mathlib.Core.Path.{subst}

module _ (M : Mihomo) where
  pub apply-cases :
      (c : Core M) (d : Desired) (time : ℕ) (open_now : List Tracker) (heap : M.Heap)
      → let r = apply M c d time open_now heap in
        ((r.error ≢ none) × (r.core ≡ c) × (r.commands ≡ []))
        ⊎ ((p : Parsed M) × (parse_all M c d heap ≡ ok p) × (r ≡ switch_over M c d time open_now p))
  unfolding apply
  apply-cases c d time open_now heap = elim (Result-cases (parse_all M c d heap)) [
    | inr (f, bad) ↦ inl (rw (bad, apply) (λ q. cc, refl, refl))
    | inl (p, good) ↦ inr (p, good, rw (good, apply) refl)
  ]

  -- What a round of the loop over the proxies does: it takes the live proxy with the same key, or
  -- builds one.
  pub record IsStep (c : Core M) (m : Object) (s s' : Proxies M) : Type 0 where
    pub live : LiveProxy M
    pub proxies : s'.proxies ≡ insert (name_of m) live s.proxies
    pub all : s'.all ≡ insert (name_of m) live.proxy s.all
    pub key : live.key ≡ key_of m
    pub keeps :
        (old : LiveProxy M)
        → lookup (name_of m) c.proxies ≡ some old
        → old.key ≡ key_of m
        → live ≡ old
    pub count : s'.stats.reused + s'.stats.built ≡ suc (s.stats.reused + s.stats.built)

  kept_proxy-none :
      (key : Str) (o : Option (LiveProxy M)) (old : LiveProxy M)
      → kept_proxy M key o ≡ none
      → o ≡ some old
      → old.key ≢ key
  unfolding kept_proxy
  kept_proxy-none key none old h q e = absurd (cc)
  kept_proxy-none key (some lp) old h q e =
      let same = beq_of_eq lp.key key (ap (λ (x : LiveProxy M). x.key) (some_inj q) ∙ e) in
      absurd (no (rw same at h))
    where
      no : some lp ≡ none → ⊥
      no p = cc

  kept_proxy-some :
      (key : Str) (o : Option (LiveProxy M)) (lp : LiveProxy M)
      → kept_proxy M key o ≡ some lp
      → (o ≡ some lp) × (lp.key ≡ key)
  unfolding kept_proxy
  kept_proxy-some key none lp h = absurd (cc)
  kept_proxy-some key (some x) lp h = elim (Bool-cases (x.key == key)) [
    | inl same ↦
        let e : some x ≡ some lp = rw same at h in
        (e, ap (λ (y : LiveProxy M). y.key) (sym (some_inj e)) ∙ eq_of_beq x.key key same)
    | inr other ↦ let bad : none ≡ some lp = rw other at h in absurd (cc)
  ]

  load_proxy-IsStep :
      (c : Core M) (m : Object) (s : Proxies M) {s' : Proxies M}
      → load_proxy M c m s ≡ ok s'
      → IsStep c m s s'
  unfolding load_proxy put_proxy
  load_proxy-IsStep c m s {s'} h =
      elim (Option-cases (kept_proxy M (key_of m) (lookup (name_of m) c.proxies))) [
        | inr (lp, kept) ↦
            let (live, same) = kept_proxy-some (key_of m) (lookup (name_of m) c.proxies) lp kept in
            subst (IsStep c m s) (ok_inj (rw (kept, load_proxy) at h)) (record {
              live = lp;
              proxies = refl;
              all = refl;
              key = same;
              keeps = λ old q e. some_inj (sym live ∙ q);
              count = omega arith;
            })
        | inl new ↦ elim (Result-cases (M.parse_proxy m s.heap).0) [
          | inr (e, bad) ↦ absurd (failed (rw (new, bad, load_proxy) at h))
          | inl (p, good) ↦
              subst (IsStep c m s) (ok_inj (rw (new, good, load_proxy) at h)) (record {
                live = record { key = key_of m; proxy = p };
                proxies = refl;
                all = refl;
                key = refl;
                keeps = λ old q e.
                    absurd (kept_proxy-none (key_of m) (lookup (name_of m) c.proxies) old new q e);
                count = omega arith;
              })
        ]
      ]
    where
      failed : {f : Failed M} → err f ≡ ok s' → ⊥
      failed q = cc

  -- The result of the loop over the proxies: every config has its live proxy, an old one with the
  -- same key is kept, and the other names are as before.
  pub record IsLoaded (c : Core M) (ms : List Object) (s r : Proxies M) : Type 0 where
    pub live :
        (m : Object)
        → Memᴰ m ms
        → (lp : LiveProxy M) × (lookup (name_of m) r.proxies ≡ some lp)
          × (lookup (name_of m) r.all ≡ some lp.proxy)
          × (lp.key ≡ key_of m)
          × ((old : LiveProxy M)
              → lookup (name_of m) c.proxies ≡ some old
              → old.key ≡ key_of m
              → lp ≡ old)
    pub other :
        (name : Str)
        → contains (names_of ms) name ≡ false
        → (lookup name r.proxies ≡ lookup name s.proxies) × (lookup name r.all ≡ lookup name s.all)
    pub count : r.stats.reused + r.stats.built ≡ length ms + (s.stats.reused + s.stats.built)

  pub load_proxies-IsLoaded :
      (c : Core M) (ms : List Object) (s : Proxies M) {r : Proxies M}
      → IsDistinct (names_of ms)
      → load_proxies M c ms s ≡ ok r
      → IsLoaded c ms s r
  unfolding load_proxies contains
  load_proxies-IsLoaded c [] s {r} dist h =
      subst (IsLoaded c [] s) (ok_inj h)
        (record { live = λ m k. elim k [ ]; other = λ name q. (refl, refl); count = omega arith })
  load_proxies-IsLoaded c (m ∷ ms) s {r} (fresh, dist) h =
      let (s', first, rest) = bind-eq-ok (load_proxy M c m s) _ h in
      let st = load_proxy-IsStep c m s first in
      let ih = load_proxies-IsLoaded c ms s' dist rest in
      record {
        live = λ m' k. elim (Memᴰ.cases_cons k) [
          | inr later ↦ ih.live m' later
          | inl same ↦
              let (p, q) = ih.other (name_of m) fresh in
              rw same (
                st.live,
                p ∙ (rw st.proxies (lookup-insert_self (name_of m) st.live s.proxies)),
                q ∙ (rw st.all (lookup-insert_self (name_of m) st.live.proxy s.all)),
                st.key,
                st.keeps,
              )
        ];
        other = λ name missing.
            let (p, q) = ih.other name (ground arith) in
            let ne : (name_of m == name) ≡ false =
              ground (arith, str_beq_iff (name_of m) name, str_beq_iff name (name_of m)) in
            (
              p ∙ (rw (st.proxies, lookup-insert (name_of m) name st.live s.proxies, ne) refl),
              q ∙ (rw (st.all, lookup-insert (name_of m) name st.live.proxy s.all, ne) refl),
            );
        count = let a = ih.count in let b = st.count in omega arith;
      }
