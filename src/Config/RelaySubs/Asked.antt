-- ===== src/Config/RelaySubs/Asked.antt =====
-- The interval of a relay sub is one that an upstream with its URL asks for.
use proxy_proxy.Prelude.{
  ℕ, zero, suc, List, [], ◌∷◌, ◌++◌, some, ◌≡◌, refl, sym, ap, ◌∙◌, inl, inr, ◌⊎◌, arith, Memᴰ,
}
use proxy_proxy.Prelude.Tests.{Bool-cases, Option-cases, some_inj}
use proxy_proxy.Prelude.Lists.{get_elem?}
use proxy_proxy.Prelude.Dict.{lookup}
use proxy_proxy.Prelude.Member.{All}
use proxy_proxy.Prelude.Int.{ℤ, pos, negsuc, min_ℤ, leb_ℤ, ◌≤ℤ◌}
use proxy_proxy.Prelude.Text.{Str, is_empty, str_eq}
use proxy_proxy.Config.Types.{Sub, Upstream, Relay, is_sub_url}
use proxy_proxy.Config.Source.{Platform}
use proxy_proxy.Config.RelaySubs.{
  minute, hour, Resolving, relay_interval, shorten, add_relay_sub, resolve_upstream,
  resolve_upstreams, resolve_relays,
}
use proxy_proxy.Config.RelaySubs.Invariant.{IsResolving}
use proxy_proxy.Config.RelaySubs.Step.{resolve_upstream-IsStep}

-- What an upstream that gives this interval asks for: an hour where it gives none, and no less than a
-- minute.
abbrev pub IsEffective : ℤ → ℤ → Type 0
IsEffective asked i =
    (asked ≤ℤ pos 0 → i ≡ pos hour)
    × (pos 1 ≤ℤ asked → asked ≤ℤ pos minute → i ≡ pos minute)
    × (pos minute ≤ℤ asked → i ≡ asked)

relay_interval-IsEffective : (asked : ℤ) → IsEffective asked (relay_interval asked)
unfolding relay_interval
relay_interval-IsEffective (pos n) = ground arith
relay_interval-IsEffective (negsuc n) = ground arith

-- Some upstream of the list has the sub's URL, and asks for its interval.
abbrev pub IsAsked : List Upstream → Sub → Type 0
IsAsked ups s =
    (up : Upstream) × Memᴰ up ups × (up.sub ≡ s.url) × IsEffective up.interval s.interval

abbrev pub AreAsked : List Upstream → List Sub → Type 0
AreAsked ups subs = All (IsAsked ups) subs

min_ℤ-or : (a b : ℤ) → (min_ℤ a b ≡ a) ⊎ (min_ℤ a b ≡ b)
min_ℤ-or a b = elim (Bool-cases (leb_ℤ a b)) [
  | inl le ↦ inl (rw le refl)
  | inr gt ↦ inr (rw gt refl)
]

module _ (all : List Upstream) where
  shorten-AreAsked :
      (up : Upstream) (k : ℕ) (subs : List Sub) (s : Sub)
      → Memᴰ up all
      → get_elem? subs k ≡ some s
      → s.url ≡ up.sub
      → AreAsked all subs
      → AreAsked all (shorten k (relay_interval up.interval) subs)
  unfolding shorten get_elem?
  shorten-AreAsked up k [] s m at_k same h = h
  shorten-AreAsked up (suc k) (r ∷ subs) s m at_k same (h, hs) =
      (h, shorten-AreAsked up k subs s m at_k same hs)
  shorten-AreAsked up zero (r ∷ subs) s m at_k same ((by, mb, u, i), hs) = (
    elim (min_ℤ-or r.interval (relay_interval up.interval)) [
      | inl old ↦ (by, mb, u, rw old i)
      | inr new ↦ (
        up,
        m,
        sym same ∙ ap (λ (x : Sub). x.url) (sym (some_inj at_k)),
        rw new (relay_interval-IsEffective up.interval),
      )
    ],
    hs,
  )

  append-AreAsked :
      (subs : List Sub) (s : Sub)
      → AreAsked all subs
      → IsAsked all s
      → AreAsked all (subs ++ s ∷ [])
  append-AreAsked [] s h new = (new, tt)
  append-AreAsked (r ∷ subs) s (h, hs) new = (h, append-AreAsked subs s hs new)

  module _ (p : Platform) (names : List Str) where
    resolve_upstream-AreAsked :
        (up : Upstream) (st : Resolving)
        → Memᴰ up all
        → IsResolving names st
        → AreAsked all st.relay_subs
        → AreAsked all (resolve_upstream p up st).1.relay_subs
    unfolding resolve_upstream add_relay_sub
    resolve_upstream-AreAsked up st m inv h = elim (Bool-cases (is_empty up.sub)) [
      | inl empty ↦ rw (empty, resolve_upstream) h
      | inr full ↦ elim (Bool-cases (is_sub_url up.sub)) [
        | inr plain ↦ rw (full, plain, resolve_upstream) h
        | inl url ↦ elim (Option-cases (lookup up.sub st.by_url)) [
          | inr (k, found) ↦
              let (s, at_k, same) = inv.indexed up.sub k found in
              rw (full, url, found, resolve_upstream)
                (shorten-AreAsked up k st.relay_subs s m at_k same h)
          | inl new ↦ elim (Option-cases (p.parse up.sub)) [
            | inl bad ↦ rw (full, url, new, bad, resolve_upstream, add_relay_sub) h
            | inr (u, parsed) ↦ elim (Bool-cases (is_empty u.hostname)) [
              | inl nameless ↦
                  rw (full, url, new, parsed, nameless, resolve_upstream, add_relay_sub) h
              | inr named ↦
                  rw (full, url, new, parsed, named, resolve_upstream, add_relay_sub)
                    (append-AreAsked st.relay_subs _ h
                      (up, m, refl, relay_interval-IsEffective up.interval))
            ]
          ]
        ]
      ]
    ]

    resolve_upstreams-AreAsked :
        (ups : List Upstream) (st : Resolving)
        → ((up : Upstream) → Memᴰ up ups → Memᴰ up all)
        → IsResolving names st
        → AreAsked all st.relay_subs
        → IsResolving names (resolve_upstreams p ups st).1
          × AreAsked all (resolve_upstreams p ups st).1.relay_subs
    unfolding resolve_upstreams
    resolve_upstreams-AreAsked [] st sub inv h = (inv, h)
    resolve_upstreams-AreAsked (up ∷ ups) st sub inv h =
        let (inv', _, _, _) = resolve_upstream-IsStep p names up st inv in
        resolve_upstreams-AreAsked ups (resolve_upstream p up st).1 (λ v m. sub v (Memᴰ.tail m))
          inv' (resolve_upstream-AreAsked up st (sub up (Memᴰ.head refl)) inv h)

    pub resolve_relays-AreAsked :
        (rs : List Relay) (st : Resolving)
        → ((r : Relay) (up : Upstream) → Memᴰ r rs → Memᴰ up r.upstream → Memᴰ up all)
        → IsResolving names st
        → AreAsked all st.relay_subs
        → AreAsked all (resolve_relays p rs st).1.relay_subs
    unfolding resolve_relays
    resolve_relays-AreAsked [] st sub inv h = h
    resolve_relays-AreAsked (r ∷ rs) st sub inv h =
        let (inv', h') =
          resolve_upstreams-AreAsked r.upstream st (λ up m. sub r up (Memᴰ.head refl) m) inv h in
        resolve_relays-AreAsked rs (resolve_upstreams p r.upstream st).1
          (λ q up mq m. sub q up (Memᴰ.tail mq) m) inv' h'
