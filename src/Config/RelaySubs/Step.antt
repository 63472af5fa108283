-- ===== src/Config/RelaySubs/Step.antt =====
-- One upstream of the walk: what it keeps of the relay subs so far, and what it gives the upstream.
use proxy_proxy.Prelude.{
  ℕ, List, [], ◌++◌, Option, none, some, true, false, ◌≡◌, ◌≢◌, refl, sym, ◌∙◌, Memᴰ, inl, inr,
  arith,
}
use proxy_proxy.Prelude.Tests.{Bool-cases, Option-cases, some_inj}
use proxy_proxy.Prelude.Lists.{get_elem?}
use proxy_proxy.Prelude.Dict.{lookup}
use proxy_proxy.Prelude.Int.{ℤ}
use proxy_proxy.Prelude.Text.{
  Str, lit, is_empty, str_eq, is_empty_of_ne, to_lower, has_prefix, eq-nil_of_is_empty,
}
use proxy_proxy.Config.Types.{Sub, Upstream, is_sub_url}
use proxy_proxy.Config.Source.{Platform, Url}
use proxy_proxy.Config.RelaySubs.{
  Resolving, relay_interval, shorten, name_at, add_relay_sub, resolve_upstream,
}
use proxy_proxy.Config.RelaySubs.Lists.{mem-shorten, shorten-at}
use mathlib.Core.List.Memᴰ
use proxy_proxy.Config.RelaySubs.Invariant.{
  IsResolving, Extends, IsResolved, relay_sub_name-fresh, relay_interval-bound, shorten-IsResolving,
  true-ne-false, append-IsResolving,
}

nameless_ne :
    {o : Option Url} {u v : Url}
    → is_empty u.hostname ≡ true
    → o ≡ some u
    → o ≡ some v
    → ¬ (v.hostname ≢ [])
nameless_ne {u} {v} empty a b ne =
    let same = some_inj (sym a ∙ b) in
    let full = is_empty_of_ne v.hostname ne in
    let also : is_empty v.hostname ≡ true = rw (← same) empty in cc

is_empty_ne : {s : Str} → is_empty s ≡ true → ¬ (s ≢ [])
is_empty_ne {s} h ne = let full = is_empty_of_ne s ne in cc

is_sub_url-empty : (s : Str) → is_empty s ≡ true → is_sub_url s ≡ false
unfolding is_sub_url to_lower lit has_prefix
is_sub_url-empty s h = let e = eq-nil_of_is_empty s h in rw e refl

-- Without what the walk sets.
abbrev pub unresolved : Upstream → Upstream
unresolved up = record up { sub_name = [] }

-- One step of the walk keeps the invariant, and the subs so far.
abbrev pub IsStep : Platform → List Str → Resolving → Upstream → Upstream × Resolving → Type 0
IsStep p names st up (up', st') =
    IsResolving names st'
    × Extends st.relay_subs st'.relay_subs
    × IsResolved p st'.relay_subs up'
    × (unresolved up' ≡ unresolved up)

pub Extends-refl : (subs : List Sub) → Extends subs subs
Extends-refl subs s m = (s, m, (refl, refl, omega arith))

Extends-append : (subs more : List Sub) → Extends subs (subs ++ more)
Extends-append subs more s m = (s, Memᴰ.append_left more m, (refl, refl, omega arith))

add_relay_sub-IsStep :
    (p : Platform) (names : List Str) (up : Upstream) (st : Resolving)
    → is_sub_url up.sub ≡ true
    → lookup up.sub st.by_url ≡ none
    → IsResolving names st
    → IsStep p names st up (add_relay_sub p up.sub (relay_interval up.interval) up st)
unfolding add_relay_sub
add_relay_sub-IsStep p names up st url new h = elim (Option-cases (p.parse up.sub)) [
  | inl bad ↦
      rw (bad, add_relay_sub)
        (h, Extends-refl st.relay_subs, (λ no. absurd (cc), λ yes u parsed. absurd (cc)), refl)
  | inr (u, parsed) ↦ elim (Bool-cases (is_empty u.hostname)) [
    | inl nameless ↦
        rw (parsed, nameless, add_relay_sub)
          (
            h,
            Extends-refl st.relay_subs,
            (
              λ no. absurd (cc),
              λ yes v parsed' ne. absurd (nameless_ne nameless parsed parsed' ne),
            ),
            refl,
          )
    | inr named ↦
        rw (parsed, named, add_relay_sub)
          (
            append-IsResolving names _ st (relay_sub_name-fresh st.seen u.hostname) new
                (relay_interval-bound up.interval).0 h,
            Extends-append st.relay_subs _,
            (
              λ no. absurd (cc),
              λ yes v parsed' ne. (
                _,
                Memᴰ.append_right st.relay_subs (Memᴰ.head refl),
                refl,
                refl,
                (relay_interval-bound up.interval).1 _ (omega arith),
              ),
            ),
            refl,
          )
  ]
]

Extends-shorten : (k : ℕ) (i : ℤ) (subs : List Sub) → Extends subs (shorten k i subs)
Extends-shorten k i subs s m = mem-shorten k i subs s m

name_at-eq :
    (subs : List Sub) (k : ℕ) (s : Sub) → get_elem? subs k ≡ some s → name_at subs k ≡ s.name
unfolding name_at
name_at-eq subs k s h = rw (h, name_at) refl

found-IsStep :
    (p : Platform) (names : List Str) (up : Upstream) (st : Resolving) (k : ℕ)
    → is_sub_url up.sub ≡ true
    → lookup up.sub st.by_url ≡ some k
    → IsResolving names st
    → IsStep p names st up (
      record up { sub_name = name_at st.relay_subs k },
      record st { relay_subs = shorten k (relay_interval up.interval) st.relay_subs },
    )
found-IsStep p names up st k url found h =
    let i = relay_interval up.interval in
    let (s, at_k, same) = h.indexed up.sub k found in
    let (t, m, n, u, le) = shorten-at k i st.relay_subs s at_k in
    (
      shorten-IsResolving names k i st (relay_interval-bound up.interval).0 h,
      Extends-shorten k i st.relay_subs,
      (
        λ no. absurd (cc),
        λ yes v parsed ne. (
          t,
          m,
          n ∙ sym (name_at-eq st.relay_subs k s at_k),
          u ∙ same,
          (relay_interval-bound up.interval).1 t.interval le,
        ),
      ),
      refl,
    )

pub resolve_upstream-IsStep :
    (p : Platform) (names : List Str) (up : Upstream) (st : Resolving)
    → IsResolving names st
    → IsStep p names st up (resolve_upstream p up st)
unfolding resolve_upstream
resolve_upstream-IsStep p names up st h = elim (Bool-cases (is_empty up.sub)) [
  | inl empty ↦
      rw (empty, resolve_upstream)
        (
          h,
          Extends-refl st.relay_subs,
          (
            λ no ne. absurd (is_empty_ne empty ne),
            λ yes. absurd (true-ne-false (sym yes ∙ is_sub_url-empty up.sub empty)),
          ),
          refl,
        )
  | inr full ↦ elim (Bool-cases (is_sub_url up.sub)) [
    | inr plain ↦
        rw (full, plain, resolve_upstream)
          (h, Extends-refl st.relay_subs, (λ no ne. refl, λ yes. absurd (cc)), refl)
    | inl url ↦ elim (Option-cases (lookup up.sub st.by_url)) [
      | inl new ↦
          rw (full, url, new, resolve_upstream) (add_relay_sub-IsStep p names up st url new h)
      | inr (k, found) ↦
          rw (full, url, found, resolve_upstream) (found-IsStep p names up st k url found h)
    ]
  ]
]
