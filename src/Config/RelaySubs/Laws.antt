-- ===== src/Config/RelaySubs/Laws.antt =====
-- Every URL that relay upstreams name has one relay sub, under a name of its own, and the upstreams
-- that name it share it.
use proxy_proxy.Prelude.{Memᴰ, List, [], ◌∷◌, ◌++◌, map, ◌≡◌, refl, sym}
use proxy_proxy.Prelude.Dict.{lookup}
use proxy_proxy.Prelude.Member.{contains, IsDistinct, All}
use proxy_proxy.Prelude.Text.{Str, str_eq}
use proxy_proxy.Config.Types.{Sub, Upstream, Relay, Config, sub_names, fetched_sub_names}
use proxy_proxy.Config.Source.{Platform}
use proxy_proxy.Config.RelaySubs.{
  Resolving, resolve_upstream, resolve_upstreams, resolve_relays, resolve_relay_subs,
}
use proxy_proxy.Config.RelaySubs.Lists.{urls_of}
use mathlib.Core.List.{append-nil}
use proxy_proxy.Config.RelaySubs.Invariant.{
  AreSlow, IsResolving, Extends, Extends-trans, IsServed-Extends, IsResolved,
}
use proxy_proxy.Config.RelaySubs.Asked.{AreAsked, resolve_relays-AreAsked}
use mathlib.Core.List.Memᴰ
use proxy_proxy.Config.RelaySubs.Step.{Extends-refl, resolve_upstream-IsStep, unresolved}

IsResolved-Extends :
    (p : Platform) (a b : List Sub) (up : Upstream)
    → Extends a b
    → IsResolved p a up
    → IsResolved p b up
IsResolved-Extends p a b up ext (named, served) =
    (named, λ yes u parsed ne. IsServed-Extends a b up ext (served yes u parsed ne))

All-Extends :
    (p : Platform) (a b : List Sub) (ups : List Upstream)
    → Extends a b
    → All (IsResolved p a) ups
    → All (IsResolved p b) ups
All-Extends p a b [] ext h = tt
All-Extends p a b (up ∷ ups) ext (h, hs) =
    (IsResolved-Extends p a b up ext h, All-Extends p a b ups ext hs)

abbrev pub unresolved_relay : Relay → Relay
unresolved_relay r = record r { upstream = map unresolved r.upstream }

-- The walk over some upstreams, or over those of some relays.
abbrev IsWalk : Platform → List Str → Resolving → List Upstream → List Upstream → Resolving → Type 0
IsWalk p names st ups ups' st' =
    IsResolving names st'
    × Extends st.relay_subs st'.relay_subs
    × All (IsResolved p st'.relay_subs) ups'
    × (map unresolved ups' ≡ map unresolved ups)

resolve_upstreams-IsWalk :
    (p : Platform) (names : List Str) (ups : List Upstream) (st : Resolving)
    → IsResolving names st
    → let r = resolve_upstreams p ups st in IsWalk p names st ups r.0 r.1
unfolding resolve_upstreams
resolve_upstreams-IsWalk p names [] st h = (h, Extends-refl st.relay_subs, tt, refl)
resolve_upstreams-IsWalk p names (up ∷ ups) st h =
    let st' = (resolve_upstream p up st).1 in
    let st'' = (resolve_upstreams p ups st').1 in
    let (inv, ext, this, same) = resolve_upstream-IsStep p names up st h in
    let (inv', ext', rest, sames) = resolve_upstreams-IsWalk p names ups st' inv in
    (
      inv',
      Extends-trans st.relay_subs st'.relay_subs st''.relay_subs ext ext',
      (
        IsResolved-Extends p st'.relay_subs st''.relay_subs (resolve_upstream p up st).0 ext' this,
        rest,
      ),
      cc,
    )

-- All upstreams of the relays.
abbrev pub upstreams_of : List Relay → List Upstream
upstreams_of [] = []
upstreams_of (r ∷ rs) = r.upstream ++ upstreams_of rs

All-append :
    (P : Upstream → Type 0) (xs ys : List Upstream) → All P xs → All P ys → All P (xs ++ ys)
All-append P [] ys h k = k
All-append P (x ∷ xs) ys (h, hs) k = (h, All-append P xs ys hs k)

resolve_relays-IsWalk :
    (p : Platform) (names : List Str) (rs : List Relay) (st : Resolving)
    → IsResolving names st
    → let r = resolve_relays p rs st in
      IsResolving names r.1
      × Extends st.relay_subs r.1.relay_subs
      × All (IsResolved p r.1.relay_subs) (upstreams_of r.0)
      × (map unresolved_relay r.0 ≡ map unresolved_relay rs)
unfolding resolve_relays
resolve_relays-IsWalk p names [] st h = (h, Extends-refl st.relay_subs, tt, refl)
resolve_relays-IsWalk p names (r ∷ rs) st h =
    let st' = (resolve_upstreams p r.upstream st).1 in
    let st'' = (resolve_relays p rs st').1 in
    let (inv, ext, these, sames) = resolve_upstreams-IsWalk p names r.upstream st h in
    let (inv', ext', rest, sames') = resolve_relays-IsWalk p names rs st' inv in
    (
      inv',
      Extends-trans st.relay_subs st'.relay_subs st''.relay_subs ext ext',
      All-append _ _ _ (All-Extends p st'.relay_subs st''.relay_subs _ ext' these) rest,
      cc,
    )

mem-upstreams_of :
    (rs : List Relay) (r : Relay) (up : Upstream)
    → Memᴰ r rs
    → Memᴰ up r.upstream
    → Memᴰ up (upstreams_of rs)
mem-upstreams_of [] r up m mu = elim m [ ]
mem-upstreams_of (q ∷ rs) r up (Memᴰ.tail m) mu =
    Memᴰ.append_right q.upstream (mem-upstreams_of rs r up m mu)
mem-upstreams_of (q ∷ rs) r up (Memᴰ.head same) mu =
    Memᴰ.append_left (upstreams_of rs) (rw (← same) mu)

start-IsResolving :
    (names : List Str) (subs : List Sub)
    → subs ≡ []
    → IsDistinct names
    → IsResolving names (record { seen = names; by_url = []; relay_subs = subs })
unfolding lookup contains
start-IsResolving names subs none_yet d = record {
  seen_all = rw none_yet (sym (append-nil names));
  distinct_names = d;
  distinct_urls = rw none_yet tt;
  indexed = λ url k e. absurd (cc);
  complete = λ url e. rw none_yet refl;
  at_least_minute = rw none_yet tt;
}

-- For a configuration without relay subs yet, whose subs have distinct names: after
-- `resolveRelaySubs` all fetched subs have distinct names, the relay subs have distinct URLs, an
-- upstream that names a sub has that name, and one whose URL has a host name has the name of a relay
-- sub with that URL. That sub is refreshed at least as often as the upstream asks for: at most the
-- asked interval apart, an hour where none is asked for, and a minute where less than that is asked
-- for. No relay sub is refreshed more often than once a minute, nor than some upstream with its URL
-- asks for. Nothing else of the relays changes.
pub resolve_relay_subs-IsResolved :
    (p : Platform) (c : Config)
    → c.relay_subs ≡ []
    → IsDistinct (sub_names c)
    → let c' = resolve_relay_subs p (sub_names c) c in
      IsDistinct (fetched_sub_names c')
      × IsDistinct (urls_of c'.relay_subs)
      × AreSlow c'.relay_subs
      × AreAsked (upstreams_of c.relays) c'.relay_subs
      × All (IsResolved p c'.relay_subs) (upstreams_of c'.relays)
      × (map unresolved_relay c'.relays ≡ map unresolved_relay c.relays)
unfolding resolve_relay_subs fetched_sub_names sub_names
resolve_relay_subs-IsResolved p c none_yet d =
    let names = map (λ s. s.name) c.subs in
    let st : Resolving = record { seen = names; by_url = []; relay_subs = c.relay_subs } in
    let (inv, ext, resolved, same) =
      resolve_relays-IsWalk p names c.relays st (start-IsResolving names c.relay_subs none_yet d) in
    let start = start-IsResolving names c.relay_subs none_yet d in
    let asked =
      resolve_relays-AreAsked (upstreams_of c.relays) p names c.relays st
        (mem-upstreams_of c.relays) start (rw none_yet tt) in
    (
      rw (← inv.seen_all) inv.distinct_names,
      inv.distinct_urls,
      inv.at_least_minute,
      asked,
      resolved,
      same,
    )
