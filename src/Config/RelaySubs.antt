-- ===== src/Config/RelaySubs.antt =====
-- internal/config/config.go: `resolveRelaySubs`, which gives each URL that relay upstreams name a sub
-- of its own.
pub mod Lists
pub mod Invariant
pub mod Step
pub mod Asked
pub mod Laws
use proxy_proxy.Prelude.{
  ℕ, zero, suc, ◌+◌, ◌*◌, ◌^◌, List, [], ◌∷◌, ◌++◌, map, Option, none, some, Bool, true, false, not,
}
use proxy_proxy.Prelude.Tests.{if◌then◌else◌}
use proxy_proxy.Prelude.Lists.{length, get_elem?}
use proxy_proxy.Prelude.Dict.{Dict, lookup, insert}
use proxy_proxy.Prelude.Int.{ℤ, pos, leb_ℤ, min_ℤ, max_ℤ}
use proxy_proxy.Prelude.Fresh.{free_name}
use proxy_proxy.Prelude.Text.{Str, lit, is_empty, str_eq}
use proxy_proxy.Prelude.Text.Numeral.{itoa}
use proxy_proxy.Config.Types.{Sub, Upstream, Relay, Config, is_sub_url}
use proxy_proxy.Config.Source.{Platform}

abbrev pub second : ℕ
second = 1000000000

abbrev pub minute : ℕ
minute = 60000000000

abbrev pub hour : ℕ
hour = 3600000000000

-- `fmt.Sprintf("%s-%d", base, n)`
abbrev pub dashed : Str → ℕ → Str
dashed base n = base ++ (b'-' ∷ itoa (pos n))

-- `seenNames`, `byURL` and `RelaySubs` while the upstreams are walked.
pub record Resolving : Type 0 where
  pub seen : List Str
  pub by_url : Dict Str ℕ
  pub relay_subs : List Sub

unfoldable pub relay_interval : ℤ → ℤ
relay_interval interval =
    let i = if leb_ℤ interval (pos 0) then pos hour else interval in max_ℤ i (pos minute)

-- `c.RelaySubs[k].Interval = min(c.RelaySubs[k].Interval, interval)`
unfoldable pub shorten : ℕ → ℤ → List Sub → List Sub
shorten k interval [] = []
shorten zero interval (s ∷ subs) = record s { interval = min_ℤ s.interval interval } ∷ subs
shorten (suc k) interval (s ∷ subs) = s ∷ shorten k interval subs

unfoldable pub name_at : List Sub → ℕ → Str
name_at subs k = elim (get_elem? subs k) [ none ↦ [] | some s ↦ s.name ]

-- The name for a URL, not in use. The loop always ends, so the last case does not arise.
unfoldable pub relay_sub_name : List Str → Str → Str
unfolding lit
relay_sub_name seen hostname =
    let base = lit "relay:" ++ hostname in
    elim (free_name seen (dashed base) base) [ some name ↦ name | none ↦ base ]

-- A URL that no upstream before has named.
unfoldable pub add_relay_sub : Platform → Str → ℤ → Upstream → Resolving → Upstream × Resolving
unfolding relay_sub_name lit
add_relay_sub p url interval up st = elim (p.parse url) [
  | none ↦ (up, st)
  | some u ↦
      if is_empty u.hostname
      then (up, st)
      else let name = relay_sub_name st.seen u.hostname in
        (
          record up { sub_name = name },
          record {
            seen = st.seen ++ name ∷ [];
            by_url = insert url (length st.relay_subs) st.by_url;
            relay_subs =
                st.relay_subs
                ++ record {
                  name = name;
                  url = url;
                  file = [];
                  typ = lit "auto";
                  interval = interval;
                }
                  ∷ [];
          },
        )
]

unfoldable pub resolve_upstream : Platform → Upstream → Resolving → Upstream × Resolving
unfolding is_sub_url relay_interval shorten name_at add_relay_sub
resolve_upstream p up st =
    if is_empty up.sub
    then (up, st)
    else if not (is_sub_url up.sub)
    then (record up { sub_name = up.sub }, st)
    else let interval = relay_interval up.interval in
      elim (lookup up.sub st.by_url) [
        | some k ↦ (
          record up { sub_name = name_at st.relay_subs k },
          record st { relay_subs = shorten k interval st.relay_subs },
        )
        | none ↦ add_relay_sub p up.sub interval up st
      ]

unfoldable pub resolve_upstreams : Platform → List Upstream → Resolving → List Upstream × Resolving
unfolding resolve_upstream
resolve_upstreams p [] st = ([], st)
resolve_upstreams p (up ∷ ups) st =
    let (up', st') = resolve_upstream p up st in
    let (ups', st'') = resolve_upstreams p ups st' in (up' ∷ ups', st'')

unfoldable pub resolve_relays : Platform → List Relay → Resolving → List Relay × Resolving
unfolding resolve_upstreams
resolve_relays p [] st = ([], st)
resolve_relays p (r ∷ rs) st =
    let (ups, st') = resolve_upstreams p r.upstream st in
    let (rs', st'') = resolve_relays p rs st' in (record r { upstream = ups } ∷ rs', st'')

unfoldable pub resolve_relay_subs : Platform → List Str → Config → Config
unfolding resolve_relays
resolve_relay_subs p seen c =
    let (relays, st) =
      resolve_relays p c.relays (record { seen = seen; by_url = []; relay_subs = c.relay_subs }) in
    record c { relays = relays; relay_subs = st.relay_subs }
