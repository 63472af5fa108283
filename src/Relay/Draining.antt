-- ===== src/Relay/Draining.antt =====
-- internal/relay/core.go: how connections on changed routes are found, drained and closed.
pub mod Moved
pub mod Marks
pub mod Deadlines
use proxy_proxy.Prelude.{
  ℕ, suc, ◌+◌, ◌*◌, List, [], ◌∷◌, ◌++◌, Option, none, some, Bool, true, false, not, ◌&&◌, ◌||◌,
}
use proxy_proxy.Prelude.Tests.{if◌then◌else◌, ltb, Eq, ◌==◌, Result, ok, err, ◌>>=◌}
use proxy_proxy.Prelude.Dict.{Dict, lookup, insert, remove}
use proxy_proxy.Prelude.Member.{contains}
use proxy_proxy.Prelude.Text.{Str, lit, str_eq}
use proxy_proxy.Node.Value.{object, Object, get}
use proxy_proxy.Node.Sprint.{str, sprint}
use proxy_proxy.Relay.Render.{Route, route_eq, RouteTarget, Desired}
use proxy_proxy.Relay.Mihomo.{
  ApplyError, ApplyStats, Command, Core, Failed, Groups, LiveGroup, LiveProxy, Mihomo, Proxies,
  Tracker, apply_general, close_provider, drain_timeout, group_error, initial, key_of,
  listener_error, name_of, new_core, patch_listeners, proxy_error, rule_error, shut_down,
  update_proxies, update_rules,
}

module _ (M : Mihomo) where
  -- Whether two live proxies are one object; the missing proxy is nil.
  unfoldable pub same_object : Option (LiveProxy M) → Option (LiveProxy M) → Bool
  same_object none none = true
  same_object none (some q) = false
  same_object (some p) none = false
  same_object (some p) (some q) = M.proxy_eq.beq p.proxy q.proxy

  -- `d.members[name]`; a missing key reads as no members.
  unfoldable pub members_of : Desired → Str → List Str
  members_of d name = elim (lookup name d.members) [ none ↦ [] | some names ↦ names ]

  -- A missing route reads as the zero value.
  unfoldable pub target_at : Dict Route RouteTarget → Route → RouteTarget
  target_at m r = elim (lookup r m) [ none ↦ record { password = []; target = [] } | some t ↦ t ]

  abbrev pub route_differs : Dict Route RouteTarget → Dict Route RouteTarget → Route → Bool
  route_differs m n r =
      let s = target_at m r in
      let t = target_at n r in not (s.password == t.password && s.target == t.target)

  -- `chain[len(chain)-1]` of the chain with this head
  unfoldable pub last_of : Str → List Str → Str
  last_of x [] = x
  last_of x (y ∷ ys) = last_of y ys

  -- `stale`, where `now` is `c.current`
  unfoldable pub stale : Core M → Desired → Tracker → Desired → Dict Str (LiveProxy M) → Bool
  unfolding target_at last_of members_of same_object
  stale c now t d proxies =
      if route_differs now.routes d.routes (record { listener = t.in_name; username = t.in_user })
      then true
      else elim t.chain [
        | [] ↦ false
        | proxy ∷ rest ↦
            if not (contains (members_of d (last_of proxy rest)) proxy)
            then true
            else not (same_object (lookup proxy c.proxies) (lookup proxy proxies))
      ]

  -- The loop of `markStale`, with the number of connections that it has marked.
  unfoldable pub mark_each :
      Core M
      → Desired
      → ℕ
      → Desired
      → Dict Str (LiveProxy M)
      → List Tracker
      → Dict Str ℕ
      → Dict Str ℕ × ℕ
  unfolding stale
  mark_each c now deadline d proxies [] draining = (draining, 0)
  mark_each c now deadline d proxies (t ∷ ts) draining =
      let marks =
        (elim (lookup t.id draining) as (λ o. Bool) [ none ↦ true | some w ↦ false ])
        && stale c now t d proxies in
      let draining' = if marks then insert t.id deadline draining else draining in
      let (rest, n) = mark_each c now deadline d proxies ts draining' in
      (rest, if marks then suc n else n)

  -- `markStale` at a time, with the connections that are open
  unfoldable pub mark_stale :
      Core M → ℕ → List Tracker → Desired → Dict Str (LiveProxy M) → Dict Str ℕ × ℕ
  unfolding mark_each
  mark_stale c time open_now d proxies = elim c.current [
    | none ↦ (c.draining, 0)
    | some now ↦ mark_each c now (time + drain_timeout) d proxies open_now c.draining
  ]

-- `sweep` at a time: the deadlines that are left, and the connections that it closes. A connection
-- that mihomo no longer tracks has finished on its own.
unfoldable pub sweep : ℕ → (Str → Bool) → Dict Str ℕ → Dict Str ℕ × List Str
sweep time tracked [] = ([], [])
sweep time tracked ((id, deadline) ∷ draining) =
    let (rest, closed) = sweep time tracked draining in
    if not (tracked id)
    then (rest, closed)
    else if not (ltb time deadline)
    then (rest, id ∷ closed)
    else ((id, deadline) ∷ rest, closed)

-- The loop of `nextDeadline`; none stands for `ok` being false.
unfoldable pub next_from : Option ℕ → Dict Str ℕ → Option ℕ
next_from next [] = next
next_from next ((id, deadline) ∷ draining) =
    next_from
      (elim next [
        | none ↦ some deadline
        | some n ↦ if ltb deadline n then some deadline else some n
      ])
      draining

unfoldable pub next_deadline : Dict Str ℕ → Option ℕ
unfolding next_from
next_deadline draining = next_from none draining
