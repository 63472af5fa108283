-- ===== src/Relay/Draining/Moved.antt =====
-- Which open connections a new state moves: the cases of `stale`, without its order of tests.
use proxy_proxy.Prelude.{
  List, [], ◌∷◌, ◌++◌, Option, none, some, true, false, not, ◌&&◌, ◌⊎◌, inl, inr, ◌≡◌, ◌≢◌, ◌↔◌,
  refl, sym, ap, ◌∙◌, arith, Memᴰ,
}
use proxy_proxy.Prelude.Tests.{if◌then◌else◌, Bool-cases, Option-cases, some_inj, beq_refl}
use proxy_proxy.Prelude.Dict.{Dict, lookup}
use proxy_proxy.Prelude.Member.{contains, contains_of_mem, mem_of_contains}
use proxy_proxy.Prelude.Text.{Str, str_eq, str_beq_iff}
use proxy_proxy.Relay.Render.{Route, route_eq, RouteTarget, Desired}
use proxy_proxy.Relay.Draining.{same_object, members_of, target_at, route_differs, last_of, stale}
use proxy_proxy.Relay.Mihomo.{Mihomo, LiveProxy, Core, Tracker}

-- A route that is not in the map has no password and no target.
abbrev pub HasRoute : Dict Route RouteTarget → Route → RouteTarget → Type 0
HasRoute m r t =
    (lookup r m ≡ some t) ⊎ ((lookup r m ≡ none) × (t ≡ record { password = []; target = [] }))

module _ (M : Mihomo) where
  target_at-HasRoute : (m : Dict Route RouteTarget) (r : Route) → HasRoute m r (target_at M m r)
  unfolding target_at
  target_at-HasRoute m r = elim (Option-cases (lookup r m)) [
    | inl missing ↦ rw (missing, target_at) (inr (refl, refl))
    | inr (t, found) ↦ rw (found, target_at) (inl refl)
  ]

  HasRoute-target_at :
      (m : Dict Route RouteTarget) (r : Route) (t : RouteTarget)
      → HasRoute m r t
      → t ≡ target_at M m r
  unfolding target_at
  HasRoute-target_at m r t (inl found) = rw (found, target_at) refl
  HasRoute-target_at m r t (inr (missing, is)) = rw (missing, target_at) is

  last_of-split :
      (x : Str) (xs : List Str) → (front : List Str) × (x ∷ xs ≡ front ++ last_of M x xs ∷ [])
  unfolding last_of
  last_of-split x [] = ([], refl)
  last_of-split x (y ∷ ys) = let (front, q) = last_of-split y ys in (x ∷ front, ap (◌∷◌ x) q)

  last_of-snoc : (x g : Str) (xs front : List Str) → x ∷ xs ≡ front ++ g ∷ [] → last_of M x xs ≡ g
  unfolding last_of
  last_of-snoc x g [] [] q = cc
  last_of-snoc x g [] (f ∷ []) q = absurd (cc)
  last_of-snoc x g [] (f ∷ (h ∷ front)) q = absurd (cc)
  last_of-snoc x g (y ∷ ys) [] q = absurd (cc)
  last_of-snoc x g (y ∷ ys) (f ∷ front) q = last_of-snoc y g ys front (cc)

  -- Both are nil, or both are one object.
  abbrev pub IsSameProxy : Option (LiveProxy M) → Option (LiveProxy M) → Type 0
  IsSameProxy o o' =
      ((o ≡ none) × (o' ≡ none))
      ⊎ ((p : LiveProxy M) × (q : LiveProxy M) × (o ≡ some p) × (o' ≡ some q) × (p.proxy ≡ q.proxy))

  same_object_iff : (o o' : Option (LiveProxy M)) → (same_object M o o' ≡ true) ↔ IsSameProxy o o'
  unfolding same_object
  same_object_iff none none = (λ h. inl (refl, refl), λ h. refl)
  same_object_iff none (some q) = (
    λ h. absurd (cc),
    λ h. elim h [ inl (_, bad) ↦ absurd (cc) | inr (p, q', bad, _, _) ↦ absurd (cc) ],
  )
  same_object_iff (some p) none = (
    λ h. absurd (cc),
    λ h. elim h [ inl (bad, _) ↦ absurd (cc) | inr (p', q, _, bad, _) ↦ absurd (cc) ],
  )
  same_object_iff (some p) (some q) = (
    λ h. inr (p, q, refl, refl, (M.proxy_eq.beq_iff p.proxy q.proxy).0 h),
    λ h. elim h [
      | inl (bad, _) ↦ absurd (cc)
      | inr (p', q', is, is', same) ↦
          (M.proxy_eq.beq_iff p.proxy q.proxy).1 (rw (some_inj is, some_inj is') same)
    ],
  )

  module _ (c : Core M) (now d : Desired) (proxies : Dict Str (LiveProxy M)) where
    -- The caller's route has the password and the target that it had.
    abbrev pub KeepsRoute : Tracker → Type 0
    KeepsRoute t =
        let r : Route = record { listener = t.in_name; username = t.in_user } in
        (rt : RouteTarget) × HasRoute now.routes r rt × HasRoute d.routes r rt

    -- The connection's upstream, the first of its chain, is a member of the group at the end of the
    -- chain, and is the object that it was.
    abbrev pub KeepsUpstream : Tracker → Type 0
    KeepsUpstream t =
        (proxy group : Str) (rest front : List Str)
        → t.chain ≡ proxy ∷ rest
        → t.chain ≡ front ++ group ∷ []
        → ((names : List Str) × (lookup group d.members ≡ some names) × Memᴰ proxy names)
          × IsSameProxy (lookup proxy c.proxies) (lookup proxy proxies)

    route_iff :
        (t : Tracker)
        → let r : Route = record { listener = t.in_name; username = t.in_user } in
          (target_at M now.routes r ≡ target_at M d.routes r) ↔ KeepsRoute t
    route_iff t =
        let r : Route = record { listener = t.in_name; username = t.in_user } in
        (
          λ q. (
            target_at M now.routes r,
            target_at-HasRoute now.routes r,
            rw q (target_at-HasRoute d.routes r),
          ),
          λ (rt, old, new).
              sym (HasRoute-target_at now.routes r rt old) ∙ HasRoute-target_at d.routes r rt new,
        )

    members_of_iff :
        (group proxy : Str)
        → (contains (members_of M d group) proxy ≡ true)
          ↔ ((names : List Str) × (lookup group d.members ≡ some names) × Memᴰ proxy names)
    unfolding members_of contains
    members_of_iff group proxy = elim (Option-cases (lookup group d.members)) [
      | inl missing ↦ rw (missing, members_of) (λ h. absurd (cc), λ (names, bad, m). absurd (cc))
      | inr (names, found) ↦
          rw (found, members_of)
            (
              λ h. (names, refl, mem_of_contains names proxy h),
              λ (names', is, m). contains_of_mem names (rw (← (some_inj is)) at m),
            )
    ]

    route_differs_iff :
        (r : Route)
        → (route_differs M now.routes d.routes r ≡ false)
          ↔ (target_at M now.routes r ≡ target_at M d.routes r)
    route_differs_iff r =
        let a = target_at M now.routes r in
        let b = target_at M d.routes r in
        (
          λ h.
              let p : a.password ≡ b.password = ground (arith, str_beq_iff a.password b.password) in
              let q : a.target ≡ b.target = ground (arith, str_beq_iff a.target b.target) in
              same_target a b p q,
          λ q. rw (q, beq_refl b.password, beq_refl b.target) refl,
        )
      where
        same_target : (a b : RouteTarget) → a.password ≡ b.password → a.target ≡ b.target → a ≡ b
        same_target a b p q = cc

    -- The tests on the chain, when its upstream is at its head.
    upstream_iff :
        (t : Tracker) (proxy : Str) (rest : List Str)
        → t.chain ≡ proxy ∷ rest
        → ((contains (members_of M d (last_of M proxy rest)) proxy
              && same_object M (lookup proxy c.proxies) (lookup proxy proxies))
            ≡ true)
          ↔ KeepsUpstream t
    upstream_iff t proxy rest is = (
      λ h proxy' group rest' front here ends.
          let at_head : proxy ≡ proxy' = cc in
          let at_end = last_of-snoc proxy group rest front (sym is ∙ ends) in
          (
            (members_of_iff group proxy').0 (rw (← at_head, ← at_end) (ground arith)),
            (same_object_iff (lookup proxy' c.proxies) (lookup proxy' proxies)).0
                (rw (← at_head) (ground arith)),
          ),
      λ keeps.
          let (front, ends) = last_of-split proxy rest in
          let (member, same) = keeps proxy (last_of M proxy rest) rest front is (is ∙ ends) in
          let m = (members_of_iff (last_of M proxy rest) proxy).1 member in
          let o = (same_object_iff (lookup proxy c.proxies) (lookup proxy proxies)).1 same in
          rw (m, o) refl,
    )

    -- `stale` is for the connections that lose their route or their upstream.
    pub stale_iff :
        (t : Tracker) → (stale M c now t d proxies ≡ false) ↔ (KeepsRoute t × KeepsUpstream t)
    unfolding stale
    stale_iff t =
        let r : Route = record { listener = t.in_name; username = t.in_user } in
        elim (Bool-cases (route_differs M now.routes d.routes r)) [
          | inl moved ↦
              rw (moved, stale)
                (
                  λ h. absurd (cc),
                  λ (keeps, _).
                      let q = (route_differs_iff r).1 ((route_iff t).1 keeps) in absurd (cc),
                )
          | inr stays ↦
              let keeps = (route_iff t).0 ((route_differs_iff r).0 stays) in
              by_chain stays keeps t.chain refl
        ]
      where
        nil-ne-cons : {x : Str} {xs : List Str} → [] ≢ x ∷ xs
        nil-ne-cons q = cc

        by_chain :
            route_differs M now.routes d.routes
                (record { listener = t.in_name; username = t.in_user })
              ≡ false
            → KeepsRoute t
            → (chain : List Str) → t.chain ≡ chain
            → (stale M c now t d proxies ≡ false) ↔ (KeepsRoute t × KeepsUpstream t)
        by_chain stays keeps [] is = (
          λ h. (keeps, λ proxy group rest front here ends. absurd (nil-ne-cons (sym is ∙ here))),
          λ h. rw (stays, is, stale) refl,
        )
        by_chain stays keeps (proxy ∷ rest) is =
            let (goes, comes) = upstream_iff t proxy rest is in
            let m = contains (members_of M d (last_of M proxy rest)) proxy in
            let o = same_object M (lookup proxy c.proxies) (lookup proxy proxies) in
            let tests : stale M c now t d proxies ≡ (if not m then true else not o) =
              rw (stays, is, stale) refl in
            (
              λ h.
                  let h' : (if not m then true else not o) ≡ false = rw tests at h in
                  (keeps, goes (ground arith)),
              λ (_, stays'). let both = comes stays' in rw tests (ground arith),
            )
