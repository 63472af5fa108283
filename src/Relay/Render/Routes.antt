-- ===== src/Relay/Render/Routes.antt =====
-- The routes of a plan: what the loops over the listeners and their users leave in the map.
use proxy_proxy.Prelude.{
  List, [], ◌∷◌, map, some, false, ◌≡◌, ◌≢◌, refl, sym, ap, ◌∙◌, inl, inr, arith, Memᴰ,
}
use proxy_proxy.Prelude.Tests.{Bool-cases, ◌==◌, eq_of_beq, beq_of_eq}
use proxy_proxy.Prelude.Dict.{Dict, lookup, insert, lookup-insert, lookup-insert_self}
use proxy_proxy.Prelude.Member.{contains, IsDistinct}
use proxy_proxy.Prelude.Text.{Str, str_eq, is_empty}
use proxy_proxy.Relay.Types.{Endpoint, ListenerSpec}
use proxy_proxy.Relay.Render.{
  Route, route_eq, RouteTarget, target_of, Listening, add_user, add_users, add_listener,
  add_listeners,
}

abbrev pub listener_names : List ListenerSpec → List Str
listener_names ls = map (λ l. l.name) ls

abbrev usernames : List Endpoint → List Str
usernames us = map (λ u. u.username) us

insert-other :
    (r k : Route) (v : RouteTarget) (m : Dict Route RouteTarget)
    → r ≢ k
    → lookup k (insert r v m) ≡ lookup k m
insert-other r k v m ne = elim (Bool-cases (r == k)) [
  | inl same ↦ absurd (ne (eq_of_beq r k same))
  | inr other ↦ rw (lookup-insert r k v m, other) refl
]

usernames-differ :
    (xs : List Endpoint) (x y : Endpoint)
    → contains (usernames xs) x.username ≡ false
    → Memᴰ y xs
    → y.username ≢ x.username
unfolding contains
usernames-differ [] x y f m q = elim m [ ]
usernames-differ (z ∷ xs) x y f (Memᴰ.head p) q =
    let e = beq_of_eq x.username z.username (sym q ∙ ap (λ (w : Endpoint). w.username) p) in
    ground (arith, e)
usernames-differ (z ∷ xs) x y f (Memᴰ.tail m) q = usernames-differ xs x y (ground arith) m q

module _ (target : Dict Str Str) where
  -- The loop over the users writes only their routes.
  add_users-other :
      (name : Str) (us : List Endpoint) (s : Listening) (k : Route)
      → ((u : Endpoint)
          → Memᴰ u us
          → ◌≢◌ {A = Route} (record { listener = name; username = u.username }) k)
      → lookup k (add_users target name us s).routes ≡ lookup k s.routes
  unfolding add_users add_user
  add_users-other name [] s k ne = refl
  add_users-other name (u ∷ us) s k ne =
      add_users-other name us (add_user target name u s) k (λ u' m. ne u' (Memᴰ.tail m))
      ∙ insert-other _ k _ s.routes (ne u (Memᴰ.head refl))

  add_users-mem :
      (name : Str) (us : List Endpoint) (s : Listening) {u : Endpoint}
      → IsDistinct (usernames us)
      → Memᴰ u us
      → lookup
          (record { listener = name; username = u.username })
          (add_users target name us s).routes
        ≡ some (record { password = u.password; target = target_of target u.relay })
  unfolding add_users add_user
  add_users-mem name [] s d m = elim m [ ]
  add_users-mem name (v ∷ us) s {u} (fresh, d) (Memᴰ.tail m) =
      add_users-mem name us (add_user target name v s) d m
  add_users-mem name (v ∷ us) s {u} (fresh, d) (Memᴰ.head same) = rw same (
      add_users-other name us (add_user target name v s) _ (λ u' m q.
        let eq = ap (λ (r : Route). r.username) q in absurd (usernames-differ us v u' fresh m eq))
      ∙ lookup-insert_self _ _ s.routes)

  -- A listener writes only its own routes.
  add_listener-other :
      (l : ListenerSpec) (s : Listening) (k : Route)
      → l.name ≢ k.listener
      → lookup k (add_listener target l s).routes ≡ lookup k s.routes
  unfolding add_listener
  add_listener-other l s k ne = elim (Bool-cases (is_empty l.relay)) [
    | inl users ↦
        rw users
          (add_users-other l.name l.users s k (λ u m q. ne (ap (λ (r : Route). r.listener) q)))
    | inr one ↦ rw one (insert-other _ k _ s.routes (λ q. ne (ap (λ (r : Route). r.listener) q)))
  ]

  add_listeners-other :
      (ls : List ListenerSpec) (s : Listening) (k : Route)
      → contains (listener_names ls) k.listener ≡ false
      → lookup k (add_listeners target ls s).routes ≡ lookup k s.routes
  unfolding add_listeners contains
  add_listeners-other [] s k h = refl
  add_listeners-other (l ∷ ls) s k h =
      add_listeners-other ls (add_listener target l s) k (ground arith)
      ∙ add_listener-other l s k (ground (arith, beq_of_eq k.listener l.name))

  -- The routes of a listener are what it has written itself.
  add_listeners-mem :
      (ls : List ListenerSpec) (s : Listening) {l : ListenerSpec} (k : Route)
      → IsDistinct (listener_names ls)
      → Memᴰ l ls
      → l.name ≡ k.listener
      → (s' : Listening) × (lookup k (add_listeners target ls s).routes
          ≡ lookup k (add_listener target l s').routes)
  unfolding add_listeners
  add_listeners-mem [] s k d m q = elim m [ ]
  add_listeners-mem (l' ∷ ls) s {l} k (fresh, d) (Memᴰ.tail m) q =
      add_listeners-mem ls (add_listener target l' s) k d m q
  add_listeners-mem (l' ∷ ls) s {l} k (fresh, d) (Memᴰ.head same) q = (
    s,
    rw same (
        add_listeners-other ls (add_listener target l' s) k
          (rw (sym q ∙ ap (λ (x : ListenerSpec). x.name) same) fresh)),
  )

  -- A caller of a listener without users goes where its relay does.
  pub route_of_relay :
      (ls : List ListenerSpec) (s : Listening) {l : ListenerSpec}
      → IsDistinct (listener_names ls)
      → Memᴰ l ls
      → is_empty l.relay ≡ false
      → lookup (record { listener = l.name; username = [] }) (add_listeners target ls s).routes
        ≡ some (record { password = []; target = target_of target l.relay })
  unfolding add_listener
  route_of_relay ls s {l} d m one =
      let (s', same) =
        add_listeners-mem ls s (record { listener = l.name; username = [] }) d m refl in
      same ∙ rw one (lookup-insert_self _ _ s'.routes)

  -- A user of a listener goes where the user's relay does.
  pub route_of_user :
      (ls : List ListenerSpec) (s : Listening) {l : ListenerSpec} {u : Endpoint}
      → IsDistinct (listener_names ls)
      → Memᴰ l ls
      → l.relay ≡ []
      → IsDistinct (usernames l.users)
      → Memᴰ u l.users
      → lookup
          (record { listener = l.name; username = u.username })
          (add_listeners target ls s).routes
        ≡ some (record { password = u.password; target = target_of target u.relay })
  unfolding add_listener
  route_of_user ls s {l} {u} d m shared d' mu =
      let (s', same) =
        add_listeners-mem ls s (record { listener = l.name; username = u.username }) d m refl in
      same ∙ rw shared (add_users-mem l.name l.users s' d' mu)
