-- ===== src/Relay/Render/Written.antt =====
-- The routes of a plan are those that its listeners write.
use proxy_proxy.Prelude.{List, [], ◌∷◌, some, ◌≡◌, ◌≢◌, refl, sym, inl, inr, ◌⊎◌, Memᴰ}
use proxy_proxy.Prelude.Tests.{Bool-cases, ◌==◌, eq_of_beq}
use proxy_proxy.Prelude.Dict.{Dict, lookup, insert, lookup-insert}
use proxy_proxy.Prelude.Text.{Str, str_eq, is_empty, is_empty_of_eq}
use proxy_proxy.Relay.Types.{Endpoint, ListenerSpec}
use proxy_proxy.Relay.Render.{
  Route, route_eq, RouteTarget, Listening, add_user, add_users, add_listener, add_listeners,
}

module _ (target : Dict Str Str) where
  -- A route of the map was there before, or is one that a listener writes.
  abbrev pub WrittenBy : ListenerSpec → Route → Type 0
  WrittenBy l k =
      ((l.relay ≢ []) × (k ≡ record { listener = l.name; username = [] }))
      ⊎ ((u : Endpoint) × Memᴰ u l.users
          × (k ≡ record { listener = l.name; username = u.username }))

  insert-was :
      (r k : Route) (v w : RouteTarget) (m : Dict Route RouteTarget)
      → lookup k (insert r v m) ≡ some w
      → (k ≡ r) ⊎ (lookup k m ≡ some w)
  insert-was r k v w m q = elim (Bool-cases (r == k)) [
    | inl same ↦ inl (sym (eq_of_beq r k same))
    | inr other ↦ inr (rw (lookup-insert r k v m, other) at q)
  ]

  add_users-was :
      (name : Str) (us : List Endpoint) (s : Listening) (k : Route) (w : RouteTarget)
      → lookup k (add_users target name us s).routes ≡ some w
      → (lookup k s.routes ≡ some w)
        ⊎ ((u : Endpoint) × Memᴰ u us × (k ≡ record { listener = name; username = u.username }))
  unfolding add_users add_user
  add_users-was name [] s k w q = inl q
  add_users-was name (u ∷ us) s k w q =
      elim (add_users-was name us (add_user target name u s) k w q) [
        | inr (v, m, e) ↦ inr (v, Memᴰ.tail m, e)
        | inl now ↦ elim (insert-was _ k _ w s.routes now) [
          | inl e ↦ inr (u, Memᴰ.head refl, e)
          | inr old ↦ inl old
        ]
      ]

  add_listener-was :
      (l : ListenerSpec) (s : Listening) (k : Route) (w : RouteTarget)
      → lookup k (add_listener target l s).routes ≡ some w
      → (lookup k s.routes ≡ some w) ⊎ WrittenBy l k
  unfolding add_listener
  add_listener-was l s k w q = elim (Bool-cases (is_empty l.relay)) [
    | inl users ↦ elim (add_users-was l.name l.users s k w (rw users at q)) [
      | inl old ↦ inl old
      | inr more ↦ inr (inr more)
    ]
    | inr one ↦ elim (insert-was _ k _ w s.routes (rw one at q)) [
      | inl e ↦ inr (inl (λ none_here. let bad = is_empty_of_eq l.relay none_here in cc, e))
      | inr old ↦ inl old
    ]
  ]

  pub add_listeners-was :
      (ls : List ListenerSpec) (s : Listening) (k : Route) (w : RouteTarget)
      → lookup k (add_listeners target ls s).routes ≡ some w
      → (lookup k s.routes ≡ some w) ⊎ ((l : ListenerSpec) × Memᴰ l ls × WrittenBy l k)
  unfolding add_listeners
  add_listeners-was [] s k w q = inl q
  add_listeners-was (l ∷ ls) s k w q = elim (add_listeners-was ls (add_listener target l s) k w q) [
    | inr (l', m, by) ↦ inr (l', Memᴰ.tail m, by)
    | inl now ↦ elim (add_listener-was l s k w now) [
      | inl old ↦ inl old
      | inr by ↦ inr (l, Memᴰ.head refl, by)
    ]
  ]
