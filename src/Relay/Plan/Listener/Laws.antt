-- ===== src/Relay/Plan/Listener/Laws.antt =====
-- What `buildListeners` makes of endpoints that can be told apart.
use proxy_proxy.Prelude.{
  ℕ, List, [], ◌∷◌, ◌++◌, map, some, true, false, ◌≡◌, ◌≢◌, refl, sym, ap, ◌∙◌, Memᴰ, ◌⊎◌, inl, inr,
  arith,
}
use proxy_proxy.Prelude.Tests.{some_inj, nat_eq, ◌==◌, Bool-cases, eq_of_beq, beq_of_eq}
use proxy_proxy.Prelude.Dict.{Dict, lookup}
use proxy_proxy.Prelude.Member.{
  contains, contains_of_mem, IsDistinct, mem-append_unique_left, mem-append_unique_self,
  append_unique, mem_of_contains, mem-append_unique, mem-filter, mem-filter_of,
}
use proxy_proxy.Prelude.Text.{
  Str, lit, is_empty, str_eq, eq-nil_of_is_empty, is_empty_of_ne, is_empty_of_eq,
}
use proxy_proxy.Prelude.Int.{pos}
use proxy_proxy.Prelude.Text.Numeral.{itoa}
use proxy_proxy.Relay.Types.{Endpoint, ListenerSpec}
use proxy_proxy.Relay.Plan.Group.{slice_of, group_by_port}
use proxy_proxy.Relay.Plan.Group.Laws.{
  on_port, IsIncreasing, group_by_port-IsIncreasing, group_by_port-on_port, mem-group_by_port,
}
use proxy_proxy.Relay.Plan.Listener.{
  users_from, listener_of, build_listener, build_each, build_listeners,
}
use mathlib.Core.List.Memᴰ
use mathlib.Core.Path.{subst}

-- Endpoints on one port agree on the listen address and on having a username, and the username
-- tells the relay and the password.
abbrev pub IsIsolated : List Endpoint → Type 0
IsIsolated eps =
    (d e : Endpoint)
    → Memᴰ d eps
    → Memᴰ e eps
    → d.port ≡ e.port
    → (d.listen ≡ e.listen)
      × (is_empty d.username ≡ is_empty e.username)
      × (d.username ≡ e.username → (d.relay ≡ e.relay) × (d.password ≡ e.password))

-- The listener sends a caller with the credentials of `e`, or one without, to the relay of `e`.
pub record Serves (l : ListenerSpec) (e : Endpoint) : Type 0 where
  pub port : l.port ≡ e.port
  pub listen : l.listen ≡ e.listen
  pub without_user : e.username ≡ [] → (l.relay ≡ e.relay) × (l.users ≡ [])
  pub with_user :
      e.username ≢ []
      → (u : Endpoint) × Memᴰ u l.users
        × (u.username ≡ e.username)
        × (u.relay ≡ e.relay)
        × (u.password ≡ e.password)

mem-users_from :
    (seen : List Str) (eps : List Endpoint) {e : Endpoint}
    → Memᴰ e eps
    → Memᴰ e.username seen
      ⊎ ((u : Endpoint) × Memᴰ u (users_from seen eps) × (u.username ≡ e.username))
unfolding users_from
mem-users_from seen [] m = elim m [ ]
mem-users_from seen (f ∷ eps) {e} (Memᴰ.head same) = elim (Bool-cases (contains seen f.username)) [
  | inl old ↦ inl (rw same (mem_of_contains seen f.username old))
  | inr new ↦ inr (f, rw new (Memᴰ.head refl), ap (λ (x : Endpoint). x.username) (sym same))
]
mem-users_from seen (f ∷ eps) {e} (Memᴰ.tail m) = elim (Bool-cases (contains seen f.username)) [
  | inl old ↦ elim (mem-users_from (append_unique seen f.username) eps m) [
    | inl s ↦ elim (mem-append_unique seen f.username e.username s) [
      | inl before ↦ inl before
      | inr q ↦ inl (rw q (mem_of_contains seen f.username old))
    ]
    | inr (u, mu, q) ↦ inr (u, rw old mu, q)
  ]
  | inr new ↦ elim (mem-users_from (append_unique seen f.username) eps m) [
    | inl s ↦ elim (mem-append_unique seen f.username e.username s) [
      | inl before ↦ inl before
      | inr q ↦ inr (f, rw new (Memᴰ.head refl), sym q)
    ]
    | inr (u, mu, q) ↦ inr (u, rw new (Memᴰ.tail mu), q)
  ]
]

users_from-mem :
    (seen : List Str) (eps : List Endpoint) {u : Endpoint}
    → Memᴰ u (users_from seen eps)
    → Memᴰ u eps
unfolding users_from
users_from-mem seen [] m = m
users_from-mem seen (f ∷ eps) m = elim (Bool-cases (contains seen f.username)) [
  | inl old ↦ Memᴰ.tail (users_from-mem (append_unique seen f.username) eps (rw old at m))
  | inr new ↦ elim (Memᴰ.cases_cons (rw new at m)) [
    | inl same ↦ Memᴰ.head same
    | inr rest ↦ Memᴰ.tail (users_from-mem (append_unique seen f.username) eps rest)
  ]
]

listener_of-Serves :
    (port : ℕ) (f : Endpoint) (eps : List Endpoint) {e : Endpoint}
    → IsIsolated (f ∷ eps)
    → ((d : Endpoint) → Memᴰ d (f ∷ eps) → d.port ≡ port)
    → Memᴰ e (f ∷ eps)
    → Serves (listener_of port f eps) e
unfolding listener_of
listener_of-Serves port f eps {e} apart on m =
    let s = apart f e (Memᴰ.head refl) m (on f (Memᴰ.head refl) ∙ sym (on e m)) in
    record {
      port = sym (on e m);
      listen = s.0;
      without_user = λ q.
          let none_here : is_empty f.username ≡ true = s.1 ∙ is_empty_of_eq e.username q in
          rw none_here ((s.2 (eq-nil_of_is_empty f.username none_here ∙ sym q)).0, refl);
      with_user =
          λ q. rw (s.1 ∙ is_empty_of_ne e.username q) (found (mem-users_from [] (f ∷ eps) m));
    }
  where
    found :
        Memᴰ e.username []
          ⊎ ((u : Endpoint) × Memᴰ u (users_from [] (f ∷ eps)) × (u.username ≡ e.username))
        → (u : Endpoint) × Memᴰ u (users_from [] (f ∷ eps))
          × (u.username ≡ e.username)
          × (u.relay ≡ e.relay)
          × (u.password ≡ e.password)
    found (inl bad) = elim bad [ ]
    found (inr (u, mu, q)) =
        let mu' = users_from-mem [] (f ∷ eps) mu in
        let t = (apart u e mu' m (on u mu' ∙ sym (on e m))).2 q in (u, mu, q, t.0, t.1)

-- Every user of the listener is an endpoint that it was built from.
listener_of-users :
    (port : ℕ) (f : Endpoint) (eps : List Endpoint) {u : Endpoint}
    → Memᴰ u (listener_of port f eps).users
    → Memᴰ u (f ∷ eps)
unfolding listener_of
listener_of-users port f eps m = elim (Bool-cases (is_empty f.username)) [
  | inl none_here ↦ elim (rw none_here at m) [ ]
  | inr user ↦ users_from-mem [] (f ∷ eps) (rw user at m)
]

port-listener_of : (p : ℕ) (f : Endpoint) (eps : List Endpoint) → (listener_of p f eps).port ≡ p
unfolding listener_of
port-listener_of p f eps = refl

-- The listeners of `ports`, none of which is without endpoints.
build_each_lem :
    (by_port : Dict ℕ (List Endpoint)) (ports : List ℕ)
    → ((p : ℕ)
        → Memᴰ p ports
        → (f : Endpoint) × (eps : List Endpoint) × (slice_of (lookup p by_port) ≡ f ∷ eps))
    → (ls : List ListenerSpec) × (build_each by_port ports ≡ some ls)
      × (map (λ l. l.port) ls ≡ ports)
      × ((p : ℕ)
          → Memᴰ p ports
          → (l : ListenerSpec) × Memᴰ l ls
            × (build_listener p (slice_of (lookup p by_port)) ≡ some l))
      × ((l : ListenerSpec)
          → Memᴰ l ls
          → (p : ℕ) × Memᴰ p ports × (build_listener p (slice_of (lookup p by_port)) ≡ some l))
unfolding build_each build_listener listener_of
build_each_lem by_port [] h = ([], refl, refl, λ p m. elim m [ ], λ l m. elim m [ ])
build_each_lem by_port (p ∷ ports) h =
    let (f, eps, q) = h p (Memᴰ.head refl) in
    let (ls, built, same, serve, from) = build_each_lem by_port ports (λ k m. h k (Memᴰ.tail m)) in
    let l = listener_of p f eps in
    let here : build_listener p (slice_of (lookup p by_port)) ≡ some l = rw q in
    (
      l ∷ ls,
      rw (here, build_each) (rw (built, build_each)),
      ap (◌∷◌ p) same,
      λ k m. elim (Memᴰ.cases_cons m) [
        | inl k_is ↦ (l, Memᴰ.head refl, rw k_is here)
        | inr rest ↦ let (l', m', b) = serve k rest in (l', Memᴰ.tail m', b)
      ],
      λ k m. elim (Memᴰ.cases_cons m) [
        | inl k_is ↦ (p, Memᴰ.head refl, rw k_is here)
        | inr rest ↦ let (p', m', b) = from k rest in (p', Memᴰ.tail m', b)
      ],
    )

-- A listener is named after its port, either goes to one relay or has users, and its users have
-- different names.
pub record IsBuilt (l : ListenerSpec) : Type 0 where
  pub name : l.name ≡ lit "relay-" ++ itoa (pos l.port)
  pub either : (l.relay ≡ []) ⊎ (l.users ≡ [])
  pub usernames : IsDistinct (map (λ u. u.username) l.users)

users_from-unseen :
    (seen : List Str) (eps : List Endpoint) (name : Str)
    → contains seen name ≡ true
    → contains (map (λ u. u.username) (users_from seen eps)) name ≡ false
unfolding users_from contains
users_from-unseen seen [] name h = refl
users_from-unseen seen (e ∷ eps) name h =
    let ih =
      users_from-unseen (append_unique seen e.username) eps name (
        contains_of_mem _ (mem-append_unique_left seen e.username (mem_of_contains seen name h))) in
    elim (Bool-cases (contains seen e.username)) [
      | inl old ↦ rw old ih
      | inr new ↦ rw new (ground (arith, ih, eq_of_beq name e.username))
    ]

users_from-IsDistinct :
    (seen : List Str) (eps : List Endpoint)
    → IsDistinct (map (λ u. u.username) (users_from seen eps))
unfolding users_from
users_from-IsDistinct seen [] = tt
users_from-IsDistinct seen (e ∷ eps) =
    let ih = users_from-IsDistinct (append_unique seen e.username) eps in
    elim (Bool-cases (contains seen e.username)) [
      | inl old ↦ rw old ih
      | inr new ↦ rw new (
        users_from-unseen (append_unique seen e.username) eps e.username
            (contains_of_mem _ (mem-append_unique_self seen e.username)),
        ih,
      )
    ]

listener_of-IsBuilt : (p : ℕ) (f : Endpoint) (eps : List Endpoint) → IsBuilt (listener_of p f eps)
unfolding listener_of
listener_of-IsBuilt p f eps = elim (Bool-cases (is_empty f.username)) [
  | inl none_here ↦ record {
    name = refl;
    either = inr (rw none_here refl);
    usernames = rw none_here tt;
  }
  | inr user ↦ record {
    name = refl;
    either = inl (rw user refl);
    usernames = rw user (users_from-IsDistinct [] (f ∷ eps));
  }
]

build_listener-IsBuilt :
    (p : ℕ) (eps : List Endpoint) {l : ListenerSpec} → build_listener p eps ≡ some l → IsBuilt l
unfolding build_listener
build_listener-IsBuilt p [] h = absurd (cc)
build_listener-IsBuilt p (f ∷ eps) h = subst IsBuilt (some_inj h) (listener_of-IsBuilt p f eps)

-- The listeners of a plan: there are always some, one to a port in increasing order of ports; each
-- endpoint is served by one; each user of a listener is an endpoint on its port.
pub record AreListeners (eps : List Endpoint) (ls : List ListenerSpec) : Type 0 where
  pub built : build_listeners eps ≡ some ls
  pub ports : IsIncreasing (map (λ l. l.port) ls)
  pub serve : (e : Endpoint) → Memᴰ e eps → (l : ListenerSpec) × Memᴰ l ls × Serves l e
  pub users :
      (l : ListenerSpec) (u : Endpoint)
      → Memᴰ l ls
      → Memᴰ u l.users
      → Memᴰ u eps × (u.port ≡ l.port)
  pub each : (l : ListenerSpec) → Memᴰ l ls → IsBuilt l
  pub open_relay :
      (l : ListenerSpec)
      → Memᴰ l ls
      → l.relay ≢ []
      → (e : Endpoint) × Memᴰ e eps × (e.port ≡ l.port) × (e.username ≡ []) × (e.relay ≡ l.relay)

on_port_cons :
    (p : ℕ) (eps : List Endpoint) {e : Endpoint}
    → Memᴰ e (on_port p eps)
    → (f : Endpoint) × (rest : List Endpoint) × (on_port p eps ≡ f ∷ rest)
on_port_cons p eps {e} m = go (on_port p eps) m refl
  where
    go :
        (l : List Endpoint)
        → Memᴰ e l
        → on_port p eps ≡ l
        → (f : Endpoint) × (rest : List Endpoint) × (on_port p eps ≡ f ∷ rest)
    go [] k q = elim k [ ]
    go (f ∷ rest) k q = (f, rest, q)

mem-on_port :
    (p : ℕ) (eps : List Endpoint) {e : Endpoint}
    → Memᴰ e (on_port p eps)
    → Memᴰ e eps × (e.port ≡ p)
unfolding on_port
mem-on_port p eps m = let (k, q) = mem-filter (λ e. e.port == p) eps m in (k, eq_of_beq _ p q)

mem-on_port_of :
    (p : ℕ) (eps : List Endpoint) {e : Endpoint} → Memᴰ e eps → e.port ≡ p → Memᴰ e (on_port p eps)
unfolding on_port
mem-on_port_of p eps m q = mem-filter_of (λ e. e.port == p) eps m (beq_of_eq _ p q)

listener_on :
    (p : ℕ) (eps : List Endpoint) {l : ListenerSpec} {e : Endpoint}
    → IsIsolated eps
    → build_listener p (on_port p eps) ≡ some l
    → Memᴰ e eps
    → e.port ≡ p
    → Serves l e
unfolding build_listener
listener_on p eps {l} {e} apart b m q =
    let k = mem-on_port_of p eps m q in
    let (f, rest, s) = on_port_cons p eps k in
    let b' : some (listener_of p f rest) ≡ some l = rw (s, build_listener) at b in
    subst (λ l'. Serves l' e) (some_inj b')
      (listener_of-Serves p f rest
        (λ d d' md md' same.
          apart d d' (mem-on_port p eps {e = d} (rw s md)).0
            (mem-on_port p eps {e = d'} (rw s md')).0 same)
        (λ d md. (mem-on_port p eps {e = d} (rw s md)).1) (rw s at k))

listener_on-users :
    (p : ℕ) (eps : List Endpoint) (l : ListenerSpec) (u : Endpoint)
    → build_listener p (on_port p eps) ≡ some l
    → Memᴰ u l.users
    → Memᴰ u eps × (u.port ≡ l.port)
unfolding build_listener
listener_on-users p eps l u b m = go (on_port p eps) refl (λ e k. mem-on_port p eps k)
  where
    go :
        (list : List Endpoint)
        → on_port p eps ≡ list
        → ((e : Endpoint) → Memᴰ e list → Memᴰ e eps × (e.port ≡ p))
        → Memᴰ u eps × (u.port ≡ l.port)
    go [] q sound = cc (ap (build_listener p) q, b)
    go (f ∷ rest) q sound =
        let b' : some (listener_of p f rest) ≡ some l = rw (q, build_listener) at b in
        let same = some_inj b' in
        let (k, r) =
          sound u (listener_of-users p f rest (subst (λ l'. Memᴰ u l'.users) (sym same) m)) in
        (k, r ∙ (sym (port-listener_of p f rest) ∙ ap (λ (l' : ListenerSpec). l'.port) same))

-- A listener for one relay comes from an endpoint without a username.
listener_of-open :
    (p : ℕ) (f : Endpoint) (eps : List Endpoint)
    → (listener_of p f eps).relay ≢ []
    → (f.username ≡ []) × (f.relay ≡ (listener_of p f eps).relay)
unfolding listener_of
listener_of-open p f eps ne = elim (Bool-cases (is_empty f.username)) [
  | inl none_here ↦ (eq-nil_of_is_empty f.username none_here, rw none_here refl)
  | inr user ↦ absurd (ne (rw user refl))
]

listener_on-open :
    (p : ℕ) (eps : List Endpoint) (l : ListenerSpec)
    → build_listener p (on_port p eps) ≡ some l
    → l.relay ≢ []
    → (e : Endpoint) × Memᴰ e eps × (e.port ≡ l.port) × (e.username ≡ []) × (e.relay ≡ l.relay)
unfolding build_listener
listener_on-open p eps l b ne = go (on_port p eps) refl (λ e k. mem-on_port p eps k)
  where
    go :
        (list : List Endpoint)
        → on_port p eps ≡ list
        → ((e : Endpoint) → Memᴰ e list → Memᴰ e eps × (e.port ≡ p))
        → (e : Endpoint) × Memᴰ e eps × (e.port ≡ l.port) × (e.username ≡ []) × (e.relay ≡ l.relay)
    go [] q sound = absurd (cc (ap (build_listener p) q, b))
    go (f ∷ rest) q sound =
        let b' : some (listener_of p f rest) ≡ some l = rw (q, build_listener) at b in
        let same = some_inj b' in
        let (k, r) = sound f (Memᴰ.head refl) in
        let (open_name, open_relay) =
          listener_of-open p f rest
            (λ none_here. ne (ap (λ (l' : ListenerSpec). l'.relay) (sym same) ∙ none_here)) in
        (
          f,
          k,
          r ∙ (sym (port-listener_of p f rest) ∙ ap (λ (l' : ListenerSpec). l'.port) same),
          open_name,
          open_relay ∙ ap (λ (l' : ListenerSpec). l'.relay) same,
        )

-- Endpoints that can be told apart all get a listener: `buildListeners` does not fault, it makes
-- one listener to a port in increasing order, each endpoint is served by the listener of its port,
-- and the users of a listener are endpoints on its port, with different names.
pub build_listeners-AreListeners :
    (eps : List Endpoint) → IsIsolated eps → (ls : List ListenerSpec) × AreListeners eps ls
unfolding build_listeners
build_listeners-AreListeners eps apart =
    let (ports, by_port) = group_by_port eps in
    let (ls, built, same, serve, from) = build_each_lem by_port ports (λ p m.
      let (e, k, q) = (mem-group_by_port p eps).0 m in
      rw (group_by_port-on_port p eps) (on_port_cons p eps (mem-on_port_of p eps k q))) in
    (
      ls,
      record {
        built = built;
        ports = rw same (group_by_port-IsIncreasing eps);
        serve = λ e m.
            let (l, k, b) = serve e.port ((mem-group_by_port e.port eps).1 (e, m, refl)) in
            (
              l,
              k,
              listener_on e.port eps apart (rw (group_by_port-on_port e.port eps) at b) m refl,
            );
        users = λ l u k m.
            let (p, _, b) = from l k in
            listener_on-users p eps l u (rw (group_by_port-on_port p eps) at b) m;
        open_relay = λ l k ne.
            let (p, _, b) = from l k in
            listener_on-open p eps l (rw (group_by_port-on_port p eps) at b) ne;
        each = λ l k.
            let (p, _, b) = from l k in build_listener-IsBuilt p (slice_of (lookup p by_port)) b;
      },
    )
