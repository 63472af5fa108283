-- ===== src/Relay/Render/Listened.antt =====
-- What a listener of the plan puts into the state: its own config and the rules of its users.
use proxy_proxy.Prelude.{
  List, [], ◌∷◌, ◌++◌, map, true, false, ◌≡◌, ◌⊎◌, refl, sym, ◌∙◌, inl, inr, Memᴰ,
}
use proxy_proxy.Prelude.Tests.{if◌then◌else◌, Bool-cases, ◌==◌}
use proxy_proxy.Prelude.Dict.{Dict}
use proxy_proxy.Prelude.Int.{pos}
use proxy_proxy.Prelude.Text.{Str, lit, str_eq, str_beq, is_empty}
use proxy_proxy.Node.Value.{
  Value, null, bool, int, text, items, object, Items, nil, cons, Object, empty, field, get, set,
}
use proxy_proxy.Node.Value.Laws.{get-set}
use proxy_proxy.Relay.Types.{Endpoint, ListenerSpec}
use proxy_proxy.Relay.Render.{
  target_of, Listening, user_rule, add_user, add_users, user_items, listener_head, add_listener,
}
use mathlib.Core.List.{append_assoc, append-nil}

-- An entry of a list of values.
abbrev pub HasItem : Value → Items → Type 0
HasItem v nil = ⊥
HasItem v (cons w ws) = (w ≡ v) ⊎ HasItem v ws

-- A user as mihomo reads it.
abbrev pub credentials : Str → Str → Value
credentials username password =
    object (field (lit "username") (text username) (field (lit "password") (text password) empty))

pub user_items-mem :
    (us : List Endpoint) {u : Endpoint}
    → Memᴰ u us
    → HasItem (credentials u.username u.password) (user_items us)
user_items-mem [] m = elim m [ ]
user_items-mem (v ∷ us) (Memᴰ.head same) = inl (rw same refl)
user_items-mem (v ∷ us) (Memᴰ.tail m) = inr (user_items-mem us m)

-- Where a listener listens.
record IsHead (l : ListenerSpec) (o : Object) : Type 0 where
  name : get (lit "name") o ≡ text l.name
  typ : get (lit "type") o ≡ text l.typ
  port : get (lit "port") o ≡ int (pos l.port)
  listen : is_empty l.listen ≡ false → get (lit "listen") o ≡ text l.listen
  no_proxy : get (lit "proxy") o ≡ null

listener_head-IsHead : (l : ListenerSpec) → IsHead l (listener_head l)
unfolding listener_head get set str_beq lit
listener_head-IsHead l = elim (Bool-cases (is_empty l.listen)) [
  | inl nowhere ↦
      simp (nowhere, listener_head)
        (record {
          name = refl;
          typ = refl;
          port = refl;
          listen = λ q. absurd (cc);
          no_proxy = refl;
        })
  | inr somewhere ↦
      simp (somewhere, listener_head)
        (record { name = refl; typ = refl; port = refl; listen = λ q. refl; no_proxy = refl })
]

module _ (target : Dict Str Str) where
  -- The rules of the users, and what stands before them.
  abbrev pub rule_of : Str → Endpoint → Str
  rule_of name u = user_rule name u.username (target_of target u.relay)

  add_users-rules :
      (name : Str) (us : List Endpoint) (s : Listening)
      → let s' = add_users target name us s in
        (s'.listeners ≡ s.listeners) × (s'.rules ≡ s.rules ++ map (rule_of name) us)
  unfolding add_users add_user
  add_users-rules name [] s = (refl, sym (append-nil s.rules))
  add_users-rules name (u ∷ us) s =
      let (kept, grown) = add_users-rules name us (add_user target name u s) in
      (kept, grown ∙ append_assoc s.rules (rule_of name u ∷ []) (map (rule_of name) us))

  -- The config of a listener: where it listens, and either the target of all its callers, with no
  -- users, or its users, with no target of its own.
  pub record IsConfig (l : ListenerSpec) (o : Object) : Type 0 where
    pub name : get (lit "name") o ≡ text l.name
    pub typ : get (lit "type") o ≡ text l.typ
    pub port : get (lit "port") o ≡ int (pos l.port)
    pub listen : is_empty l.listen ≡ false → get (lit "listen") o ≡ text l.listen
    pub one_relay :
        is_empty l.relay ≡ false
        → (get (lit "proxy") o ≡ text (target_of target l.relay))
          × (get (lit "users") o ≡ items nil)
    pub by_user :
        is_empty l.relay ≡ true
        → (get (lit "proxy") o ≡ null) × (get (lit "users") o ≡ items (user_items l.users))

  shared-IsConfig :
      (l : ListenerSpec)
      → is_empty l.relay ≡ true
      → IsConfig l (set (lit "users") (items (user_items l.users)) (listener_head l))
  unfolding str_beq lit
  shared-IsConfig l shared =
      let h = listener_head-IsHead l in
      let v = items (user_items l.users) in
      let o = listener_head l in
      record {
        name = get-set (lit "users") (lit "name") v o ∙ h.name;
        typ = get-set (lit "users") (lit "type") v o ∙ h.typ;
        port = get-set (lit "users") (lit "port") v o ∙ h.port;
        listen = λ q. get-set (lit "users") (lit "listen") v o ∙ h.listen q;
        one_relay = λ q. absurd (let bad = sym q ∙ shared in cc);
        by_user = λ _. (
          get-set (lit "users") (lit "proxy") v o ∙ h.no_proxy,
          get-set (lit "users") (lit "users") v o,
        );
      }

  with_udp :
      (l : ListenerSpec) (o : Object) → IsConfig l o → IsConfig l (set (lit "udp") (bool true) o)
  unfolding str_beq lit
  with_udp l o h = record {
    name = get-set (lit "udp") (lit "name") (bool true) o ∙ h.name;
    typ = get-set (lit "udp") (lit "type") (bool true) o ∙ h.typ;
    port = get-set (lit "udp") (lit "port") (bool true) o ∙ h.port;
    listen = λ q. get-set (lit "udp") (lit "listen") (bool true) o ∙ h.listen q;
    one_relay = λ q.
        let (to, nobody) = h.one_relay q in
        (
          get-set (lit "udp") (lit "proxy") (bool true) o ∙ to,
          get-set (lit "udp") (lit "users") (bool true) o ∙ nobody,
        );
    by_user = λ q.
        let (to, users) = h.by_user q in
        (
          get-set (lit "udp") (lit "proxy") (bool true) o ∙ to,
          get-set (lit "udp") (lit "users") (bool true) o ∙ users,
        );
  }

  relay-IsConfig :
      (l : ListenerSpec)
      → is_empty l.relay ≡ false
      → IsConfig l (
          set
            (lit "proxy")
            (text (target_of target l.relay))
            (set (lit "users") (items nil) (listener_head l)))
  unfolding str_beq lit
  relay-IsConfig l one =
      let h = listener_head-IsHead l in
      let t = text (target_of target l.relay) in
      let o = listener_head l in
      let o' = set (lit "users") (items nil) o in
      record {
        name =
            get-set (lit "proxy") (lit "name") t o'
            ∙ (get-set (lit "users") (lit "name") (items nil) o ∙ h.name);
        typ =
            get-set (lit "proxy") (lit "type") t o'
            ∙ (get-set (lit "users") (lit "type") (items nil) o ∙ h.typ);
        port =
            get-set (lit "proxy") (lit "port") t o'
            ∙ (get-set (lit "users") (lit "port") (items nil) o ∙ h.port);
        listen = λ q.
            get-set (lit "proxy") (lit "listen") t o'
            ∙ (get-set (lit "users") (lit "listen") (items nil) o ∙ h.listen q);
        one_relay = λ _. (
          get-set (lit "proxy") (lit "proxy") t o',
          get-set (lit "proxy") (lit "users") t o'
              ∙ get-set (lit "users") (lit "users") (items nil) o,
        );
        by_user = λ q. absurd (let bad = sym q ∙ one in cc);
      }

  abbrev pub rules_of : ListenerSpec → List Str
  rules_of l = if is_empty l.relay then map (rule_of l.name) l.users else []

  -- A listener adds its config and its rules.
  pub add_listener-adds :
      (l : ListenerSpec) (s : Listening)
      → let s' = add_listener target l s in
        (o : Object) × IsConfig l o
        × (s'.listeners ≡ s.listeners ++ o ∷ [])
        × (s'.rules ≡ s.rules ++ rules_of l)
  unfolding add_listener
  add_listener-adds l s = elim (Bool-cases (is_empty l.relay)) [
    | inl shared ↦
        let (kept, grown) = add_users-rules l.name l.users s in
        (
          _,
          shared-IsConfig l shared,
          simp (shared, kept, add_listener) refl,
          simp (shared, grown, add_listener) refl,
        )
    | inr one ↦ elim (Bool-cases (l.typ == lit "http")) [
      | inl http ↦ (
        _,
        relay-IsConfig l one,
        simp (one, http, add_listener) refl,
        simp (one, add_listener) (sym (append-nil s.rules)),
      )
      | inr udp ↦ (
        _,
        with_udp l _ (relay-IsConfig l one),
        simp (one, udp, add_listener) refl,
        simp (one, add_listener) (sym (append-nil s.rules)),
      )
    ]
  ]
