-- ===== src/Relay/Render/Rules.antt =====
-- The listeners and the rules of the state: each listener of the plan has its config, and the rules
-- are those of the users.
use proxy_proxy.Prelude.{List, [], ◌∷◌, ◌++◌, map, true, ◌≡◌, refl, sym, ap, ◌∙◌, inl, inr, Memᴰ}
use proxy_proxy.Prelude.Tests.{Bool-cases}
use proxy_proxy.Prelude.Dict.{Dict}
use proxy_proxy.Prelude.Text.{Str, is_empty}
use proxy_proxy.Node.Value.{Object}
use proxy_proxy.Relay.Types.{Endpoint, ListenerSpec}
use proxy_proxy.Relay.Render.{Listening, add_listener, add_listeners}
use proxy_proxy.Relay.Render.Listened.{IsConfig, rule_of, rules_of, add_listener-adds}
use mathlib.Core.List.Memᴰ
use mathlib.Core.List.{append_assoc, append-nil}

module _ (target : Dict Str Str) where
  abbrev all_rules : List ListenerSpec → List Str
  all_rules [] = []
  all_rules (l ∷ ls) = rules_of target l ++ all_rules ls

  add_listeners-rules :
      (ls : List ListenerSpec) (s : Listening)
      → (add_listeners target ls s).rules ≡ s.rules ++ all_rules ls
  unfolding add_listeners
  add_listeners-rules [] s = sym (append-nil s.rules)
  add_listeners-rules (l ∷ ls) s =
      let (o, is, listed, ruled) = add_listener-adds target l s in
      add_listeners-rules ls (add_listener target l s)
      ∙ (ap (λ rs. rs ++ all_rules ls) ruled
          ∙ append_assoc s.rules (rules_of target l) (all_rules ls))

  -- Configs stay.
  add_listeners-kept :
      (ls : List ListenerSpec) (s : Listening) {o : Object}
      → Memᴰ o s.listeners
      → Memᴰ o (add_listeners target ls s).listeners
  unfolding add_listeners
  add_listeners-kept [] s m = m
  add_listeners-kept (l ∷ ls) s m =
      let (o', is, listed, ruled) = add_listener-adds target l s in
      add_listeners-kept ls (add_listener target l s) (rw listed (Memᴰ.append_left (o' ∷ []) m))

  -- Each listener has its config.
  pub listener-IsConfig :
      (ls : List ListenerSpec) (s : Listening) {l : ListenerSpec}
      → Memᴰ l ls
      → (o : Object) × Memᴰ o (add_listeners target ls s).listeners × IsConfig target l o
  unfolding add_listeners
  listener-IsConfig [] s m = elim m [ ]
  listener-IsConfig (l' ∷ ls) s (Memᴰ.tail m) = listener-IsConfig ls (add_listener target l' s) m
  listener-IsConfig (l' ∷ ls) s {l} (Memᴰ.head same) =
      let (o, is, listed, ruled) = add_listener-adds target l' s in
      (
        o,
        add_listeners-kept ls (add_listener target l' s)
            (rw listed (Memᴰ.append_right s.listeners (Memᴰ.head refl))),
        rw same is,
      )

  mem-rules_of :
      (name : Str) (us : List Endpoint) {u : Endpoint}
      → Memᴰ u us
      → Memᴰ (rule_of target name u) (map (rule_of target name) us)
  mem-rules_of name [] m = elim m [ ]
  mem-rules_of name (v ∷ us) (Memᴰ.head same) = Memᴰ.head (ap (rule_of target name) same)
  mem-rules_of name (v ∷ us) (Memᴰ.tail m) = Memᴰ.tail (mem-rules_of name us m)

  rules_of-mem :
      (name : Str) (us : List Endpoint) {rule : Str}
      → Memᴰ rule (map (rule_of target name) us)
      → (u : Endpoint) × Memᴰ u us × (rule ≡ rule_of target name u)
  rules_of-mem name [] m = elim m [ ]
  rules_of-mem name (v ∷ us) m = elim (Memᴰ.cases_cons m) [
    | inl same ↦ (v, Memᴰ.head refl, same)
    | inr later ↦ let (u, mu, is) = rules_of-mem name us later in (u, Memᴰ.tail mu, is)
  ]

  mem-all_rules :
      (ls : List ListenerSpec) {l : ListenerSpec} {u : Endpoint}
      → Memᴰ l ls
      → is_empty l.relay ≡ true
      → Memᴰ u l.users
      → Memᴰ (rule_of target l.name u) (all_rules ls)
  mem-all_rules [] m shared mu = elim m [ ]
  mem-all_rules (l' ∷ ls) (Memᴰ.tail m) shared mu =
      Memᴰ.append_right (rules_of target l') (mem-all_rules ls m shared mu)
  mem-all_rules (l' ∷ ls) {l} {u} (Memᴰ.head same) shared mu =
      Memᴰ.append_left (all_rules ls) (rw (← same) (rw shared (mem-rules_of l.name l.users mu)))

  all_rules-mem :
      (ls : List ListenerSpec) {rule : Str}
      → Memᴰ rule (all_rules ls)
      → (l : ListenerSpec) × (u : Endpoint) × Memᴰ l ls
        × Memᴰ u l.users
        × (rule ≡ rule_of target l.name u)
  all_rules-mem [] m = elim m [ ]
  all_rules-mem (l ∷ ls) m = elim (Memᴰ.append_cases (rules_of target l) m) [
    | inr later ↦ let (l', u, ml, mu, is) = all_rules-mem ls later in (l', u, Memᴰ.tail ml, mu, is)
    | inl here ↦ elim (Bool-cases (is_empty l.relay)) [
      | inr one ↦ elim (rw one at here) [ ]
      | inl shared ↦
          let (u, mu, is) = rules_of-mem l.name l.users (rw shared at here) in
          (l, u, Memᴰ.head refl, mu, is)
    ]
  ]

  -- The rules of a state that has none yet are those of the users.
  pub rule_of_user :
      (ls : List ListenerSpec) (s : Listening) {l : ListenerSpec} {u : Endpoint}
      → Memᴰ l ls
      → is_empty l.relay ≡ true
      → Memᴰ u l.users
      → Memᴰ (rule_of target l.name u) (add_listeners target ls s).rules
  rule_of_user ls s m shared mu =
      rw (add_listeners-rules ls s) (Memᴰ.append_right s.rules (mem-all_rules ls m shared mu))

  pub user_of_rule :
      (ls : List ListenerSpec) (s : Listening) {rule : Str}
      → s.rules ≡ []
      → Memᴰ rule (add_listeners target ls s).rules
      → (l : ListenerSpec) × (u : Endpoint) × Memᴰ l ls
        × Memᴰ u l.users
        × (rule ≡ rule_of target l.name u)
  user_of_rule ls s none_yet m = all_rules-mem ls (rw (add_listeners-rules ls s, none_yet) at m)
