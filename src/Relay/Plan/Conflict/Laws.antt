-- ===== src/Relay/Plan/Conflict/Laws.antt =====
-- `findConflicts` rejects exactly the relays that clash with another one on some port.
use proxy_proxy.Prelude.{
  ℕ, List, [], ◌∷◌, map, true, false, ◌≡◌, sym, ◌∙◌, Memᴰ, ◌⊎◌, ◌↔◌, inl, inr, arith,
}
use proxy_proxy.Prelude.Tests.{nat_eq, ◌==◌, ltb, Bool-cases, eq_of_beq, beq_of_eq, beq_refl}
use proxy_proxy.Prelude.Lists.{length, any}
use proxy_proxy.Prelude.Dict.{Dict, lookup}
use proxy_proxy.Prelude.Member.{uniques, mem-filter, mem-filter_of, any_of_mem, mem_of_any}
use proxy_proxy.Prelude.Text.{Str, is_empty, str_eq, eq-nil_of_is_empty}
use proxy_proxy.Relay.Types.{Endpoint}
use proxy_proxy.Relay.Plan.Group.{slice_of, group_by_port, owners_from}
use proxy_proxy.Relay.Plan.Group.Laws.{
  on_port, of_user, owners-of_user, group_by_port-on_port, mem-group_by_port,
}
use proxy_proxy.Relay.Plan.Conflict.{Verdict, judge_port, judge_ports, find_conflicts}
use proxy_proxy.Relay.Plan.Conflict.Port.{
  SharedUser, relays_of, mem-field, field_of_mem, field_differs, field_agrees, mem-reject,
  mem-judge_users, judge_users-keeps, judge_users-rejects,
}
use proxy_proxy.Relay.Plan.Conflict.Spec.{
  Clash, by_listen, by_no_user, by_user, ClashesAmong, Clashes,
}

module _ (eps : List Endpoint) where
  -- A relay on a port with two relays clashes there if the port's endpoints are a reason to.
  clashes_of :
      {r : Str}
      → ltb (length (relays_of eps)) 2 ≡ false
      → Memᴰ r (relays_of eps)
      → ((mine other : Endpoint) → Memᴰ mine eps → Clash eps mine other)
      → ClashesAmong eps r
  clashes_of {r} many m clash =
      let (mine, mi, q) = field_of_mem (λ e. e.relay) eps m in
      let (other, oi, ne) = field_differs (λ e. e.relay) eps r (ground arith) in
      record {
        mine = mine;
        other = other;
        mine_in = mi;
        other_in = oi;
        mine_relay = q;
        other_relay = ne;
        clash = clash mine other mi;
      }

  clashes_of_listens :
      ltb 1 (length (uniques (map (λ e. e.listen) eps))) ≡ true
      → (mine other : Endpoint) → Memᴰ mine eps
      → Clash eps mine other
  clashes_of_listens many mine other mi =
      let (e, m, ne) = field_differs (λ e. e.listen) eps mine.listen many in
      by_listen e mine m mi ne

  clashes_of_users :
      {r : Str}
      → SharedUser (owners_from [] eps) (uniques (map (λ e. e.username) eps)) r
      → ClashesAmong eps r
  unfolding of_user
  clashes_of_users {r} (u, mu, long, mr) =
      let users = of_user u eps in
      let q = owners-of_user u eps in
      let (mine, mi, same) = field_of_mem (λ e. e.relay) users (rw q at mr) in
      let (other, oi, ne) = field_differs (λ e. e.relay) users r (rw q at long) in
      let (mine_in, mine_user) = mem-filter (λ e. e.username == u) eps mi in
      let (other_in, other_user) = mem-filter (λ e. e.username == u) eps oi in
      record {
        mine = mine;
        other = other;
        mine_in = mine_in;
        other_in = other_in;
        mine_relay = same;
        other_relay = ne;
        clash = by_user (eq_of_beq _ u mine_user ∙ sym (eq_of_beq _ u other_user));
      }

  users_of_clashes :
      {r : Str} (c : ClashesAmong eps r)
      → c.mine.username ≡ c.other.username
      → SharedUser (owners_from [] eps) (uniques (map (λ e. e.username) eps)) r
  users_of_clashes c same =
      let u = c.mine.username in
      let users = of_user u eps in
      let q = owners-of_user u eps in
      let m : Memᴰ c.mine users =
        unfold of_user in mem-filter_of (λ e. e.username == u) eps c.mine_in (beq_refl u) in
      let n : Memᴰ c.other users =
        unfold of_user in
        mem-filter_of (λ e. e.username == u) eps c.other_in (beq_of_eq _ u (sym same)) in
      let two : ltb 1 (length (relays_of users)) ≡ true =
        elim (Bool-cases (ltb 1 (length (relays_of users)))) [
          | inl long ↦ long
          | inr short ↦
              absurd (
                c.other_relay (field_agrees (λ e. e.relay) users (ground arith) n m ∙ c.mine_relay))
        ] in
      (
        u,
        mem-field (λ e. e.username) eps c.mine_in,
        rw q two,
        rw q (rw (← c.mine_relay) (mem-field (λ e. e.relay) users m)),
      )

  -- One round of the loop over the ports.
  mem-judge_port :
      (port : ℕ) (v : Verdict) {r : Str}
      → Memᴰ r (judge_port port eps v).rejected
      → Memᴰ r v.rejected ⊎ ClashesAmong eps r
  unfolding judge_port
  mem-judge_port port v m = elim (Bool-cases (ltb (length (relays_of eps)) 2)) [
    | inl few ↦ inl (rw few at m)
    | inr many ↦ elim (Bool-cases (ltb 1 (length (uniques (map (λ e. e.listen) eps))))) [
      | inl listens ↦ elim ((mem-reject port _ _ v).0 (rw (many, listens) at m)) [
        | inl old ↦ inl old
        | inr new ↦ inr (clashes_of many new (clashes_of_listens listens))
      ]
      | inr one_listen ↦ elim (Bool-cases (any (λ e. is_empty e.username) eps)) [
        | inl no_auth ↦ elim ((mem-reject port _ _ v).0 (rw (many, one_listen, no_auth) at m)) [
          | inl old ↦ inl old
          | inr new ↦
              let (e, me, q) = mem_of_any (λ e. is_empty e.username) eps no_auth in
              inr (clashes_of many new (λ a b _. by_no_user e me (eq-nil_of_is_empty _ q)))
        ]
        | inr auth ↦
            elim (mem-judge_users port (owners_from [] eps) _ v
              (rw (many, one_listen, auth) at m)) [
                | inl old ↦ inl old
                | inr shared ↦ inr (clashes_of_users shared)
              ]
      ]
    ]
  ]

  judge_port-keeps :
      (port : ℕ) (v : Verdict) {r : Str}
      → Memᴰ r v.rejected
      → Memᴰ r (judge_port port eps v).rejected
  unfolding judge_port
  judge_port-keeps port v m = elim (Bool-cases (ltb (length (relays_of eps)) 2)) [
    | inl few ↦ rw few m
    | inr many ↦ elim (Bool-cases (ltb 1 (length (uniques (map (λ e. e.listen) eps))))) [
      | inl listens ↦ rw (many, listens) ((mem-reject port _ _ v).1 (inl m))
      | inr one_listen ↦ elim (Bool-cases (any (λ e. is_empty e.username) eps)) [
        | inl no_auth ↦ rw (many, one_listen, no_auth) ((mem-reject port _ _ v).1 (inl m))
        | inr auth ↦ rw (many, one_listen, auth) (judge_users-keeps port _ _ v m)
      ]
    ]
  ]

  judge_port-rejects :
      (port : ℕ) (v : Verdict) {r : Str}
      → ClashesAmong eps r
      → Memᴰ r (judge_port port eps v).rejected
  unfolding judge_port
  judge_port-rejects port v {r} c =
      let m : Memᴰ r (relays_of eps) =
        rw (← c.mine_relay) (mem-field (λ e. e.relay) eps c.mine_in) in
      elim (Bool-cases (ltb (length (relays_of eps)) 2)) [
        | inl few ↦ absurd (
            c.other_relay
              (field_agrees (λ e. e.relay) eps (ground arith) c.other_in c.mine_in ∙ c.mine_relay))
        | inr many ↦ elim (Bool-cases (ltb 1 (length (uniques (map (λ e. e.listen) eps))))) [
          | inl listens ↦ rw (many, listens) ((mem-reject port _ _ v).1 (inr m))
          | inr one_listen ↦ elim (Bool-cases (any (λ e. is_empty e.username) eps)) [
            | inl no_auth ↦ rw (many, one_listen, no_auth) ((mem-reject port _ _ v).1 (inr m))
            | inr auth ↦
                rw (many, one_listen, auth)
                  (judge_users-rejects port _ _ v
                    (users_of_clashes c (same_user c one_listen auth c.clash)))
          ]
        ]
      ]
    where
      same_user :
          (c : ClashesAmong eps r)
          → ltb 1 (length (uniques (map (λ e. e.listen) eps))) ≡ false
          → any (λ e. is_empty e.username) eps ≡ false
          → Clash eps c.mine c.other
          → c.mine.username ≡ c.other.username
      same_user c one auth (by_user q) = q
      same_user c one auth (by_listen e f me mf ne) =
          absurd (ne (field_agrees (λ e. e.listen) eps (ground arith) me mf))
      same_user c one auth (by_no_user e me q) =
          let hit = any_of_mem (λ e. is_empty e.username) eps me (rw q) in cc

module _ (by_port : Dict ℕ (List Endpoint)) where
  mem-judge_ports :
      (ports : List ℕ) (v : Verdict) {r : Str}
      → Memᴰ r (judge_ports by_port ports v).rejected
      → Memᴰ r v.rejected ⊎ ((p : ℕ) × ClashesAmong (slice_of (lookup p by_port)) r)
  unfolding judge_ports
  mem-judge_ports [] v m = inl m
  mem-judge_ports (p ∷ ports) v m = elim (mem-judge_ports ports _ m) [
    | inr later ↦ inr later
    | inl here ↦ elim (mem-judge_port (slice_of (lookup p by_port)) p v here) [
      | inl old ↦ inl old
      | inr c ↦ inr (p, c)
    ]
  ]

  judge_ports-keeps :
      (ports : List ℕ) (v : Verdict) {r : Str}
      → Memᴰ r v.rejected
      → Memᴰ r (judge_ports by_port ports v).rejected
  unfolding judge_ports
  judge_ports-keeps [] v m = m
  judge_ports-keeps (p ∷ ports) v m =
      judge_ports-keeps ports _ (judge_port-keeps (slice_of (lookup p by_port)) p v m)

  judge_ports-rejects :
      (ports : List ℕ) (v : Verdict) {r : Str} {p : ℕ}
      → Memᴰ p ports
      → ClashesAmong (slice_of (lookup p by_port)) r
      → Memᴰ r (judge_ports by_port ports v).rejected
  unfolding judge_ports
  judge_ports-rejects [] v m c = elim m [ ]
  judge_ports-rejects (q ∷ ports) v (Memᴰ.tail m) c = judge_ports-rejects ports _ m c
  judge_ports-rejects (q ∷ ports) v (Memᴰ.head same) c =
      judge_ports-keeps ports _
        (judge_port-rejects (slice_of (lookup q by_port)) q v (rw same at c))

-- A relay is rejected exactly when it clashes with another relay on some port: they use different
-- listen addresses on it, or some endpoint on it has no username, or both use the same username.
pub find_conflicts-rejected_iff :
    (eps : List Endpoint) (r : Str) → Memᴰ r (find_conflicts eps).rejected ↔ Clashes eps r
unfolding find_conflicts on_port
find_conflicts-rejected_iff eps r = (
  λ m. elim (mem-judge_ports (group_by_port eps).1 (group_by_port eps).0 _ m) [
    | inl bad ↦ elim bad [ ]
    | inr (p, c) ↦ (p, rw (group_by_port-on_port p eps) at c)
  ],
  λ (p, c).
      let (e, q) = mem-filter (λ e. e.port == p) eps c.mine_in in
      judge_ports-rejects (group_by_port eps).1 (group_by_port eps).0 _
        ((mem-group_by_port p eps).1 (c.mine, e, eq_of_beq _ p q))
        (rw (group_by_port-on_port p eps) c),
)
