-- ===== src/Relay/Plan/Isolation.antt =====
-- The endpoints that `NewPlan` keeps can be told apart by port and username.
use proxy_proxy.Prelude.{List, [], not, ◌≡◌, ◌≢◌, refl, sym, ◌∙◌, Memᴰ, inl, inr, arith}
use proxy_proxy.Prelude.Tests.{◌==◌, eq-or-ne, nat_eq, beq_of_eq}
use proxy_proxy.Prelude.Member.{contains, mem-filter, mem-filter_of, contains_of_mem}
use proxy_proxy.Prelude.Text.{str_eq, is_empty_of_ne}
use proxy_proxy.Relay.Types.{Endpoint}
use proxy_proxy.Relay.Plan.{kept_endpoints}
use proxy_proxy.Relay.Plan.Check.OwnPorts.{CanShare}
use proxy_proxy.Relay.Plan.Group.Laws.{on_port}
use proxy_proxy.Relay.Plan.Conflict.{find_conflicts}
use proxy_proxy.Relay.Plan.Conflict.Spec.{Clash, by_listen, by_no_user, by_user, Clashes}
use proxy_proxy.Relay.Plan.Conflict.Laws.{find_conflicts-rejected_iff}
use proxy_proxy.Relay.Plan.Listener.Laws.{IsIsolated}

-- The endpoints of one relay can share their ports.
abbrev pub OwnShare : List Endpoint → Type 0
OwnShare eps = (d e : Endpoint) → Memᴰ d eps → Memᴰ e eps → d.relay ≡ e.relay → CanShare d e

mem-kept_endpoints :
    (eps : List Endpoint) {e : Endpoint}
    → Memᴰ e (kept_endpoints eps)
    → Memᴰ e eps × ¬ Clashes eps e.relay
unfolding kept_endpoints
mem-kept_endpoints eps {e} m =
    let (k, q) = mem-filter (λ e'. not (contains (find_conflicts eps).rejected e'.relay)) eps m in
    (
      k,
      λ c.
          let hit = contains_of_mem _ ((find_conflicts-rejected_iff eps e.relay).1 c) in
          ground (arith, hit, q),
    )

module _ (eps : List Endpoint) (d e : Endpoint) (md : Memᴰ d eps) (me : Memᴰ e eps)
    (same : d.port ≡ e.port) (other : d.relay ≢ e.relay) (free : ¬ Clashes eps d.relay) where
  here_d : Memᴰ d (on_port e.port eps)
  unfolding on_port
  here_d = mem-filter_of (λ f. f.port == e.port) eps md (beq_of_eq d.port e.port same)

  here_e : Memᴰ e (on_port e.port eps)
  unfolding on_port
  here_e = mem-filter_of (λ f. f.port == e.port) eps me (beq_of_eq e.port e.port refl)

  no-Clash : ¬ Clash (on_port e.port eps) d e
  no-Clash clash = free (
    e.port,
    record {
      mine = d;
      other = e;
      mine_in = here_d;
      other_in = here_e;
      mine_relay = refl;
      other_relay = λ q. other (sym q);
      clash = clash;
    },
  )

  -- Endpoints of two relays on one port, where neither relay clashes.
  unlike_endpoints :
      (d.listen ≡ e.listen) × (d.username ≢ []) × (e.username ≢ []) × (d.username ≢ e.username)
  unlike_endpoints = (
    elim (eq-or-ne d.listen e.listen) [
      | inl q ↦ q
      | inr ne ↦ absurd (no-Clash (by_listen d e here_d here_e ne))
    ],
    λ q. no-Clash (by_no_user d here_d q),
    λ q. no-Clash (by_no_user e here_e q),
    λ q. no-Clash (by_user q),
  )

-- Of the endpoints that are kept, two on one port have one listen address, both have a username or
-- neither has, and if they have the same username they belong to one relay and have one password;
-- the endpoints of each single relay are taken to have passed `checkOwnPorts`.
pub kept_endpoints-IsIsolated :
    (eps : List Endpoint) → OwnShare eps → IsIsolated (kept_endpoints eps)
kept_endpoints-IsIsolated eps share d e m n same =
    let (md, free) = mem-kept_endpoints eps m in
    let (me, _) = mem-kept_endpoints eps n in
    elim (eq-or-ne d.relay e.relay) [
      | inl q ↦ let s = share d e md me q same in (s.0, s.1, λ u. (q, s.2 u))
      | inr ne ↦
          let s = unlike_endpoints eps d e md me same ne free in
          (
            s.0,
            is_empty_of_ne d.username s.1 ∙ sym (is_empty_of_ne e.username s.2),
            λ u. absurd (s.3 u),
          )
    ]
