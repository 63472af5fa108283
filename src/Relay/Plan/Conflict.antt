-- ===== src/Relay/Plan/Conflict.antt =====
-- internal/relay/plan.go: `findConflicts`.
pub mod Spec
pub mod Port
pub mod Laws
use proxy_proxy.Prelude.{
  ℕ, List, [], ◌∷◌, ◌++◌, map, Option, none, some, Bool, true, false, ◌||◌, ◌&&◌,
}
use proxy_proxy.Prelude.Tests.{◌==◌, if◌then◌else◌, ltb, nat_eq}
use proxy_proxy.Prelude.Lists.{length, any}
use proxy_proxy.Prelude.Dict.{Dict, lookup}
use proxy_proxy.Prelude.Member.{append_unique, uniques_from, uniques}
use proxy_proxy.Prelude.Text.{Str, is_empty, str_eq}
use proxy_proxy.Relay.Types.{
  Endpoint, PlanError, conflict, Reason, different_listens, no_username, shared_username,
}
use proxy_proxy.Relay.Plan.Group.{slice_of, group_by_port, owners_from}

-- The variables `rejected` and `errs`.
pub record Verdict : Type 0 where
  pub rejected : List Str
  pub errs : List PlanError

unfoldable pub reject : ℕ → Reason → List Str → Verdict → Verdict
reject port reason relays v = record {
  rejected = uniques_from v.rejected relays;
  errs = v.errs ++ conflict port reason relays ∷ [];
}

-- The loop over the usernames of a port with several relays.
unfoldable pub judge_users : ℕ → Dict Str (List Str) → List Str → Verdict → Verdict
judge_users port owners [] v = v
judge_users port owners (u ∷ us) v =
    let relays = slice_of (lookup u owners) in
    judge_users port owners us
      (if ltb 1 (length relays) then reject port (shared_username u) relays v else v)

-- One round of the loop over the ports, with the endpoints on the port.
unfoldable pub judge_port : ℕ → List Endpoint → Verdict → Verdict
judge_port port eps v =
    let relays = uniques (map (λ e. e.relay) eps) in
    let listens = uniques (map (λ e. e.listen) eps) in
    let no_auth = any (λ e. is_empty e.username) eps in
    if ltb (length relays) 2
    then v
    else if ltb 1 (length listens)
    then reject port different_listens relays v
    else if no_auth
    then reject port no_username relays v
    else judge_users port (owners_from [] eps) (uniques (map (λ e. e.username) eps)) v

unfoldable pub judge_ports : Dict ℕ (List Endpoint) → List ℕ → Verdict → Verdict
judge_ports by_port [] v = v
judge_ports by_port (port ∷ ports) v =
    judge_ports by_port ports (judge_port port (slice_of (lookup port by_port)) v)

unfoldable pub find_conflicts : List Endpoint → Verdict
find_conflicts eps =
    let (ports, by_port) = group_by_port eps in
    judge_ports by_port ports (record { rejected = []; errs = [] })
