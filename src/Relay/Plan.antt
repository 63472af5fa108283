-- ===== src/Relay/Plan.antt =====
-- internal/relay/plan.go: `NewPlan`, from the configuration to the valid part of its relays.
pub mod Check
pub mod Group
pub mod Conflict
pub mod Listener
pub mod Isolation
pub mod Accept
pub mod Laws
pub mod RelayNames
pub mod Kept
use proxy_proxy.Prelude.{
  ℕ, suc, List, [], ◌∷◌, ◌++◌, map, Option, none, some, Bool, not, ◌&&◌, ◌||◌,
}
use proxy_proxy.Prelude.Tests.{Result, ok, err, ◌==◌, if◌then◌else◌, ltb}
use proxy_proxy.Prelude.Lists.{length, filter}
use proxy_proxy.Prelude.Int.{ℤ, pos}
use proxy_proxy.Prelude.Member.{contains}
use proxy_proxy.Prelude.Text.{Str, is_empty, str_eq}
use proxy_proxy.Prelude.Text.Numeral.{atoi, value_of}
use proxy_proxy.Prelude.Text.Host.{split_host_port}
use proxy_proxy.Config.Types.{Config, Relay, fetched_sub_names}
use proxy_proxy.Relay.Types.{
  Plan, RelaySpec, Endpoint, PlanError, duplicate_name, relay_error, Adapter,
}
use Check.{validate_relay}
use Conflict.{find_conflicts}
use Listener.{build_listeners}

unfoldable pub listen_port : Str → ℤ
listen_port addr = elim (split_host_port addr) [
  | err e ↦ pos 0
  | ok (host, port) ↦ value_of (atoi port)
]

-- `nameCount`
unfoldable pub name_count : Str → List Relay → ℕ
name_count name rs = length (filter (λ r. r.name == name) rs)

-- The variables of the first loop of `NewPlan`.
pub record Checked : Type 0 where
  pub relays : List RelaySpec
  pub endpoints : List Endpoint
  pub errs : List PlanError

abbrev pub start : Checked
start = record { relays = []; endpoints = []; errs = [] }

unfoldable pub check_relay : Adapter → Config → ℕ → Relay → Checked → Checked
check_relay a cfg i r c =
    if not (is_empty r.name) && ltb 1 (name_count r.name cfg.relays)
    then record c { errs = c.errs ++ duplicate_name r.name ∷ [] }
    else elim (validate_relay a (fetched_sub_names cfg) (listen_port cfg.listen) r) [
      | err e ↦ record c { errs = c.errs ++ relay_error i r.name e ∷ [] }
      | ok (spec, eps) ↦ record c { relays = c.relays ++ spec ∷ []; endpoints = c.endpoints ++ eps }
    ]

unfoldable pub check_relays : Adapter → Config → ℕ → List Relay → Checked → Checked
check_relays a cfg i [] c = c
check_relays a cfg i (r ∷ rs) c = check_relays a cfg (suc i) rs (check_relay a cfg i r c)

-- The endpoints of the relays that are in no conflict.
unfoldable pub kept_endpoints : List Endpoint → List Endpoint
kept_endpoints eps = filter (λ e. not (contains (find_conflicts eps).rejected e.relay)) eps

unfoldable pub kept_relays : List Endpoint → List RelaySpec → List RelaySpec
kept_relays eps = filter (λ r. not (contains (find_conflicts eps).rejected r.name))

-- `none` stands for a fault of `buildListeners`.
unfoldable pub new_plan : Adapter → Config → Option Plan × List PlanError
new_plan a cfg =
    let c = check_relays a cfg 0 cfg.relays start in
    (
      elim (build_listeners (kept_endpoints c.endpoints)) [
        | none ↦ none
        | some ls ↦ some (record { relays = kept_relays c.endpoints c.relays; listeners = ls })
      ],
      c.errs ++ (find_conflicts c.endpoints).errs,
    )
