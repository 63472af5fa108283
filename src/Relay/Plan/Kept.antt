-- ===== src/Relay/Plan/Kept.antt =====
-- The endpoints that `NewPlan` keeps belong to relays of the plan.
use proxy_proxy.Prelude.{
  ℕ, suc, List, [], ◌∷◌, some, true, false, not, ◌&&◌, ◌≡◌, refl, ap, ◌∙◌, inl, inr, arith, Memᴰ,
}
use proxy_proxy.Prelude.Tests.{Result-cases, ok, ltb, Bool-cases}
use proxy_proxy.Prelude.Int.{ℤ}
use proxy_proxy.Prelude.Member.{mem-filter, mem-filter_of}
use proxy_proxy.Prelude.Text.{str_eq, is_empty}
use proxy_proxy.Config.Types.{Config, Relay, Downstream, fetched_sub_names}
use proxy_proxy.Relay.Types.{Plan, Endpoint, RelaySpec, Adapter}
use proxy_proxy.Relay.Plan.{
  Checked, start, check_relay, check_relays, kept_endpoints, kept_relays, name_count, listen_port,
  new_plan,
}
use proxy_proxy.Relay.Plan.Check.{auth_error, check_downstream, validate_relay}
use proxy_proxy.Relay.Plan.Accept.{
  validate_relay-Passed, not-empty_of_name, checked-IsAccepted, IsAccepted-relay,
  check_downstreams-endpoint,
}
use proxy_proxy.Relay.Plan.Laws.{new_plan-relays, checked_relays, checked_endpoints}
use mathlib.Core.List.Memᴰ

-- Each endpoint so far names a relay that has been accepted.
HasRelays : Checked → Type 0
HasRelays c =
    (e : Endpoint) → Memᴰ e c.endpoints → (s : RelaySpec) × Memᴰ s c.relays × (s.name ≡ e.relay)

check_downstream-password :
    (d : Downstream) (own_port : ℤ) (e : Endpoint)
    → check_downstream d own_port ≡ ok e
    → is_empty e.username ≡ true
    → is_empty e.password ≡ true
unfolding check_downstream auth_error
check_downstream-password d own_port e h q = ground arith

module _ (a : Adapter) (cfg : Config) where
  check_relay-HasRelays :
      (i : ℕ) (r : Relay) (c : Checked) → HasRelays c → HasRelays (check_relay a cfg i r c)
  unfolding check_relay HasRelays
  check_relay-HasRelays i r c old =
      elim (Bool-cases (not (is_empty r.name) && ltb 1 (name_count r.name cfg.relays))) [
        | inl repeated ↦ rw repeated old
        | inr single ↦
            elim (Result-cases
              (validate_relay a (fetched_sub_names cfg) (listen_port cfg.listen) r)) [
                | inr (x, bad) ↦ rw (single, bad, check_relay) old
                | inl ((spec, eps), good) ↦
                    let p = validate_relay-Passed a _ _ r good in
                    rw (single, good, check_relay)
                      (λ e m. elim (Memᴰ.append_cases c.endpoints m) [
                        | inl before ↦
                            let (s, ms, q) = old e before in (s, Memᴰ.append_left (spec ∷ []) ms, q)
                        | inr new ↦
                            let (d, e', _, _, q) =
                              check_downstreams-endpoint r.name _ 0 r.downstream p.downstreams
                                new in
                            (
                              spec,
                              Memᴰ.append_right c.relays (Memᴰ.head refl),
                              p.spec_name ∙ ap (λ (x : Endpoint). x.relay) q,
                            )
                      ])
              ]
      ]

  check_relays-HasRelays :
      (i : ℕ) (rs : List Relay) (c : Checked) → HasRelays c → HasRelays (check_relays a cfg i rs c)
  unfolding check_relays
  check_relays-HasRelays i [] c h = h
  check_relays-HasRelays i (r ∷ rs) c h =
      check_relays-HasRelays (suc i) rs (check_relay a cfg i r c) (check_relay-HasRelays i r c h)

  -- A kept endpoint belongs to a relay of the plan.
  pub kept_endpoint-relay :
      (p : Plan) (e : Endpoint)
      → (new_plan a cfg).0 ≡ some p
      → Memᴰ e (kept_endpoints (checked_endpoints a cfg))
      → (s : RelaySpec) × Memᴰ s p.relays × (s.name ≡ e.relay)
  unfolding kept_endpoints kept_relays HasRelays
  kept_endpoint-relay p e h m =
      let eps = checked_endpoints a cfg in
      let (m', free) = mem-filter _ eps m in
      let (s, ms, q) = check_relays-HasRelays 0 cfg.relays start (λ x k. elim k [ ]) e m' in
      (s, rw (new_plan-relays a cfg p h) (mem-filter_of _ (checked_relays a cfg) ms (rw q free)), q)

  pub kept_endpoint-relay_name :
      (e : Endpoint) → Memᴰ e (kept_endpoints (checked_endpoints a cfg)) → is_empty e.relay ≡ false
  unfolding kept_endpoints
  kept_endpoint-relay_name e m =
      let h = checked-IsAccepted a cfg e (mem-filter _ (checked_endpoints a cfg) m).0 in
      rw (IsAccepted-relay h) (not-empty_of_name h.relay.name h.passed.name)

  pub kept_endpoint-password :
      (e : Endpoint)
      → Memᴰ e (kept_endpoints (checked_endpoints a cfg))
      → is_empty e.username ≡ true
      → is_empty e.password ≡ true
  unfolding kept_endpoints
  kept_endpoint-password e m q =
      let h = checked-IsAccepted a cfg e (mem-filter _ (checked_endpoints a cfg) m).0 in
      let (d, e', _, good, same) =
        check_downstreams-endpoint h.relay.name _ 0 h.relay.downstream h.passed.downstreams
          h.mine in
      rw (← same) (check_downstream-password d _ e' good (rw (← same) at q))
