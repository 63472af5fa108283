-- ===== src/Relay/Manager/Outcome.antt =====
-- The ways in which `apply` of `Run` ends, as one case for each.
use proxy_proxy.Prelude.{[], Option, none, some, Bool, true, false, not, ◌&&◌, inl, inr}
use proxy_proxy.Prelude.Tests.{if◌then◌else◌, ◌==◌, Bool-cases, Result-cases}
use proxy_proxy.Prelude.Text.{Str, str_eq}
use proxy_proxy.Relay.Types.{Plan}
use proxy_proxy.Relay.Render.{Desired, desired_doc, render_plan}
use proxy_proxy.Relay.Manager.{
  Outside, Moment, Loop, Handled, unchanged, no_relays, apply_state, start_plan, apply_this,
  apply_plan,
}

module _ (o : Outside) where
  either_way :
      (b : Bool) (x y : Handled (o.mihomo)) (P : Handled (o.mihomo) → Type 0)
      → P x
      → P y
      → P (if b then x else y)
  either_way true x y P h k = h
  either_way false x y P h k = k

  -- What holds of the loop as it is, and of each way to apply a state, holds after `apply`.
  pub apply_plan-outcome :
      (p : Option Plan) (now : Moment) (s : Loop (o.mihomo)) (P : Handled (o.mihomo) → Type 0)
      → P (unchanged (o.mihomo) s)
      → ((d : Desired) (body : Str) → P (start_plan o d body now s))
      → ((d : Desired) (body : Str) → P (apply_state (o.mihomo) d body now [] s))
      → P (apply_plan o p now s)
  unfolding apply_plan apply_this
  apply_plan-outcome none now s P kept started applied = kept
  apply_plan-outcome (some p) now s P kept started applied =
      let d = (render_plan o.adapter o.marshal now.nodes p).0 in
      elim (Bool-cases (not s.core.started && no_relays p.relays)) [
        | inl idle ↦ simp (idle, apply_this) kept
        | inr busy ↦ elim (Result-cases (o.marshal_yaml (desired_doc d))) [
          | inr (e, bad) ↦ simp (busy, bad, apply_this) kept
          | inl (body, good) ↦ elim (Bool-cases (s.core.started && body == s.applied)) [
            | inl same ↦ simp (busy, good, same, apply_this) kept
            | inr new ↦
                simp (busy, good, new, apply_this)
                  (either_way (not s.core.started) (start_plan o d body now s)
                    (apply_state (o.mihomo) d body now [] s) P (started d body) (applied d body))
          ]
        ]
      ]
