-- ===== src/Relay/Manager/Latest.antt =====
-- No plan is lost: the loop works on the last plan that `SetPlan` was given, or it waits.
use proxy_proxy.Prelude.{List, [], Option, none, some, ◌≡◌, refl, sym, ap, ◌∙◌, inl, inr}
use proxy_proxy.Prelude.Tests.{ltb, Option-cases, Bool-cases}
use proxy_proxy.Prelude.Text.{Str}
use proxy_proxy.Relay.Types.{Plan}
use proxy_proxy.Relay.Render.{Desired}
use proxy_proxy.Relay.Core.{Applied, start, apply}
use proxy_proxy.Relay.Mihomo.{Mihomo, Command}
use proxy_proxy.Relay.Manager.{
  Outside, Moment, Loop, set_plan, schedule_sweep, take_applied, apply_state, start_plan,
  apply_plan, on_plan, on_changed, on_timer, on_sweep, sets, picks, changes, fires, sweeps, Reaches,
  first, next,
}
use proxy_proxy.Relay.Manager.Outcome.{apply_plan-outcome}

-- The plan that waits in the channel, or else the one that the loop works on.
abbrev pub newest_of : Option Plan → Option Plan → Option Plan
newest_of none plan = plan
newest_of (some p) plan = some p

abbrev pub newest : {M : Mihomo} → Loop M → Option Plan
newest s = newest_of s.plans s.plan

module _ (o : Outside) where
  -- The last plan given to `SetPlan` on the way to a state.
  unfoldable pub last_set :
      {heap : o.mihomo.Heap} {s : Loop (o.mihomo)} → Reaches o heap s → Option Plan
  last_set first = none
  last_set (next before (sets p)) = some p
  last_set (next before (picks p there)) = last_set before
  last_set (next before changes) = last_set before
  last_set (next before (fires set due)) = last_set before
  last_set (next before (sweeps set due)) = last_set before

  -- The plan and the channel are as before.
  abbrev SamePlans : Loop (o.mihomo) → Loop (o.mihomo) → Type 0
  SamePlans s s' = (s'.plan ≡ s.plan) × (s'.plans ≡ s.plans)

  take_applied-SamePlans :
      (body : Str) (before : List (Command (o.mihomo))) (s : Loop (o.mihomo))
      (r : Applied (o.mihomo))
      → SamePlans s (take_applied (o.mihomo) body before s r).loop
  unfolding take_applied schedule_sweep
  take_applied-SamePlans body before s r = elim (Option-cases r.error) [
    | inr (e, bad) ↦ rw (bad, take_applied) (refl, refl)
    | inl fine ↦ elim (Bool-cases (ltb 0 r.stats.draining)) [
      | inl marked ↦ simp (fine, marked, take_applied) (refl, refl)
      | inr idle ↦ simp (fine, idle, take_applied) (refl, refl)
    ]
  ]

  start_plan-SamePlans :
      (d : Desired) (body : Str) (now : Moment) (s : Loop (o.mihomo))
      → SamePlans s (start_plan o d body now s).loop
  unfolding start_plan apply_state
  start_plan-SamePlans d body now s =
      let r = start (o.mihomo) s.core s.heap in
      let s' : Loop (o.mihomo) = record s { core = r.core; heap = r.heap } in
      elim (Option-cases r.error) [
        | inr (e, bad) ↦ rw (bad, start_plan) (refl, refl)
        | inl fine ↦
            rw (fine, start_plan)
              (take_applied-SamePlans body r.commands s'
                (apply (o.mihomo) s'.core d now.time now.open_now s'.heap))
      ]

  apply_plan-SamePlans :
      (p : Option Plan) (now : Moment) (s : Loop (o.mihomo))
      → SamePlans s (apply_plan o p now s).loop
  unfolding apply_state
  apply_plan-SamePlans p now s =
      apply_plan-outcome o p now s (λ r. SamePlans s r.loop) (refl, refl)
        (λ d body. start_plan-SamePlans d body now s)
        (λ d body.
          take_applied-SamePlans body [] s (apply (o.mihomo) s.core d now.time now.open_now s.heap))

  newest-apply_plan :
      (p : Option Plan) (now : Moment) (s : Loop (o.mihomo))
      → newest (apply_plan o p now s).loop ≡ newest s
  newest-apply_plan p now s =
      let (plan, plans) = apply_plan-SamePlans p now s in rw (plan, plans) refl

  -- In every state that the loop reaches, whatever plans were dropped on the way, the plan that
  -- waits, or else the one that the loop works on, is the last one that `SetPlan` was given.
  pub newest_lem :
      {heap : o.mihomo.Heap} {s : Loop (o.mihomo)} (r : Reaches o heap s) → newest s ≡ last_set r
  unfolding last_set set_plan on_plan on_changed on_timer on_sweep schedule_sweep
  newest_lem first = refl
  newest_lem (next before (sets p)) = refl
  newest_lem (next {now} {s} before (picks p there)) =
      newest-apply_plan (some p) now (record s { plans = none; plan = some p; timer = none })
      ∙ (sym (ap (λ q. newest_of q s.plan) there) ∙ newest_lem before)
  newest_lem (next before changes) = newest_lem before
  newest_lem (next {now} {s} before (fires set due)) =
      newest-apply_plan s.plan now (record s { timer = none }) ∙ newest_lem before
  newest_lem (next before (sweeps set due)) = newest_lem before
