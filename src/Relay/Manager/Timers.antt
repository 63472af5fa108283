-- ===== src/Relay/Manager/Timers.antt =====
-- The timer of the sweep, and what it brings about: no drained connection is forgotten.
use proxy_proxy.Prelude.{
  ℕ, ◌≤◌, ◌<◌, List, [], Option, none, some, ◌≡◌, ◌≢◌, refl, sym, ap, ◌∙◌, inl, inr, arith,
}
use proxy_proxy.Prelude.Tests.{ltb, Bool-cases, Option-cases, Result-cases}
use proxy_proxy.Prelude.Dict.{Dict, lookup, keys}
use proxy_proxy.Prelude.Member.{contains, IsDistinct, All-mem}
use proxy_proxy.Prelude.Text.{Str, str_eq}
use proxy_proxy.Relay.Types.{Plan}
use proxy_proxy.Relay.Render.{Desired}
use proxy_proxy.Relay.Core.{start, switch_over, Applied, apply}
use proxy_proxy.Relay.Draining.{next_from, next_deadline, mark_stale}
use proxy_proxy.Relay.Mihomo.{Mihomo, Core, Command}
use proxy_proxy.Relay.Core.Apply.{apply-cases}
use proxy_proxy.Relay.Draining.Marks.{mark_stale_lem, sweep-IsDistinct}
use proxy_proxy.Relay.Draining.Deadlines.{
  deadlines, deadline-mem, IsEarliest, nothing, soonest, next_deadline-IsEarliest, sweep-IsSwept,
}
use proxy_proxy.Relay.Manager.{
  Outside, Moment, Loop, set_plan, schedule_sweep, take_applied, apply_state, apply_plan,
  start_plan, on_plan, on_changed, on_timer, tracks, on_sweep, Step, sets, picks, changes, fires,
  sweeps, Reaches, first, next,
}
use proxy_proxy.Relay.Manager.Outcome.{apply_plan-outcome}

-- The sweep is timed for the earliest deadline, and a connection has one deadline.
pub record IsTimed (M : Mihomo) (s : Loop M) : Type 0 where
  pub sweep : s.sweep_timer ≡ next_deadline s.core.draining
  pub distinct : IsDistinct (keys s.core.draining)

module _ (M : Mihomo) where
  failed-IsTimed :
      (body : Str) (before : List (Command M)) (s : Loop M) (r : Applied M)
      → IsTimed M s
      → r.error ≢ none
      → r.core ≡ s.core
      → IsTimed M (take_applied M body before s r).loop
  unfolding take_applied
  failed-IsTimed body before s r h failed same = elim (Option-cases r.error) [
    | inl fine ↦ absurd (failed fine)
    | inr (e, bad) ↦
        rw (bad, take_applied) (record { sweep = rw same h.sweep; distinct = rw same h.distinct })
  ]

  apply_state-IsTimed :
      (d : Desired) (body : Str) (now : Moment) (before : List (Command M)) (s : Loop M)
      → IsTimed M s
      → IsTimed M (apply_state M d body now before s).loop
  unfolding apply_state take_applied schedule_sweep switch_over
  apply_state-IsTimed d body now before s h =
      elim (apply-cases M s.core d now.time now.open_now s.heap) [
        | inl (failed, same, _) ↦
            failed-IsTimed body before s (apply M s.core d now.time now.open_now s.heap) h failed
              same
        | inr (p, parsed, eq) ↦
            let (kept, idle) = mark_stale_lem M s.core now.time now.open_now d p.proxies.proxies in
            let n = (mark_stale M s.core now.time now.open_now d p.proxies.proxies).1 in
            rw eq (elim (Bool-cases (ltb 0 n)) [
              | inl marked ↦ rw marked (record { sweep = refl; distinct = kept h.distinct })
              | inr unmarked ↦
                  let same = idle (ground arith) in
                  rw unmarked (record { sweep = rw same h.sweep; distinct = kept h.distinct })
            ])
      ]

  -- `start` changes no deadline.
  start-draining : (c : Core M) (heap : M.Heap) → (start M c heap).core.draining ≡ c.draining
  unfolding start
  start-draining c heap = elim (Result-cases (M.parse_general heap).0) [
    | inl (b, good) ↦ rw (good, start) refl
    | inr (e, bad) ↦ rw (bad, start) refl
  ]

  -- A loop with the same deadlines and the same sweep is timed as well.
  moved-IsTimed :
      (s s' : Loop M)
      → s'.sweep_timer ≡ s.sweep_timer
      → s'.core.draining ≡ s.core.draining
      → IsTimed M s
      → IsTimed M s'
  moved-IsTimed s s' timer same h = record {
    sweep = timer ∙ (h.sweep ∙ ap next_deadline (sym same));
    distinct = rw same h.distinct;
  }

module _ (o : Outside) where
  start_plan-IsTimed :
      (d : Desired) (body : Str) (now : Moment) (s : Loop (o.mihomo))
      → IsTimed (o.mihomo) s
      → IsTimed (o.mihomo) (start_plan o d body now s).loop
  unfolding start_plan
  start_plan-IsTimed d body now s h =
      let r = start (o.mihomo) s.core s.heap in
      let s' : Loop (o.mihomo) = record s { core = r.core; heap = r.heap } in
      let h' = moved-IsTimed (o.mihomo) s s' refl (start-draining (o.mihomo) s.core s.heap) h in
      elim (Option-cases r.error) [
        | inl fine ↦
            rw (fine, start_plan) (apply_state-IsTimed (o.mihomo) d body now r.commands s' h')
        | inr (e, bad) ↦ rw (bad, start_plan) h'
      ]

  apply_plan-IsTimed :
      (p : Option Plan) (now : Moment) (s : Loop (o.mihomo))
      → IsTimed (o.mihomo) s
      → IsTimed (o.mihomo) (apply_plan o p now s).loop
  apply_plan-IsTimed p now s h =
      apply_plan-outcome o p now s (λ r. IsTimed (o.mihomo) r.loop) h
        (λ d body. start_plan-IsTimed d body now s h)
        (λ d body. apply_state-IsTimed (o.mihomo) d body now [] s h)

  Step-IsTimed :
      {now : Moment} {s s' : Loop (o.mihomo)}
      → Step o now s s'
      → IsTimed (o.mihomo) s
      → IsTimed (o.mihomo) s'
  unfolding set_plan on_plan on_changed on_timer on_sweep schedule_sweep
  Step-IsTimed {now} {s} (sets p) h = record { sweep = h.sweep; distinct = h.distinct }
  Step-IsTimed {now} {s} (picks p there) h =
      apply_plan-IsTimed (some p) now (record s { plans = none; plan = some p; timer = none })
        (record { sweep = h.sweep; distinct = h.distinct })
  Step-IsTimed {now} {s} changes h = record { sweep = h.sweep; distinct = h.distinct }
  Step-IsTimed {now} {s} (fires set due) h =
      apply_plan-IsTimed s.plan now (record s { timer = none })
        (record { sweep = h.sweep; distinct = h.distinct })
  Step-IsTimed {now} {s} (sweeps set due) h = record {
    sweep = refl;
    distinct = sweep-IsDistinct now.time (tracks now) s.core.draining h.distinct;
  }

  Reaches-IsTimed :
      {heap : o.mihomo.Heap} {s : Loop (o.mihomo)} → Reaches o heap s → IsTimed (o.mihomo) s
  unfolding next_deadline next_from keys
  Reaches-IsTimed first = record { sweep = refl; distinct = tt }
  Reaches-IsTimed (next before step) = Step-IsTimed step (Reaches-IsTimed before)

  earliest-le :
      (draining : Dict Str ℕ) (id : Str) (w : ℕ)
      → lookup id draining ≡ some w
      → (t : ℕ) × (next_deadline draining ≡ some t) × (t ≤ w)
  unfolding lookup
  earliest-le draining id w q = go (next_deadline draining) (next_deadline-IsEarliest draining) refl
    where
      go :
          (n : Option ℕ)
          → IsEarliest draining n
          → next_deadline draining ≡ n
          → (t : ℕ) × (next_deadline draining ≡ some t) × (t ≤ w)
      go none (nothing idle) e =
          let bad : none ≡ some w = ap (lookup id) (sym idle) ∙ q in absurd (cc)
      go (some t) (soonest m below) e =
          (t, e, All-mem (λ v. t ≤ v) (deadlines draining) below (deadline-mem id w draining q))

  -- No connection that is being drained is forgotten. In every state that the loop reaches, the
  -- sweep is set to a time that is not after the connection's deadline, a sweep at or after the
  -- deadline closes the connection if it is still open and forgets it, and the sweep after any sweep
  -- is set to a later time.
  pub drained_lem :
      (heap : o.mihomo.Heap) (s : Loop (o.mihomo)) (id : Str) (w : ℕ)
      → Reaches o heap s
      → lookup id s.core.draining ≡ some w
      → ((t : ℕ) × (s.sweep_timer ≡ some t) × (t ≤ w))
        × ((now : Moment)
            → w ≤ now.time
            → let r = on_sweep (o.mihomo) now s in
              (contains r.closed id ≡ tracks now id) × (lookup id r.loop.core.draining ≡ none))
        × ((now : Moment) (t : ℕ)
            → (on_sweep (o.mihomo) now s).loop.sweep_timer ≡ some t
            → now.time < t)
  unfolding on_sweep schedule_sweep
  drained_lem heap s id w reached q =
      let h = Reaches-IsTimed reached in
      let (t, next_is, le) = earliest-le s.core.draining id w q in
      (
        (t, h.sweep ∙ next_is, le),
        λ now due.
            let swept = sweep-IsSwept now.time (tracks now) s.core.draining h.distinct in
            (swept.closed id ∙ (rw q (ground arith)), swept.left id ∙ (rw q (ground arith))),
        λ now t set. (sweep-IsSwept now.time (tracks now) s.core.draining h.distinct).next set,
      )
