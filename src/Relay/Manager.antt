-- ===== src/Relay/Manager.antt =====
-- internal/relay/manager.go: the loop that keeps mihomo in step with the plan and the nodes.
pub mod Outcome
pub mod Timers
pub mod Latest
use proxy_proxy.Prelude.{
  ℕ, ◌+◌, ◌≤◌, List, [], ◌∷◌, ◌++◌, map, Option, none, some, Bool, true, false, not, ◌&&◌, ◌≡◌,
}
use proxy_proxy.Prelude.Tests.{if◌then◌else◌, ltb, ◌==◌, Result, ok, err}
use proxy_proxy.Prelude.Dict.{Dict}
use proxy_proxy.Prelude.Member.{contains}
use proxy_proxy.Prelude.Text.{Str, str_eq}
use proxy_proxy.Node.Value.{Object}
use proxy_proxy.Relay.Types.{Adapter, Plan, RelaySpec}
use proxy_proxy.Relay.Registry.{NodeSource}
use proxy_proxy.Relay.Render.{Desired, desired_doc, render_plan}
use proxy_proxy.Relay.Core.{Applied, start, apply, stop}
use proxy_proxy.Relay.Draining.{sweep, next_deadline}
use proxy_proxy.Relay.Mihomo.{Mihomo, Core, Command, Tracker, new_core}

-- In nanoseconds, one second.
abbrev pub debounce : ℕ
debounce = 1000000000

-- What the loop calls: the parts of mihomo, `json.Marshal` and `yaml.Marshal`.
pub record Outside : Type 1 where
  pub mihomo : Mihomo
  pub adapter : Adapter
  pub marshal : Object → Option Str
  pub marshal_yaml : Object → Result Str Str

-- What the loop sees when it handles an event: the time, the open connections, and the nodes.
pub record Moment : Type 0 where
  pub time : ℕ
  pub open_now : List Tracker
  pub nodes : NodeSource

-- The variables of `Run`, the channel of plans, and the heap of mihomo.
pub record Loop (M : Mihomo) : Type 0 where
  pub core : Core M
  pub plan : Option Plan
  pub applied : Str
  pub timer : Option ℕ
  pub sweep_timer : Option ℕ
  pub plans : Option Plan
  pub heap : M.Heap

-- What an event makes of the loop, the calls of mihomo, and the connections that it closes.
pub record Handled (M : Mihomo) : Type 0 where
  pub loop : Loop M
  pub commands : List (Command M)
  pub closed : List Str

abbrev pub new_loop : (M : Mihomo) → M.Heap → Loop M
new_loop M heap = record {
  core = new_core M;
  plan = none;
  applied = [];
  timer = none;
  sweep_timer = none;
  plans = none;
  heap = heap;
}

abbrev pub no_relays : List RelaySpec → Bool
no_relays [] = true
no_relays (r ∷ rs) = false

module _ (M : Mihomo) where
  -- A channel of one plan: `SetPlan` drops a plan that has not been picked up.
  unfoldable pub set_plan : Plan → Loop M → Loop M
  set_plan p s = record s { plans = some p }

  unfoldable pub schedule_sweep : Loop M → Loop M
  schedule_sweep s = record s { sweep_timer = next_deadline s.core.draining }

  abbrev pub unchanged : Loop M → Handled M
  unchanged s = record { loop = s; commands = []; closed = [] }

  -- What `apply` in `Run` does with the result of the core's `apply`.
  unfoldable pub take_applied : Str → List (Command M) → Loop M → Applied M → Handled M
  unfolding schedule_sweep
  take_applied body before s r = elim r.error [
    | some e ↦ record {
      loop = record s { core = r.core; heap = r.heap };
      commands = before ++ r.commands;
      closed = [];
    }
    | none ↦
        let s' : Loop M = record s { core = r.core; heap = r.heap; applied = body } in
        record {
          loop = if ltb 0 r.stats.draining then schedule_sweep s' else s';
          commands = before ++ r.commands;
          closed = [];
        }
  ]

  -- The end of `apply` in `Run`, with the calls before it.
  unfoldable pub apply_state : Desired → Str → Moment → List (Command M) → Loop M → Handled M
  unfolding take_applied
  apply_state d body now before s =
      take_applied body before s (apply M s.core d now.time now.open_now s.heap)

-- The part of `apply` of `Run` that starts mihomo before it applies the state.
unfoldable pub start_plan :
    (o : Outside) → Desired → Str → Moment → Loop (o.mihomo) → Handled (o.mihomo)
start_plan o d body now s =
    let r = start o.mihomo s.core s.heap in
    let s' : Loop (o.mihomo) = record s { core = r.core; heap = r.heap } in
    elim r.error [
      | some e ↦ record { loop = s'; commands = r.commands; closed = [] }
      | none ↦ apply_state o.mihomo d body now r.commands s'
    ]

-- `apply` of `Run` with a plan
unfoldable pub apply_this : (o : Outside) → Plan → Moment → Loop (o.mihomo) → Handled (o.mihomo)
unfolding start_plan
apply_this o p now s =
    if not s.core.started && no_relays p.relays
    then unchanged o.mihomo s
    else (let d = (render_plan o.adapter o.marshal now.nodes p).0 in
        elim (o.marshal_yaml (desired_doc d)) [
          | err e ↦ unchanged o.mihomo s
          | ok body ↦
              if s.core.started && body == s.applied
              then unchanged o.mihomo s
              else if not s.core.started
              then start_plan o d body now s
              else apply_state o.mihomo d body now [] s
        ])

-- `apply` of `Run`
unfoldable pub apply_plan :
    (o : Outside) → Option Plan → Moment → Loop (o.mihomo) → Handled (o.mihomo)
unfolding apply_this
apply_plan o none now s = unchanged o.mihomo s
apply_plan o (some p) now s = apply_this o p now s

-- `case plan = <-m.plans`
unfoldable pub on_plan : (o : Outside) → Plan → Moment → Loop (o.mihomo) → Handled (o.mihomo)
unfolding apply_plan
on_plan o p now s =
    apply_plan o (some p) now (record s { plans = none; plan = some p; timer = none })

-- `case <-m.store.Changed()`
unfoldable pub on_changed : (M : Mihomo) → Moment → Loop M → Loop M
on_changed M now s = record s {
  timer = elim s.timer [ none ↦ some (now.time + debounce) | some t ↦ some t ];
}

-- `case <-timer`
unfoldable pub on_timer : (o : Outside) → Moment → Loop (o.mihomo) → Handled (o.mihomo)
unfolding apply_plan
on_timer o now s = apply_plan o s.plan now (record s { timer = none })

-- Whether mihomo tracks a connection.
unfoldable pub tracks : Moment → Str → Bool
tracks now id = contains (map (λ t. t.id) now.open_now) id

-- `case <-sweepTimer`
unfoldable pub on_sweep : (M : Mihomo) → Moment → Loop M → Handled M
unfolding schedule_sweep tracks
on_sweep M now s =
    let (draining, closed) = sweep now.time (tracks now) s.core.draining in
    record {
      loop = schedule_sweep M (record s { core = record (s.core) { draining = draining } });
      commands = [];
      closed = closed;
    }

-- `case <-ctx.Done()`
unfoldable pub on_done : (M : Mihomo) → Loop M → List (Command M)
on_done M s = stop M s.core

-- A step of the loop, or of the caller of `SetPlan`. A timer fires no earlier than it is set to.
pub data Step (o : Outside) (now : Moment) : Loop (o.mihomo) → Loop (o.mihomo) → Type 0 where
  sets : {s : Loop (o.mihomo)} (p : Plan) → Step o now s (set_plan o.mihomo p s)
  picks :
      {s : Loop (o.mihomo)} (p : Plan) → s.plans ≡ some p → Step o now s (on_plan o p now s).loop
  changes : {s : Loop (o.mihomo)} → Step o now s (on_changed o.mihomo now s)
  fires :
      {s : Loop (o.mihomo)} {t : ℕ}
      → s.timer ≡ some t
      → t ≤ now.time
      → Step o now s (on_timer o now s).loop
  sweeps :
      {s : Loop (o.mihomo)} {t : ℕ}
      → s.sweep_timer ≡ some t
      → t ≤ now.time
      → Step o now s (on_sweep o.mihomo now s).loop

-- The states of the loop.
pub data Reaches (o : Outside) (heap : o.mihomo.Heap) : Loop (o.mihomo) → Type 0 where
  first : Reaches o heap (new_loop (o.mihomo) heap)
  next :
      {now : Moment} {s s' : Loop (o.mihomo)}
      → Reaches o heap s
      → Step o now s s'
      → Reaches o heap s'
