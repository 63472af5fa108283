-- ===== src/Tests/RelayLoop.antt =====
-- internal/relay/manager.go: a plan is replaced while a connection is open.
use proxy_proxy.Prelude.{ℕ, [], ◌∷◌, none, some, ◌≡◌, refl, ◌≤◌, ◌<◌}
use proxy_proxy.Prelude.Tests.{ok}
use proxy_proxy.Prelude.Fresh.{free_name, first_free}
use proxy_proxy.Relay.Types.{Plan}
use proxy_proxy.Relay.Mihomo.{drain_timeout}
use proxy_proxy.Node.Value.{object}
use proxy_proxy.Prelude.Text.{str_eq}
use proxy_proxy.Prelude.Text.{
  lit, str_beq, has_prefix, form_width, drop_forms, trim_space, lower_head, lower_from, join,
}
use proxy_proxy.Prelude.Dict.{keys, lookup, insert, remove}
use proxy_proxy.Prelude.Member.{contains, append_unique, uniques_from}
use proxy_proxy.Node.Value.{get, set}
use proxy_proxy.Node.Sprint.{sprint, str_ltb, insert_field, print_bool, str, to_int, to_bool}
use proxy_proxy.Node.Types.{uri, clash_map}
use proxy_proxy.Node.Key.{
  fnv64a_from, fnv64a, hex_from, hex, without, canonical_hash, auth_of, clash_key, from_clash_map,
}
use proxy_proxy.Node.Names.{fallback_name, unique_name, unique_names_from, unique_names}
use proxy_proxy.Relay.Types.{strategies, listener_types, builtin_proxies}
use proxy_proxy.Relay.Plan.Check.{
  check_relay_name, check_proxy, check_own_port, check_own_ports_from, check_own_ports,
  check_upstream, check_upstreams, check_downstreams, validate_relay,
}
use proxy_proxy.Relay.Registry.{
  content_key, display_name, proxy_name, registry_key, load, add, add_member, add_nodes, warn,
  add_upstream, add_upstreams, members,
}
use proxy_proxy.Relay.Render.{
  general_config, desired_doc, strategy_group, strategy_of, relay_group, group_relay, group_relays,
  target_of, user_rule, add_user, add_users, listener_head, add_listener, add_listeners,
  new_registry, grouped, listening, render_plan,
}
use proxy_proxy.Relay.Core.{
  start, kept_proxy, put_proxy, load_proxy, load_proxies, same_proxies, kept_group, put_group,
  provider_of, load_group, load_groups, load_rules, load_listeners, close_groups, parse_all,
  switch_over, apply, stop,
}
use proxy_proxy.Relay.Draining.{
  same_object, members_of, target_at, last_of, stale, mark_each, mark_stale, sweep, next_from,
  next_deadline,
}
use proxy_proxy.Relay.Manager.{
  set_plan, schedule_sweep, take_applied, apply_state, start_plan, apply_this, apply_plan, on_plan,
  on_changed, on_timer, tracks, on_sweep, on_done,
}
use proxy_proxy.Relay.Manager.{Outside, Moment, Loop, new_loop, Reaches, first, next, sets, picks}
use proxy_proxy.Relay.Manager.Timers.{drained_lem}
use proxy_proxy.Relay.Manager.Latest.{newest, last_set, newest_lem}
use proxy_proxy.Tests.RelayPlan.{adapter, pool_plan}
use proxy_proxy.Tests.RelayRender.{marshal, no_nodes}
use proxy_proxy.Tests.RelayCore.{counting, caller, before, numbers, listed, group_of}

-- The plan with one relay is replaced by one without relays while a connection is open.
abbrev outside : Outside
outside = record {
  mihomo = counting;
  adapter = adapter;
  marshal = marshal;
  marshal_yaml = λ d. ok (sprint (object d));
}

abbrev idle_plan : Plan
idle_plan = record { relays = []; listeners = [] }

abbrev moment : Moment
moment = record { time = 0; open_now = caller ∷ []; nodes = no_nodes }

abbrev waiting : Loop counting
waiting = set_plan counting pool_plan (new_loop counting 0)

abbrev applied_pool : Loop counting
applied_pool = (on_plan outside pool_plan moment waiting).loop

abbrev replaced : Loop counting
replaced = (on_plan outside idle_plan moment (set_plan counting idle_plan applied_pool)).loop

picked_pool : Reaches outside 0 applied_pool
unfolding set_plan
picked_pool =
    next {now = moment} (next {now = moment} first (sets pool_plan)) (picks pool_plan refl)

picked_idle : Reaches outside 0 replaced
unfolding set_plan
picked_idle =
    next {now = moment} (next {now = moment} picked_pool (sets idle_plan)) (picks idle_plan refl)

newest_lem_example : newest replaced ≡ last_set outside picked_idle
newest_lem_example = newest_lem outside picked_idle

-- Everything that the run of the loop computes with.
loop_program : Unit {0}
unfolding lit str_beq has_prefix form_width drop_forms trim_space lower_head lower_from join keys
    lookup insert remove contains append_unique uniques_from get set str_ltb insert_field print_bool
    str to_int to_bool uri clash_map fnv64a_from fnv64a hex_from hex without canonical_hash auth_of
    clash_key from_clash_map fallback_name unique_name unique_names_from unique_names strategies
    listener_types builtin_proxies check_relay_name check_proxy check_own_port check_own_ports_from
    check_own_ports check_upstream check_upstreams check_downstreams validate_relay content_key
    display_name proxy_name registry_key load add add_member add_nodes warn add_upstream
    add_upstreams members general_config desired_doc strategy_group strategy_of relay_group
    group_relay group_relays target_of user_rule add_user add_users listener_head add_listener
    add_listeners new_registry grouped listening render_plan start kept_proxy put_proxy load_proxy
    load_proxies same_object same_proxies members_of kept_group put_group provider_of load_group
    load_groups load_rules load_listeners target_at last_of stale mark_each mark_stale close_groups
    parse_all switch_over apply sweep next_from next_deadline stop set_plan schedule_sweep
    take_applied apply_state start_plan apply_this apply_plan on_plan on_changed on_timer tracks
    on_sweep on_done before numbers listed group_of
loop_program = tt

caller_drained : lookup (lit "caller") replaced.core.draining ≡ some drain_timeout
unfolding loop_program free_name first_free sprint
caller_drained = refl

drained_lem_example :
    ((t : ℕ) × (replaced.sweep_timer ≡ some t) × (t ≤ drain_timeout))
    × ((now : Moment)
        → drain_timeout ≤ now.time
        → let r = on_sweep counting now replaced in
          (contains r.closed (lit "caller") ≡ tracks now (lit "caller"))
          × (lookup (lit "caller") r.loop.core.draining ≡ none))
    × ((now : Moment) (t : ℕ)
        → (on_sweep counting now replaced).loop.sweep_timer ≡ some t
        → now.time < t)
drained_lem_example =
    drained_lem outside 0 replaced (lit "caller") drain_timeout picked_idle caller_drained
