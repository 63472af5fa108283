-- ===== src/Tests/Reload.antt =====
-- main.go: a reload that drops a sub, and ticks of the watch.
use proxy_proxy.Prelude.{[], ◌∷◌, none, some, true, false, ◌≡◌, ◌≢◌, refl}
use proxy_proxy.Prelude.Tests.{Result, ok, err}
use proxy_proxy.Prelude.Int.{pos}
use proxy_proxy.Prelude.Text.{Str, str_eq}
use proxy_proxy.Config.Types.{Config}
use proxy_proxy.Relay.Types.{Adapter}
use proxy_proxy.Agg.Store.Steps.{new_world, run}
use proxy_proxy.Node.Key.{fnv64a}
use proxy_proxy.Main.{Running, reload, Watch, Tick, hash_bytes, watch_tick}
use proxy_proxy.Main.Laws.{IsReloaded, reload_lem, watch_tick_lem, watch_tick-missed}
use proxy_proxy.Tests.Agg.{sub_a, codec, events}

abbrev adapter : Adapter
adapter = record { Proxy = Unit {0}; parse_proxy = λ o. ok tt; close = λ p. none }

abbrev config : Config
config = record {
  listen = [];
  user_agent = [];
  timeout = pos 1;
  subs = record { name = sub_a; url = sub_a; file = []; typ = []; interval = pos 1 } ∷ [];
  keys = [];
  relays = [];
  relay_subs = [];
}

abbrev running : Running
running = record {
  cfg = config;
  store = (run codec events new_world).store;
  refreshed = [];
  plan = none;
}

abbrev loaded : Result Str Config
loaded = ok config

reload_lem_example :
    let r' = reload adapter loaded [] running in
    ((e : Str) → loaded ≡ err e → r' ≡ running)
    × ((c : Config) → loaded ≡ ok c → IsReloaded adapter c running r')
reload_lem_example = reload_lem adapter loaded [] running

abbrev watch : Watch
watch = record { last_mod = 1; last_size = 1; last_hash = 1 }

abbrev tick : Tick
tick = record { stat = some (2, 1); content = some sub_a }

watch_tick_run : (watch_tick watch tick).1 ≡ true
unfolding watch_tick fnv64a
watch_tick_run = refl

watch_tick_lem_example :
    (b : Str) × (tick.content ≡ some b)
    × (hash_bytes b ≢ watch.last_hash)
    × ((watch_tick watch tick).0.last_hash ≡ hash_bytes b)
watch_tick_lem_example = watch_tick_lem watch tick watch_tick_run

watch_tick-missed_example :
    let missed = watch_tick watch (record { stat = some (2, 1); content = none }) in
    (watch_tick missed.0 (record { stat = some (2, 1); content = some sub_a })).1 ≡ false
watch_tick-missed_example = watch_tick-missed watch 2 1 (some sub_a)
