-- ===== src/Tests/Serving.antt =====
-- internal/config/config.go and internal/server/server.go on a configuration with two subs, a key and
-- two relay upstreams with one URL.
use proxy_proxy.Prelude.{
  ℕ, List, [], ◌∷◌, map, none, some, true, false, ◌≡◌, ◌≢◌, ◌↔◌, ◌⊎◌, refl, ◌≤◌, ◌*◌, Memᴰ, arith,
}
use proxy_proxy.Prelude.Member.{contains, IsDistinct, All}
use proxy_proxy.Prelude.Int.{pos, pos_part}
use proxy_proxy.Prelude.Text.{Str, lit, str_eq, str_beq}
use proxy_proxy.Prelude.Tests.{Result, ok, err}
use proxy_proxy.Prelude.Fresh.{free_name, first_free}
use proxy_proxy.Prelude.Dict.{lookup, insert}
use proxy_proxy.Config.Types.{Sub, Key, Upstream, Config, sub_names, fetched_sub_names}
use proxy_proxy.Config.Source.{Platform, ConfigError}
use proxy_proxy.Config.RelaySubs.{minute, hour, resolve_relay_subs}
use proxy_proxy.Config.RelaySubs.Lists.{names_of, urls_of}
use proxy_proxy.Config.RelaySubs.Invariant.{AreSlow, IsResolved}
use proxy_proxy.Config.RelaySubs.Asked.{AreAsked}
use proxy_proxy.Config.RelaySubs.Laws.{
  upstreams_of, unresolved_relay, resolve_relay_subs-IsResolved,
}
use proxy_proxy.Config.Validate.{validate_subs, validate_keys, resolve_key, validate}
use proxy_proxy.Config.Validate.Subs.{Pairwise, IsValidated, validate_subs-ok}
use proxy_proxy.Config.Validate.Keys.{AreKeys, validate_keys_iff}
use proxy_proxy.Agg.Store.Steps.{new_world, run}
use proxy_proxy.Server.{Request, find_key, handle_sub, update_interval_hours, not_found, value}
use proxy_proxy.Server.Laws.{find_key_iff, handle_sub-run, update_interval_hours-le, keys_of}
use proxy_proxy.Server.Answer.{IsAnswer}
use proxy_proxy.Tests.Agg.{sub_a, codec, events, events-IsPlain, sub_a-IsPlain}

-- A parser that knows one form of URL.
abbrev platform : Platform
platform = record {
  parse =
      λ s. some (record { scheme = lit "https"; host = lit "h"; path = []; hostname = lit "h" });
  windows = false;
  from_slash = λ s. s;
  base = λ s. s;
  separator = b'/';
}

abbrev sub_of : Str → Sub
sub_of name = record { name = name; url = lit "https://h/a"; file = []; typ = []; interval = pos 0 }

abbrev key_of : Str → Str → Key
key_of key name = record { key = key; allowed_subs = name ∷ []; resolved = [] }

abbrev upstream_of : ℕ → Upstream
upstream_of interval = record {
  sub = lit "https://h/r";
  interval = pos interval;
  proxy = none;
  sub_name = [];
}

abbrev config : Config
config = record {
  listen = [];
  user_agent = [];
  timeout = pos 0;
  subs = sub_of (lit "a") ∷ sub_of [] ∷ [];
  keys = key_of (lit "secret") (lit "a") ∷ [];
  relays =
      record {
        name = lit "r";
        strategy = [];
        upstream = upstream_of 0 ∷ upstream_of minute ∷ [];
        downstream = [];
      }
      ∷ [];
  relay_subs = [];
}

abbrev result_of : Result ConfigError Config → Config
result_of (ok c) = c
result_of (err e) = config

abbrev valid_config : Config
valid_config = result_of (validate platform config)

fetched_run : fetched_sub_names valid_config ≡ lit "a" ∷ lit "h" ∷ lit "relay:h" ∷ []
unfolding fetched_sub_names validate str_beq free_name first_free resolve_relay_subs lookup insert
fetched_run = refl

abbrev named_config : Config
named_config = record config { subs = sub_of (lit "a") ∷ sub_of (lit "b") ∷ [] }

names-IsDistinct : IsDistinct (sub_names named_config)
unfolding sub_names contains str_beq lit
names-IsDistinct = (refl, (refl, tt))

resolve_relay_subs-IsResolved_example :
    let c' = resolve_relay_subs platform (sub_names named_config) named_config in
    IsDistinct (fetched_sub_names c')
    × IsDistinct (urls_of c'.relay_subs)
    × AreSlow c'.relay_subs
    × AreAsked (upstreams_of named_config.relays) c'.relay_subs
    × All (IsResolved platform c'.relay_subs) (upstreams_of c'.relays)
    × (map unresolved_relay c'.relays ≡ map unresolved_relay named_config.relays)
resolve_relay_subs-IsResolved_example =
    resolve_relay_subs-IsResolved platform named_config refl names-IsDistinct

abbrev checked_subs : List Sub × List Str
checked_subs = (valid_config.subs, lit "a" ∷ lit "h" ∷ [])

validate_subs_run : validate_subs platform config.subs ≡ ok checked_subs
unfolding validate_subs validate str_beq free_name first_free resolve_relay_subs
validate_subs_run = refl

validate_subs-ok_example :
    Pairwise (IsValidated platform) config.subs checked_subs.0
    × (checked_subs.1 ≡ names_of checked_subs.0)
    × IsDistinct (names_of checked_subs.0)
validate_subs-ok_example = validate_subs-ok platform config.subs checked_subs validate_subs_run

validate_keys_iff_example :
    (validate_keys (lit "a" ∷ []) (lit "a" ∷ []) config.keys
      ≡ ok (map (resolve_key (lit "a" ∷ [])) config.keys))
    ↔ (AreKeys (lit "a" ∷ []) [] config.keys
        × (map (resolve_key (lit "a" ∷ [])) config.keys
            ≡ map (resolve_key (lit "a" ∷ [])) config.keys))
validate_keys_iff_example =
    validate_keys_iff (lit "a" ∷ []) (lit "a" ∷ []) config.keys
      (map (resolve_key (lit "a" ∷ [])) config.keys)

find_key_iff_example :
    ((find_key config (lit "secret") ≡ none)
      ↔ ((lit "secret" ≡ []) ⊎ (contains (map (λ k. k.key) config.keys) (lit "secret") ≡ false)))
    × ((k : Key)
        → find_key config (lit "secret") ≡ some k
        → Memᴰ k config.keys × (k.key ≡ lit "secret"))
find_key_iff_example = find_key_iff config (lit "secret")

abbrev served : Config
served = record config {
  keys = record { key = lit "secret"; allowed_subs = sub_a ∷ []; resolved = sub_a ∷ [] } ∷ [];
}

abbrev request : Request
request = record {
  query = (lit "key", lit "secret") ∷ (lit "format", lit "raw") ∷ [];
  headers = [];
}

handle_sub-run_example :
    let s = (run codec events new_world).store in
    let key = value (lit "key") request.query in
    let out = handle_sub codec served request s in
    (((key ≡ []) ⊎ (contains (keys_of served.keys) key ≡ false))
      → (out.0 ≡ record { status = 404; headers = []; body = not_found }) × (out.1 ≡ s))
    × (key ≢ []
        → contains (keys_of served.keys) key ≡ true
        → (k : Key) × Memᴰ k served.keys × (k.key ≡ key) × IsAnswer codec k request s out.0)
handle_sub-run_example =
    handle_sub-run codec served request events (omega arith) events-IsPlain
      (((sub_a-IsPlain, tt)), tt)

abbrev hourly : Config
hourly = record config { subs = record (sub_of (lit "a")) { interval = pos 10800000000000 } ∷ [] }

update_interval_hours-le_example :
    (1 ≤ update_interval_hours hourly (lit "a" ∷ []))
    × ((s : Sub)
        → Memᴰ s hourly.subs
        → contains (lit "a" ∷ []) s.name ≡ true
        → hour ≤ pos_part s.interval
        → update_interval_hours hourly (lit "a" ∷ []) * hour ≤ pos_part s.interval)
update_interval_hours-le_example =
    update_interval_hours-le hourly (lit "a" ∷ []) ((omega arith, tt))
