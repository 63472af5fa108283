-- ===== src/Main.antt =====
-- main.go: the reload of the configuration, the watch on its file, and the environment's defaults.
pub mod Laws
use proxy_proxy.Prelude.{ℕ, List, [], ◌∷◌, Option, none, some, Bool, true, false, not, ◌&&◌, ◌||◌}
use proxy_proxy.Prelude.Tests.{if◌then◌else◌, nat_beq, ◌==◌, Result, ok, err}
use proxy_proxy.Prelude.Member.{contains}
use proxy_proxy.Prelude.Text.{Str, lit, is_empty, str_eq, to_lower}
use proxy_proxy.Node.Key.{fnv64a}
use proxy_proxy.Config.Types.{Sub, Config, fetched_subs, fetched_sub_names}
use proxy_proxy.Relay.Types.{Plan, Adapter}
use proxy_proxy.Relay.Plan.{new_plan}
use proxy_proxy.Agg.Store.{Store, prune}

-- `v` is the value of the variable, empty where it is not set.
unfoldable pub env_str : Str → Str → Str
env_str v def = if is_empty v then def else v

unfoldable pub env_bool : Str → Bool → Bool
unfolding to_lower contains lit
env_bool v def =
    let w = to_lower v in
    if contains (lit "1" ∷ lit "true" ∷ lit "yes" ∷ lit "on" ∷ []) w
    then true
    else if contains (lit "0" ∷ lit "false" ∷ lit "no" ∷ lit "off" ∷ []) w
    then false
    else def

-- What `config.Load` gives, with the listen address of the command line.
unfoldable pub load_config : {E : Type 0} → Result E Config → Str → Result E Config
load_config (err e) listen = err e
load_config (ok c) listen = ok (if is_empty listen then c else record c { listen = listen })

-- What a reload changes: the configuration of the server, the store, the subs that are refreshed, and
-- the plan of the relays.
pub record Running : Type 0 where
  pub cfg : Config
  pub store : Store
  pub refreshed : List Sub
  pub plan : Option Plan

-- One round of `reloadLoop`, with what `config.Load` gives.
unfoldable pub reload : {E : Type 0} → Adapter → Result E Config → Str → Running → Running
unfolding load_config fetched_subs fetched_sub_names
reload a loaded listen r = elim (load_config loaded listen) [
  | err e ↦ r
  | ok c ↦
      let ncfg : Config = record c { listen = r.cfg.listen } in
      record {
        cfg = ncfg;
        store = prune (fetched_sub_names ncfg) r.store;
        refreshed = fetched_subs ncfg;
        plan = (new_plan a ncfg).0;
      }
]

pub record Watch : Type 0 where
  pub last_mod : ℕ
  pub last_size : ℕ
  pub last_hash : ℕ

-- What a tick finds: the time and the size of the file, and its content.
pub record Tick : Type 0 where
  pub stat : Option (ℕ × ℕ)
  pub content : Option Str

unfoldable pub hash_bytes : Str → ℕ
unfolding fnv64a
hash_bytes b = fnv64a b

-- The state before the first tick.
unfoldable pub watch_start : Tick → Watch
unfolding hash_bytes
watch_start t =
    let (mod_time, size) = (elim t.stat as (λ o. ℕ × ℕ) [ none ↦ (0, 0) | some s ↦ s ]) in
    record {
      last_mod = mod_time;
      last_size = size;
      last_hash = elim t.content [ none ↦ 0 | some b ↦ hash_bytes b ];
    }

-- The state after a tick, and whether `changed` is called.
unfoldable pub watch_tick : Watch → Tick → Watch × Bool
unfolding hash_bytes
watch_tick w t = elim t.stat [
  | none ↦ (w, false)
  | some (mod_time, size) ↦
      if nat_beq mod_time w.last_mod && nat_beq size w.last_size
      then (w, false)
      else let w' : Watch = record w { last_mod = mod_time; last_size = size } in
        elim t.content [
          | none ↦ (w', false)
          | some b ↦
              let h = hash_bytes b in
              if nat_beq h w.last_hash then (w', false) else (record w' { last_hash = h }, true)
        ]
]
