-- ===== src/Main/Laws.antt =====
-- What a reload keeps and drops, and when the watch on the file asks for one.
use proxy_proxy.Prelude.{
  ℕ, List, [], ◌∷◌, ◌++◌, map, Memᴰ, ◌⊎◌, ◌↔◌, Option, none, some, Bool, true, false, ◌&&◌, ◌≡◌,
  ◌≢◌, refl, inl, inr, arith,
}
use proxy_proxy.Prelude.Tests.{
  if◌then◌else◌, nat_beq, ◌==◌, Result, ok, err, Bool-cases, Option-cases, eq_of_beq, beq_of_eq,
  ok_inj, nat_eq,
}
use proxy_proxy.Prelude.Lists.{filter}
use proxy_proxy.Prelude.Dict.{Dict, lookup}
use proxy_proxy.Prelude.Member.{contains}
use proxy_proxy.Prelude.Text.{Str, str_eq, str_beq_iff}
use proxy_proxy.Config.Types.{Sub, Config, sub_names, fetched_subs, fetched_sub_names}
use proxy_proxy.Relay.Types.{Adapter, Plan}
use proxy_proxy.Relay.Plan.{kept_endpoints}
use proxy_proxy.Relay.Plan.Laws.{checked_endpoints, new_plan-AreListeners}
use proxy_proxy.Relay.Plan.Listener.Laws.{AreListeners}
use mathlib.Core.List.Memᴰ
use proxy_proxy.Agg.Store.{Store, SubState, prune, nodes_of, notify_locked}
use proxy_proxy.Main.{load_config, Running, reload, Watch, Tick, hash_bytes, watch_tick}

lookup-filter :
    (p : Str → Bool) (name : Str) (m : Dict Str SubState)
    → lookup name (filter (λ e. p e.0) m) ≡ (if p name then lookup name m else none)
unfolding lookup filter
lookup-filter p name [] = ground arith
lookup-filter p name ((n, st) ∷ m) =
    let ih = lookup-filter p name m in
    elim (Bool-cases (n == name)) [
      | inl same ↦ rw (eq_of_beq n name same) (ground (arith, ih, str_beq_iff name name))
      | inr other ↦ ground (arith, ih)
    ]

-- `Prune` keeps what it is told to keep, and nothing else.
nodes_of-prune :
    (keep : List Str) (name : Str) (s : Store)
    → nodes_of name (prune keep s) ≡ (if contains keep name then nodes_of name s else ([], false))
unfolding prune nodes_of notify_locked
nodes_of-prune keep name s = elim (Bool-cases (contains keep name)) [
  | inl kept ↦ rw (lookup-filter (contains keep) name s.subs, kept, nodes_of) refl
  | inr dropped ↦ rw (lookup-filter (contains keep) name s.subs, dropped, nodes_of) refl
]

-- The configuration that a reload puts in place of the one before.
abbrev pub reloaded : Config → Str → Config
reloaded c listen = record c { listen = listen }

-- Which subs are refreshed: those of the file and those of relays.
mem-fetched_iff :
    (c : Config) (s : Sub) → Memᴰ s (fetched_subs c) ↔ (Memᴰ s c.subs ⊎ Memᴰ s c.relay_subs)
unfolding fetched_subs
mem-fetched_iff c s = (
  λ m. Memᴰ.append_cases c.subs m,
  λ h. elim h [ inl m ↦ Memᴰ.append_left c.relay_subs m | inr m ↦ Memᴰ.append_right c.subs m ],
)

-- What runs after a reload to this configuration.
pub record IsReloaded (a : Adapter) (c : Config) (r r' : Running) : Type 0 where
  pub config : r'.cfg ≡ reloaded c r.cfg.listen
  pub refreshed : (s : Sub) → Memᴰ s r'.refreshed ↔ (Memᴰ s c.subs ⊎ Memᴰ s c.relay_subs)
  pub relays :
      (p : Plan) × (r'.plan ≡ some p)
      × AreListeners (kept_endpoints (checked_endpoints a (reloaded c r.cfg.listen))) p.listeners
  pub store :
      (name : Str)
      → nodes_of name r'.store ≡ (
          if contains (map (λ s. s.name) c.subs ++ map (λ s. s.name) c.relay_subs) name
          then nodes_of name r.store
          else ([], false))

reload-IsReloaded :
    (E : Type 0) (a : Adapter) (c : Config) (listen : Str) (r : Running)
    → IsReloaded a c r (reload {E = E} a (ok c) listen r)
unfolding reload load_config fetched_sub_names sub_names
reload-IsReloaded E a c [] r = record {
  config = refl;
  refreshed = mem-fetched_iff c;
  relays = new_plan-AreListeners a (reloaded c r.cfg.listen);
  store = λ name. nodes_of-prune _ name r.store;
}
reload-IsReloaded E a c (b ∷ listen) r = record {
  config = refl;
  refreshed = mem-fetched_iff c;
  relays = new_plan-AreListeners a (reloaded c r.cfg.listen);
  store = λ name. nodes_of-prune _ name r.store;
}

-- A reload whose configuration does not load changes nothing. Otherwise the new configuration runs,
-- with the listen address of the old one; the subs that are refreshed are its subs and its relay subs;
-- there is a plan, whose listeners serve the endpoints of the new configuration that are in no
-- conflict; and the store keeps the nodes of the subs of these names, and of no others.
pub reload_lem :
    {E : Type 0} (a : Adapter) (loaded : Result E Config) (listen : Str) (r : Running)
    → let r' = reload a loaded listen r in
      ((e : E) → loaded ≡ err e → r' ≡ r) × ((c : Config) → loaded ≡ ok c → IsReloaded a c r r')
unfolding reload load_config
reload_lem a (err e) listen r = (λ f h. refl, λ c h. absurd (cc))
reload_lem {E} a (ok c) listen r =
    (λ e h. absurd (cc), λ d h. rw (← (ok_inj h)) (reload-IsReloaded E a c listen r))

-- The watch asks for a reload only where it reads a content whose hash is not that of the content it
-- read last; it then remembers the hash.
pub watch_tick_lem :
    (w : Watch) (t : Tick)
    → (watch_tick w t).1 ≡ true
    → (b : Str) × (t.content ≡ some b)
      × (hash_bytes b ≢ w.last_hash)
      × ((watch_tick w t).0.last_hash ≡ hash_bytes b)
unfolding watch_tick
watch_tick_lem w t h = elim (Option-cases t.stat) [
  | inl gone ↦ absurd (false-ne-true (rw (gone, watch_tick) at h))
  | inr ((mod_time, size), found) ↦
      elim (Bool-cases (nat_beq mod_time w.last_mod && nat_beq size w.last_size)) [
        | inl same ↦ absurd (false-ne-true (rw (found, same, watch_tick) at h))
        | inr other ↦ elim (Option-cases t.content) [
          | inl unread ↦ absurd (false-ne-true (rw (found, other, unread, watch_tick) at h))
          | inr (b, read) ↦ elim (Bool-cases (nat_beq (hash_bytes b) w.last_hash)) [
            | inl old ↦ absurd (false-ne-true (rw (found, other, read, old, watch_tick) at h))
            | inr new ↦ (
              b,
              read,
              λ same. let eq = beq_of_eq (hash_bytes b) w.last_hash same in cc,
              rw (found, other, read, new, watch_tick) refl,
            )
          ]
        ]
      ]
]
  where
    false-ne-true : false ≢ true
    false-ne-true q = cc

-- Where a tick finds a file of another time or size but cannot read it, the next tick that finds the
-- same time and size does not ask for a reload, whatever the content is by then.
pub watch_tick-missed :
    (w : Watch) (mod_time size : ℕ) (content : Option Str)
    → let missed = watch_tick w (record { stat = some (mod_time, size); content = none }) in
      (watch_tick missed.0 (record { stat = some (mod_time, size); content = content })).1 ≡ false
unfolding watch_tick
watch_tick-missed w mod_time size content = ground arith
