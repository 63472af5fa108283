-- ===== src/Agg/Store/Steps.antt =====
-- Requests and refreshes in any order: `Render` holds the lock twice, and other operations of the
-- store may come between its two sections.
pub mod Sound
pub mod Laws
use proxy_proxy.Prelude.{
  ℕ, zero, suc, ◌+◌, ◌%◌, ◌^◌, ◌≤◌, ◌<◌, List, [], ◌∷◌, ◌++◌, Option, none, some, Bool, true, false,
  ◌≡◌, ◌⊎◌, refl, inl, inr, sym, ap, ◌∙◌, arith,
}
use proxy_proxy.Prelude.Tests.{
  nat_eq, if◌then◌else◌, nat_beq, Bool-cases, Option-cases, eq_of_beq, some_inj,
}
use proxy_proxy.Prelude.Lists.{length, get_elem?, filter}
use proxy_proxy.Prelude.Dict.{lookup}
use proxy_proxy.Prelude.Member.{All}
use proxy_proxy.Prelude.Text.{Str, str_eq}
use proxy_proxy.Node.Types.{Node}
use proxy_proxy.Agg.Render.{Format, Codec, render, etag_of}
use proxy_proxy.Agg.Store.{
  CacheEntry, Store, Begun, hit, miss, new_store, notify_locked, set_nodes, set_error, touch, prune,
  receive, nodes_of, collect, cache_key, render_begin, render_end,
}
use proxy_proxy.Agg.Store.CacheKey.{IsPlainName}
use proxy_proxy.Agg.Store.Coherence.{
  IsFresh, IsCoherent, IsPending, set_error-SameNodes, touch-SameNodes, kept-IsCoherent,
  kept-IsPending, next-IsCoherent, next-IsPending, render_end-IsCoherent, render_end-IsPending,
  render_end-gen,
}

-- A `Render` between its two sections.
pub record Flight : Type 0 where
  pub subs : List Str
  pub format : Format
  pub full : Bool
  pub gen : ℕ
  pub nodes : List Node

-- One locked section, or a receive from `Changed`. `finish i` is the second section of the `i`-th
-- `Render` that waits for it.
pub data Event : Type 0 where
  set_nodes_event : Str → List Node → Str → Str → Str → ℕ → Event
  set_error_event : Str → Str → Event
  touch_event : Str → ℕ → Event
  prune_event : List Str → Event
  receive_event : Event
  begin : List Str → Format → Bool → Event
  finish : ℕ → Event

pub record World : Type 0 where
  pub store : Store
  pub flights : List Flight

abbrev pub new_world : World
new_world = record { store = new_store; flights = [] }

unfoldable pub remove_at : ℕ → List Flight → List Flight
remove_at i [] = []
remove_at zero (f ∷ fs) = fs
remove_at (suc i) (f ∷ fs) = f ∷ remove_at i fs

unfoldable pub step : Codec → Event → World → World
unfolding remove_at
step k (set_nodes_event name nodes etag last_modified user_info now) w = record w {
  store = set_nodes name nodes etag last_modified user_info now w.store;
}
step k (set_error_event name err) w = record w { store = set_error name err w.store }
step k (touch_event name now) w = record w { store = touch name now w.store }
step k (prune_event keep) w = record w { store = prune keep w.store }
step k receive_event w = record w { store = receive w.store }
step k (begin subs format full) w = elim (render_begin subs format full w.store) [
  | hit body etag ↦ w
  | miss gen nodes ↦ record w {
    flights =
        record { subs = subs; format = format; full = full; gen = gen; nodes = nodes } ∷ w.flights;
  }
]
step k (finish i) w = elim (get_elem? w.flights i) [
  | none ↦ w
  | some f ↦ record {
    store = render_end k f.subs f.format f.full f.gen f.nodes w.store;
    flights = remove_at i w.flights;
  }
]

unfoldable pub run : Codec → List Event → World → World
run k [] w = w
run k (e ∷ es) w = run k es (step k e w)

-- What the request that made this first section is answered with.
unfoldable pub payload : Codec → Format → Bool → Begun → Str × Str
payload k format full (hit body etag) = (body, etag)
payload k format full (miss gen nodes) =
    let body = render k nodes format full in (body, etag_of body)

abbrev pub IsPlain : Event → Type 0
IsPlain (begin subs format full) = All IsPlainName subs
IsPlain _ = Unit
