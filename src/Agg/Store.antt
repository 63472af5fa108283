-- ===== src/Agg/Store.antt =====
-- internal/agg/store.go: the store of snapshots with its render cache. Each operation is one locked
-- section; `Render` has two, with the rendering between them.
pub mod CacheKey
pub mod Collect
pub mod Distinct
pub mod Coherence
pub mod Steps
use proxy_proxy.Prelude.{
  ℕ, ◌+◌, ◌%◌, ◌^◌, List, [], ◌∷◌, ◌++◌, map, Option, none, some, Bool, true, false, not,
}
use proxy_proxy.Prelude.Tests.{if◌then◌else◌, nat_beq}
use proxy_proxy.Prelude.Lists.{length, filter}
use proxy_proxy.Prelude.Dict.{Dict, lookup, insert}
use proxy_proxy.Prelude.Member.{contains}
use proxy_proxy.Prelude.Text.{Str, lit, join, is_empty, str_eq}
use proxy_proxy.Node.Types.{Node}
use proxy_proxy.Node.Sprint.{print_bool}
use proxy_proxy.Agg.Render.{Format, Codec, render, etag_of}

-- `updated` is a time, with 0 for Go's zero time.
pub record SubState : Type 0 where
  pub nodes : List Node
  pub updated : ℕ
  pub err : Str
  pub etag : Str
  pub last_modified : Str
  pub user_info : Str

pub record CacheEntry : Type 0 where
  pub gen : ℕ
  pub body : Str
  pub etag : Str

-- `changed` says whether a signal waits in the channel, which holds one.
pub record Store : Type 0 where
  pub subs : Dict Str SubState
  pub gen : ℕ
  pub cache : Dict Str CacheEntry
  pub changed : Bool

abbrev pub new_store : Store
new_store = record { subs = []; gen = 0; cache = []; changed = false }

-- The generation is a `uint64`.
unfoldable pub notify_locked : Store → Store
notify_locked s = record s { gen = (s.gen + 1) % 2 ^ 64; changed = true }

unfoldable pub set_nodes : Str → List Node → Str → Str → Str → ℕ → Store → Store
unfolding notify_locked
set_nodes name nodes etag last_modified user_info now s = notify_locked (record s {
  subs =
      insert name
        (record {
          nodes = nodes;
          updated = now;
          err = [];
          etag = etag;
          last_modified = last_modified;
          user_info = user_info;
        })
        s.subs;
})

unfoldable pub nodes_of : Str → Store → List Node × Bool
nodes_of name s = elim (lookup name s.subs) [ none ↦ ([], false) | some st ↦ (st.nodes, true) ]

abbrev pub blank : SubState
blank = record { nodes = []; updated = 0; err = []; etag = []; last_modified = []; user_info = [] }

unfoldable pub set_error : Str → Str → Store → Store
set_error name err s =
    let st : SubState = elim (lookup name s.subs) [ none ↦ blank | some st ↦ st ] in
    record s { subs = insert name (record st { err = err }) s.subs }

unfoldable pub touch : Str → ℕ → Store → Store
touch name now s = elim (lookup name s.subs) [
  | none ↦ s
  | some st ↦ record s { subs = insert name (record st { updated = now; err = [] }) s.subs }
]

unfoldable pub validators : Str → Store → Str × Str
validators name s = elim (lookup name s.subs) [
  | none ↦ ([], [])
  | some st ↦ (st.etag, st.last_modified)
]

unfoldable pub user_info : Str → Store → Str
user_info name s = elim (lookup name s.subs) [ none ↦ [] | some st ↦ st.user_info ]

unfoldable pub prune : List Str → Store → Store
unfolding notify_locked
prune keep s =
    notify_locked (record s { subs = filter (λ e. contains keep e.0) s.subs; cache = [] })

-- A receive from `Changed`, once a signal waits.
unfoldable pub receive : Store → Store
receive s = record s { changed = false }

pub record Status : Type 0 where
  pub name : Str
  pub nodes : ℕ
  pub updated : ℕ
  pub err : Str

unfoldable pub statuses : List Str → Store → List Status
statuses order s =
    map
      (λ name. elim (lookup name s.subs) [
        | none ↦ record { name = name; nodes = 0; updated = 0; err = lit "not fetched yet" }
        | some st ↦ record {
          name = name;
          nodes = length st.nodes;
          updated = st.updated;
          err = st.err;
        }
      ])
      order

-- `seen[key] = true`
unfoldable pub see : List Str → Str → List Str
see seen key = if contains seen key then seen else key ∷ seen

-- The inner loop of `collectLocked`: what is new, and the keys seen after it.
unfoldable pub collect_nodes : List Str → List Node → List Node × List Str
collect_nodes seen [] = ([], seen)
collect_nodes seen (n ∷ nodes) =
    let (rest, seen') = collect_nodes (see seen n.key) nodes in
    (if contains seen n.key then rest else n ∷ rest, seen')

unfoldable pub collect_from : List Str → List Str → Store → List Node
unfolding collect_nodes see
collect_from seen [] s = []
collect_from seen (name ∷ names) s =
    let (nodes, fetched) = nodes_of name s in
    let (new, seen') = collect_nodes seen nodes in new ++ collect_from seen' names s

unfoldable pub collect : List Str → Store → List Node
unfolding collect_from
collect subs s = collect_from [] subs s

unfoldable pub format_name : Format → Str
unfolding lit
format_name Format.base64 = lit "base64"
format_name Format.raw = lit "raw"
format_name Format.clash = lit "clash"

unfoldable pub cache_key : List Str → Format → Bool → Str
unfolding format_name print_bool lit
cache_key subs format full =
    join (0 ∷ []) subs ++ (b'|' ∷ (format_name format ++ (b'|' ∷ print_bool full)))

-- The first locked section of `Render`: the cached payload, or the generation and the nodes.
pub data Begun : Type 0 where
  hit : Str → Str → Begun
  miss : ℕ → List Node → Begun

unfoldable pub render_begin : List Str → Format → Bool → Store → Begun
render_begin subs format full s = elim (lookup (cache_key subs format full) s.cache) [
  | none ↦ miss s.gen (collect subs s)
  | some e ↦ if nat_beq e.gen s.gen then hit e.body e.etag else miss s.gen (collect subs s)
]

-- The second one, with the generation and the nodes of the first.
unfoldable pub render_end : Codec → List Str → Format → Bool → ℕ → List Node → Store → Store
render_end k subs format full gen nodes s =
    let body = render k nodes format full in
    if nat_beq s.gen gen
    then record s {
      cache =
          insert (cache_key subs format full)
            (record { gen = gen; body = body; etag = etag_of body }) s.cache;
    }
    else s

-- `Render` where nothing comes between its sections: the payload, its ETag, and the store.
unfoldable pub render_now : Codec → List Str → Format → Bool → Store → (Str × Str) × Store
render_now k subs format full s = elim (render_begin subs format full s) [
  | hit body etag ↦ ((body, etag), s)
  | miss gen nodes ↦
      let body = render k nodes format full in
      ((body, etag_of body), render_end k subs format full gen nodes s)
]
