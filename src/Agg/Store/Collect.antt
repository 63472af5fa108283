-- ===== src/Agg/Store/Collect.antt =====
-- `collectLocked` keeps, for each key, the first node in the order of the subs.
use proxy_proxy.Prelude.{
  List, [], ◌∷◌, ◌++◌, map, Option, none, some, true, false, ◌||◌, ◌≡◌, ◌≢◌, refl, inl, inr, arith,
}
use proxy_proxy.Prelude.Tests.{if◌then◌else◌, ◌==◌, Bool-cases}
use proxy_proxy.Prelude.Member.{contains}
use proxy_proxy.Prelude.Text.{Str, str_eq, str_beq_iff}
use proxy_proxy.Node.Types.{Node}
use proxy_proxy.Agg.Store.{Store, nodes_of, see, collect_nodes, collect_from, collect}

-- The first node with the key.
unfoldable pub find_key : Str → List Node → Option Node
find_key k [] = none
find_key k (n ∷ nodes) = if n.key == k then some n else find_key k nodes

-- All nodes of the subs, in the order of the subs.
unfoldable pub all_nodes : List Str → Store → List Node
all_nodes [] s = []
all_nodes (name ∷ names) s = (nodes_of name s).0 ++ all_nodes names s

abbrev pub keys_of : List Node → List Str
keys_of nodes = map (λ n. n.key) nodes

abbrev or_else : Option Node → Option Node → Option Node
or_else none o = o
or_else (some n) o = some n

find_key-append :
    (k : Str) (xs ys : List Node) → find_key k (xs ++ ys) ≡ or_else (find_key k xs) (find_key k ys)
unfolding find_key
find_key-append k [] ys = refl
find_key-append k (n ∷ xs) ys = ground (arith, find_key-append k xs ys)

find_key-none : (k : Str) (xs : List Node) → contains (keys_of xs) k ≡ false → find_key k xs ≡ none
unfolding find_key contains
find_key-none k [] h = refl
find_key-none k (n ∷ xs) h =
    ground (arith, find_key-none k xs, str_beq_iff k n.key, str_beq_iff n.key k)

pub contains-see :
    (seen : List Str) (k j : Str) → contains (see seen k) j ≡ (contains seen j || j == k)
unfolding see contains
contains-see seen k j = elim (Bool-cases (contains seen k)) [
  | inl old ↦ rw old (ground (arith, str_beq_iff j k))
  | inr new ↦ rw new (ground arith)
]

find_key_some : (k : Str) (xs : List Node) → contains (keys_of xs) k ≡ true → find_key k xs ≢ none
unfolding find_key contains
find_key_some k [] h = cc
find_key_some k (n ∷ xs) h =
    ground (arith, find_key_some k xs, str_beq_iff k n.key, str_beq_iff n.key k)

find_key-collect_nodes :
    (k : Str) (seen : List Str) (ns : List Node)
    → find_key k (collect_nodes seen ns).0 ≡ (if contains seen k then none else find_key k ns)
unfolding find_key collect_nodes
find_key-collect_nodes k seen [] = ground arith
find_key-collect_nodes k seen (n ∷ ns) =
    let ih = find_key-collect_nodes k (see seen n.key) ns in
    ground (arith, ih, contains-see seen n.key k, str_beq_iff n.key k, str_beq_iff k n.key)

-- The keys seen after the inner loop.
pub contains-collect_nodes :
    (k : Str) (seen : List Str) (ns : List Node)
    → contains (collect_nodes seen ns).1 k ≡ (contains seen k || contains (keys_of ns) k)
unfolding collect_nodes contains
contains-collect_nodes k seen [] = ground arith
contains-collect_nodes k seen (n ∷ ns) =
    let ih = contains-collect_nodes k (see seen n.key) ns in
    ground (arith, ih, contains-see seen n.key k)

find_key-collect_from :
    (k : Str) (seen names : List Str) (s : Store)
    → find_key k (collect_from seen names s)
      ≡ (if contains seen k then none else find_key k (all_nodes names s))
unfolding collect_from all_nodes
find_key-collect_from k seen [] s = unfold find_key in ground arith
find_key-collect_from k seen (name ∷ names) s =
    let ns = (nodes_of name s).0 in
    let new = (collect_nodes seen ns).0 in
    let seen' = (collect_nodes seen ns).1 in
    ground (
      arith,
      find_key-append k new (collect_from seen' names s),
      find_key-append k ns (all_nodes names s),
      find_key-collect_nodes k seen ns,
      contains-collect_nodes k seen ns,
      find_key-collect_from k seen' names s,
      find_key-none k ns,
      find_key_some k ns,
    )

-- The first node with a key is the same in what `collectLocked` returns as among all the nodes, in
-- the order of the subs: nothing but later duplicates is left out, and nothing is added.
pub find_key-collect :
    (k : Str) (subs : List Str) (s : Store)
    → find_key k (collect subs s) ≡ find_key k (all_nodes subs s)
unfolding collect contains
find_key-collect k subs s = find_key-collect_from k [] subs s
