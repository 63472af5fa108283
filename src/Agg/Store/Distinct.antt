-- ===== src/Agg/Store/Distinct.antt =====
-- `collectLocked` returns no two nodes with one key.
use proxy_proxy.Prelude.{
  List, [], ◌∷◌, ◌++◌, true, false, not, ◌&&◌, ◌≡◌, refl, ap, inl, inr, arith,
}
use proxy_proxy.Prelude.Tests.{Bool-cases}
use proxy_proxy.Prelude.Member.{contains, contains-append, IsDistinct}
use proxy_proxy.Prelude.Text.{Str, str_eq, str_beq_iff}
use proxy_proxy.Node.Types.{Node}
use proxy_proxy.Agg.Store.{Store, nodes_of, see, collect_nodes, collect_from, collect}
use proxy_proxy.Agg.Store.Collect.{keys_of, contains-see, contains-collect_nodes}

keys_of-append : (xs ys : List Node) → keys_of (xs ++ ys) ≡ keys_of xs ++ keys_of ys
keys_of-append [] ys = refl
keys_of-append (x ∷ xs) ys = ap (λ ks. x.key ∷ ks) (keys_of-append xs ys)

contains-new :
    (k : Str) (seen : List Str) (ns : List Node)
    → contains (keys_of (collect_nodes seen ns).0) k
      ≡ (not (contains seen k) && contains (keys_of ns) k)
unfolding collect_nodes contains
contains-new k seen [] = ground arith
contains-new k seen (n ∷ ns) =
    let ih = contains-new k (see seen n.key) ns in
    ground (arith, ih, contains-see seen n.key k, str_beq_iff n.key k, str_beq_iff k n.key)

new-IsDistinct : (seen : List Str) (ns : List Node) → IsDistinct (keys_of (collect_nodes seen ns).0)
unfolding collect_nodes
new-IsDistinct seen [] = tt
new-IsDistinct seen (n ∷ ns) =
    let ih = new-IsDistinct (see seen n.key) ns in
    let fresh = contains-new n.key (see seen n.key) ns in
    elim (Bool-cases (contains seen n.key)) [
      | inl old ↦ rw (old, collect_nodes) ih
      | inr new ↦
          rw (new, collect_nodes)
            (ground (arith, fresh, contains-see seen n.key n.key, str_beq_iff n.key n.key), ih)
    ]

IsDistinct-append :
    (xs ys : List Str)
    → IsDistinct xs
    → IsDistinct ys
    → ((k : Str) → contains xs k ≡ true → contains ys k ≡ false)
    → IsDistinct (xs ++ ys)
unfolding contains
IsDistinct-append [] ys d e h = e
IsDistinct-append (x ∷ xs) ys (fresh, d) e h = (
  rw (contains-append xs ys x) (let here = h x in ground (arith, here, str_beq_iff x x)),
  IsDistinct-append xs ys d e (λ k m. h k (ground arith)),
)

contains-collect_from :
    (k : Str) (seen names : List Str) (s : Store)
    → contains seen k ≡ true
    → contains (keys_of (collect_from seen names s)) k ≡ false
unfolding collect_from contains
contains-collect_from k seen [] s h = refl
contains-collect_from k seen (name ∷ names) s h =
    let ns = (nodes_of name s).0 in
    let seen' = (collect_nodes seen ns).1 in
    let new = (collect_nodes seen ns).0 in
    let rest = collect_from seen' names s in
    rw (keys_of-append new rest, contains-append (keys_of new) (keys_of rest) k)
      (ground (
        arith,
        contains-new k seen ns,
        contains-collect_nodes k seen ns,
        contains-collect_from k seen' names s,
      ))

collect_from-IsDistinct :
    (seen names : List Str) (s : Store) → IsDistinct (keys_of (collect_from seen names s))
unfolding collect_from
collect_from-IsDistinct seen [] s = tt
collect_from-IsDistinct seen (name ∷ names) s =
    let ns = (nodes_of name s).0 in
    let seen' = (collect_nodes seen ns).1 in
    let new = (collect_nodes seen ns).0 in
    let rest = collect_from seen' names s in
    rw (keys_of-append new rest) (
      IsDistinct-append (keys_of new) (keys_of rest) (new-IsDistinct seen ns)
        (collect_from-IsDistinct seen' names s)
        (λ k m.
          contains-collect_from k seen' names s
            (ground (arith, contains-new k seen ns, contains-collect_nodes k seen ns))))

-- No two of the nodes that `collectLocked` returns have one key.
pub collect-IsDistinct : (subs : List Str) (s : Store) → IsDistinct (keys_of (collect subs s))
unfolding collect
collect-IsDistinct subs s = collect_from-IsDistinct [] subs s
