-- ===== src/Relay/Plan/Group/Laws.antt =====
-- The maps of `groupByPort` and `owners` hold, under each key, what the key selects in order.
use proxy_proxy.Prelude.{
  ℕ, ◌<◌, List, [], ◌∷◌, ◌++◌, map, false, ◌≡◌, refl, ap, sym, ◌∙◌, Memᴰ, arith, ◌↔◌, inl, inr,
}
use proxy_proxy.Prelude.Tests.{◌==◌, leb, nat_eq, Bool-cases, eq_of_beq}
use proxy_proxy.Prelude.Lists.{filter}
use proxy_proxy.Prelude.Dict.{Dict, lookup, insert, keys, lookup-insert, keys-insert}
use proxy_proxy.Prelude.Member.{
  All, append_unique, uniques_from, uniques, IsDistinct, contains, uniques_from-IsDistinct,
  contains_of_mem, not-contains, mem-uniques_from, mem-uniques_from_of,
}
use proxy_proxy.Prelude.Text.{Str, str_eq}
use proxy_proxy.Relay.Types.{Endpoint}
use proxy_proxy.Relay.Plan.Group.{
  slice_of, by_port_from, insert_sorted, sorted, group_by_port, owners_from,
}
use mathlib.Core.List.{append_assoc, append-nil}
use mathlib.Core.List.Memᴰ

-- The endpoints on a port, in input order.
unfoldable pub on_port : ℕ → List Endpoint → List Endpoint
on_port port = filter (λ e. e.port == port)

-- The endpoints with a username.
unfoldable pub of_user : Str → List Endpoint → List Endpoint
of_user u = filter (λ e. e.username == u)

by_port_from-on_port :
    (p : ℕ) (m : Dict ℕ (List Endpoint)) (eps : List Endpoint)
    → slice_of (lookup p (by_port_from m eps)) ≡ slice_of (lookup p m) ++ on_port p eps
unfolding by_port_from on_port filter
by_port_from-on_port p m [] = sym (append-nil _)
by_port_from-on_port p m (e ∷ eps) =
    let m' = insert e.port (slice_of (lookup e.port m) ++ e ∷ []) m in
    by_port_from-on_port p m' eps ∙ elim (Bool-cases (e.port == p)) [
      | inl same ↦
          let q = eq_of_beq e.port p same in
          rw (lookup-insert, same)
            (append_assoc (slice_of (lookup e.port m)) (e ∷ []) (on_port p eps)
              ∙ ap (λ k. slice_of (lookup k m) ++ e ∷ on_port p eps) q)
      | inr other ↦ rw (lookup-insert, other) refl
    ]

owners_from-of_user :
    (u : Str) (m : Dict Str (List Str)) (eps : List Endpoint)
    → slice_of (lookup u (owners_from m eps))
      ≡ uniques_from (slice_of (lookup u m)) (map (λ e. e.relay) (of_user u eps))
unfolding owners_from of_user filter uniques_from
owners_from-of_user u m [] = refl
owners_from-of_user u m (e ∷ eps) =
    let m' = insert e.username (append_unique (slice_of (lookup e.username m)) e.relay) m in
    owners_from-of_user u m' eps ∙ elim (Bool-cases (e.username == u)) [
      | inl same ↦
          let q = eq_of_beq e.username u same in
          rw (lookup-insert, same)
            (ap
              (λ k.
                uniques_from (append_unique (slice_of (lookup k m)) e.relay)
                  (map (λ e'. e'.relay) (of_user u eps)))
              q)
      | inr other ↦ rw (lookup-insert, other) refl
    ]

pub owners-of_user :
    (u : Str) (eps : List Endpoint)
    → slice_of (lookup u (owners_from [] eps)) ≡ uniques (map (λ e. e.relay) (of_user u eps))
unfolding lookup
owners-of_user u eps = owners_from-of_user u [] eps

keys-by_port_from :
    (m : Dict ℕ (List Endpoint)) (eps : List Endpoint)
    → keys (by_port_from m eps) ≡ uniques_from (keys m) (map (λ e. e.port) eps)
unfolding by_port_from uniques_from
keys-by_port_from m [] = refl
keys-by_port_from m (e ∷ eps) =
    keys-by_port_from (insert e.port (slice_of (lookup e.port m) ++ e ∷ []) m) eps
    ∙ ap (λ ks. uniques_from ks (map (λ e'. e'.port) eps)) (keys-insert _ _ m)

pub mem-insert_sorted :
    {n : ℕ} (k : ℕ) (ks : List ℕ) → Memᴰ n (insert_sorted k ks) ↔ Memᴰ n (k ∷ ks)
unfolding insert_sorted
mem-insert_sorted k [] = (λ m. m, λ m. m)
mem-insert_sorted {n} k (j ∷ ks) = elim (Bool-cases (leb k j)) [
  | inl le ↦ rw (le, insert_sorted) (λ m. m, λ m. m)
  | inr gt ↦
      rw (gt, insert_sorted)
        (
          λ m. elim (Memᴰ.cases_cons m) [
            | inl same ↦ Memᴰ.tail (Memᴰ.head same)
            | inr later ↦ elim (Memᴰ.cases_cons ((mem-insert_sorted k ks).0 later)) [
              | inl same ↦ Memᴰ.head same
              | inr rest ↦ Memᴰ.tail (Memᴰ.tail rest)
            ]
          ],
          λ m. elim (Memᴰ.cases_cons m) [
            | inl same ↦ Memᴰ.tail ((mem-insert_sorted k ks).1 (Memᴰ.head same))
            | inr later ↦ elim (Memᴰ.cases_cons later) [
              | inl same ↦ Memᴰ.head same
              | inr rest ↦ Memᴰ.tail ((mem-insert_sorted k ks).1 (Memᴰ.tail rest))
            ]
          ],
        )
]

pub mem-sorted : {n : ℕ} (ks : List ℕ) → Memᴰ n (sorted ks) ↔ Memᴰ n ks
unfolding sorted
mem-sorted [] = (λ m. m, λ m. m)
mem-sorted {n} (k ∷ ks) = (
  λ m. elim (Memᴰ.cases_cons ((mem-insert_sorted k (sorted ks)).0 m)) [
    | inl same ↦ Memᴰ.head same
    | inr rest ↦ Memᴰ.tail ((mem-sorted ks).0 rest)
  ],
  λ m. (mem-insert_sorted k (sorted ks)).1 (elim (Memᴰ.cases_cons m) [
    | inl same ↦ Memᴰ.head same
    | inr rest ↦ Memᴰ.tail ((mem-sorted ks).1 rest)
  ]),
)

-- Strictly increasing.
abbrev pub IsIncreasing : List ℕ → Type 0
IsIncreasing [] = Unit
IsIncreasing (n ∷ ns) = All (λ k. n < k) ns × IsIncreasing ns

insert_sorted-All :
    (l n : ℕ) (ns : List ℕ) → l < n → All (λ k. l < k) ns → All (λ k. l < k) (insert_sorted n ns)
unfolding insert_sorted
insert_sorted-All l n [] h a = (h, tt)
insert_sorted-All l n (k ∷ ns) h a = elim (Bool-cases (leb n k)) [
  | inl le ↦ rw (le, insert_sorted) (h, a)
  | inr gt ↦ rw (gt, insert_sorted) (a.0, insert_sorted-All l n ns h a.1)
]

All-lt_trans : (l n : ℕ) (ns : List ℕ) → l < n → All (λ k. n < k) ns → All (λ k. l < k) ns
All-lt_trans l n [] h a = tt
All-lt_trans l n (k ∷ ns) h a = (omega arith, All-lt_trans l n ns h a.1)

insert_sorted-IsIncreasing :
    (n : ℕ) (ns : List ℕ)
    → contains ns n ≡ false
    → IsIncreasing ns
    → IsIncreasing (insert_sorted n ns)
unfolding insert_sorted contains
insert_sorted-IsIncreasing n [] h i = (tt, tt)
insert_sorted-IsIncreasing n (k ∷ ns) h i = elim (Bool-cases (leb n k)) [
  | inl le ↦
      let lt : n < k = ground arith in rw (le, insert_sorted) ((lt, All-lt_trans n k ns lt i.0), i)
  | inr gt ↦
      rw (gt, insert_sorted)
        (
          insert_sorted-All k n ns (ground arith) i.0,
          insert_sorted-IsIncreasing n ns (ground arith) i.1,
        )
]

sorted-IsIncreasing : (ns : List ℕ) → IsDistinct ns → IsIncreasing (sorted ns)
unfolding sorted
sorted-IsIncreasing [] d = tt
sorted-IsIncreasing (n ∷ ns) (fresh, d) =
    insert_sorted-IsIncreasing n (sorted ns)
      (not-contains (sorted ns) n (λ m. let hit = contains_of_mem ns ((mem-sorted ns).0 m) in cc))
      (sorted-IsIncreasing ns d)

-- `groupByPort` returns the ports of the endpoints in increasing order, each once.
pub group_by_port-IsIncreasing : (eps : List Endpoint) → IsIncreasing (group_by_port eps).0
unfolding group_by_port
group_by_port-IsIncreasing eps = sorted-IsIncreasing (keys (by_port_from [] eps)) (
    rw (keys-by_port_from [] eps) (
      uniques_from-IsDistinct (keys {V = List Endpoint} []) (map (λ e. e.port) eps)
        (unfold keys in tt)))

pub mem-group_by_port :
    (p : ℕ) (eps : List Endpoint)
    → Memᴰ p (group_by_port eps).0 ↔ ((e : Endpoint) × Memᴰ e eps × (e.port ≡ p))
unfolding group_by_port
mem-group_by_port p eps = (
  λ m.
      let k : Memᴰ p (uniques_from (keys {V = List Endpoint} []) (map (λ e. e.port) eps)) =
        rw (keys-by_port_from [] eps) at ((mem-sorted (keys (by_port_from [] eps))).0 m) in
      elim (mem-uniques_from (keys {V = List Endpoint} []) _ k) [
        | inl bad ↦ unfold keys in elim bad [ ]
        | inr found ↦ Memᴰ.of_map (λ e. e.port) eps found
      ],
  λ (e, m, q). (mem-sorted (keys (by_port_from [] eps))).1 (
      rw (keys-by_port_from [] eps) (
        mem-uniques_from_of (keys {V = List Endpoint} []) _ (rw (← q) (Memᴰ.map (λ e. e.port) m)))),
)

-- It returns, for each port, the endpoints on it in input order.
pub group_by_port-on_port :
    (p : ℕ) (eps : List Endpoint) → slice_of (lookup p (group_by_port eps).1) ≡ on_port p eps
unfolding group_by_port lookup
group_by_port-on_port p eps = by_port_from-on_port p [] eps
