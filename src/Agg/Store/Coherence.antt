-- ===== src/Agg/Store/Coherence.antt =====
-- What an operation of the store keeps of the render cache: an entry of the present generation holds
-- the rendering of the nodes the store has now.
use proxy_proxy.Prelude.{
  ℕ, ◌+◌, ◌≤◌, List, [], ◌∷◌, ◌++◌, none, some, Bool, ◌≡◌, refl, inl, inr, sym, ap, ◌∙◌, arith,
}
use proxy_proxy.Prelude.Tests.{nat_eq, ◌==◌, nat_beq, Bool-cases, Option-cases, eq_of_beq, some_inj}
use proxy_proxy.Prelude.Dict.{Dict, lookup, insert, lookup-insert}
use proxy_proxy.Prelude.Member.{All}
use proxy_proxy.Prelude.Text.{Str, str_eq}
use proxy_proxy.Node.Types.{Node}
use proxy_proxy.Agg.Render.{Format, Codec, render, etag_of}
use proxy_proxy.Agg.Store.{
  SubState, CacheEntry, Store, set_error, touch, nodes_of, blank, collect, collect_from,
  collect_nodes, cache_key, render_end,
}
use proxy_proxy.Agg.Store.CacheKey.{IsPlainName, cache_key_inj}

-- An entry is the rendering for a request, as far as it is of the present generation.
abbrev pub IsFresh : Codec → Store → List Str → Format → Bool → CacheEntry → Type 0
IsFresh k s subs format full e =
    (e.gen ≤ s.gen)
    × (e.gen ≡ s.gen → (e.body ≡ render k (collect subs s) format full) × (e.etag ≡ etag_of e.body))

abbrev pub IsCoherent : Codec → Store → Type 0
IsCoherent k s =
    (subs : List Str) (format : Format) (full : Bool) (e : CacheEntry)
    → All IsPlainName subs
    → lookup (cache_key subs format full) s.cache ≡ some e
    → IsFresh k s subs format full e

-- What the first section of a `Render` has read, as far as it is of the present generation.
abbrev pub IsPending : Store → List Str → ℕ → List Node → Type 0
IsPending s subs gen nodes = (gen ≤ s.gen) × (gen ≡ s.gen → nodes ≡ collect subs s)

abbrev SameNodes : Store → Store → Type 0
SameNodes s t = (name : Str) → (nodes_of name s).0 ≡ (nodes_of name t).0

collect_from-SameNodes :
    (seen names : List Str) (s t : Store)
    → SameNodes s t
    → collect_from seen names s ≡ collect_from seen names t
unfolding collect_from
collect_from-SameNodes seen [] s t h = refl
collect_from-SameNodes seen (name ∷ names) s t h =
    let same = h name in
    rw same (
      ap (λ rest. (collect_nodes seen (nodes_of name t).0).0 ++ rest)
        (collect_from-SameNodes (collect_nodes seen (nodes_of name t).0).1 names s t h))

pub collect-SameNodes :
    (subs : List Str) (s t : Store) → SameNodes s t → collect subs s ≡ collect subs t
unfolding collect
collect-SameNodes subs s t h = collect_from-SameNodes [] subs s t h

insert-SameNodes :
    (name other : Str) (st : SubState) (s : Store)
    → st.nodes ≡ (nodes_of name s).0
    → (nodes_of other (record s { subs = insert name st s.subs })).0 ≡ (nodes_of other s).0
unfolding nodes_of
insert-SameNodes name other st s h = elim (Bool-cases (name == other)) [
  | inl here ↦
      let same = eq_of_beq name other here in
      rw (lookup-insert name other st s.subs, here, nodes_of) (rw (same, nodes_of) at h)
  | inr there ↦ rw (lookup-insert name other st s.subs, there, nodes_of) refl
]

nodes_of_stored :
    (n : Str) (t : Store)
    → (elim (lookup n t.subs) as (λ x. SubState) [ none ↦ blank | some st ↦ st ]).nodes
      ≡ (nodes_of n t).0
unfolding nodes_of
nodes_of_stored n t = elim (Option-cases (lookup n t.subs)) [
  | inl missing ↦ rw (missing, nodes_of) refl
  | inr (st, found) ↦ rw (found, nodes_of) refl
]

pub set_error-SameNodes : (name err : Str) (s : Store) → SameNodes (set_error name err s) s
unfolding set_error
set_error-SameNodes name err s other = insert-SameNodes name other _ s (nodes_of_stored name s)

pub touch-SameNodes : (name : Str) (now : ℕ) (s : Store) → SameNodes (touch name now s) s
unfolding touch nodes_of
touch-SameNodes name now s other = elim (Option-cases (lookup name s.subs)) [
  | inl missing ↦ rw (missing, touch) refl
  | inr (st, found) ↦
      rw (found, touch)
        (insert-SameNodes name other (record st { updated = now; err = [] }) s
          (rw (found, nodes_of) refl))
]

-- The operations that leave the nodes and the generation as they are.
pub kept-IsCoherent :
    (k : Codec) (s t : Store)
    → SameNodes t s
    → t.gen ≡ s.gen
    → t.cache ≡ s.cache
    → IsCoherent k s
    → IsCoherent k t
kept-IsCoherent k s t same g c coh subs format full e plain found =
    let (le, fresh) = coh subs format full e plain (rw c at found) in
    (rw g le, λ now. let (b, t) = fresh (now ∙ g) in (rw (collect-SameNodes subs _ s same) b, t))

pub kept-IsPending :
    (s t : Store) (subs : List Str) (gen : ℕ) (nodes : List Node)
    → SameNodes t s
    → t.gen ≡ s.gen
    → IsPending s subs gen nodes
    → IsPending t subs gen nodes
kept-IsPending s t subs gen nodes same g (le, fresh) =
    (rw g le, λ now. rw (collect-SameNodes subs t s same) (fresh (now ∙ g)))

-- The operations that start a generation, while the counter does not wrap.
pub next-IsCoherent :
    (k : Codec) (s t : Store)
    → t.gen ≡ s.gen + 1
    → ((key : Str) (e : CacheEntry) → lookup key t.cache ≡ some e → lookup key s.cache ≡ some e)
    → IsCoherent k s
    → IsCoherent k t
next-IsCoherent k s t g c coh subs format full e plain found =
    let (le, fresh) = coh subs format full e plain (c _ e found) in
    (omega arith, λ now. absurd (omega arith))

pub next-IsPending :
    (s t : Store) (subs : List Str) (gen : ℕ) (nodes : List Node)
    → t.gen ≡ s.gen + 1
    → IsPending s subs gen nodes
    → IsPending t subs gen nodes
next-IsPending s t subs gen nodes g (le, fresh) = (omega arith, λ now. absurd (omega arith))

abbrev entry : Codec → List Node → Format → Bool → ℕ → CacheEntry
entry k nodes format full gen = record {
  gen = gen;
  body = render k nodes format full;
  etag = etag_of (render k nodes format full);
}

entry-IsFresh :
    (k : Codec) (s : Store) (subs : List Str) (format : Format) (full : Bool) (nodes : List Node)
    (gen : ℕ)
    → s.gen ≡ gen
    → nodes ≡ collect subs s
    → (e : CacheEntry) → entry k nodes format full gen ≡ e
    → IsFresh k s subs format full e
entry-IsFresh k s subs format full nodes gen now h e same =
    rw (← same) (omega arith, λ now. (rw h refl, refl))

collect-cache :
    (subs : List Str) (s : Store) (c : Dict Str CacheEntry)
    → collect subs (record s { cache = c }) ≡ collect subs s
unfolding nodes_of
collect-cache subs s c = collect-SameNodes subs _ s (λ name. refl)

cache-IsFresh :
    (k : Codec) (s : Store) (c : Dict Str CacheEntry) (subs : List Str) (format : Format)
    (full : Bool) (e : CacheEntry)
    → IsFresh k s subs format full e
    → IsFresh k (record s { cache = c }) subs format full e
cache-IsFresh k s c subs format full e (le, fresh) =
    (le, λ now. rw (collect-cache subs s c) (fresh now))

-- What a `Render` stores is the rendering of the nodes the store has at that moment.
pub render_end-IsCoherent :
    (k : Codec) (subs : List Str) (format : Format) (full : Bool) (gen : ℕ) (nodes : List Node)
    (s : Store)
    → All IsPlainName subs
    → IsPending s subs gen nodes
    → IsCoherent k s
    → IsCoherent k (render_end k subs format full gen nodes s)
unfolding render_end
render_end-IsCoherent k subs format full gen nodes s plain (le, fresh) coh =
    elim (Bool-cases (nat_beq s.gen gen)) [
      | inl now ↦ rw (now, render_end) (stored (eq_of_beq s.gen gen now))
      | inr late ↦ rw (late, render_end) coh
    ]
  where
    stored :
        s.gen ≡ gen
        → IsCoherent k (record s {
          cache = insert (cache_key subs format full) (entry k nodes format full gen) s.cache;
        })
    stored same subs' format' full' e plain' found =
        let key = cache_key subs format full in
        let key' = cache_key subs' format' full' in
        let after = lookup-insert key key' (entry k nodes format full gen) s.cache in
        elim (Bool-cases (key == key')) [
          | inl here ↦
              let (a, b, c) =
                cache_key_inj subs subs' format format' full full' plain plain'
                  (eq_of_beq key key' here) in
              let mine : entry k nodes format full gen ≡ e = some_inj (rw (after, here) at found) in
              rw (← a, ← b, ← c)
                (cache-IsFresh k s _ subs format full e
                  (entry-IsFresh k s subs format full nodes gen same (fresh (sym same)) e mine))
          | inr there ↦
              cache-IsFresh k s _ subs' format' full' e
                (coh subs' format' full' e plain' (rw (after, there) at found))
        ]

pub render_end-IsPending :
    (k : Codec) (subs : List Str) (format : Format) (full : Bool) (gen : ℕ) (nodes : List Node)
    (s : Store) (other : List Str) (gen' : ℕ) (nodes' : List Node)
    → IsPending s other gen' nodes'
    → IsPending (render_end k subs format full gen nodes s) other gen' nodes'
unfolding render_end
render_end-IsPending k subs format full gen nodes s other gen' nodes' (le, fresh) =
    elim (Bool-cases (nat_beq s.gen gen)) [
      | inl now ↦ rw (now, render_end) (le, λ same. fresh same ∙ sym (collect-cache other s _))
      | inr late ↦ rw (late, render_end) (le, fresh)
    ]

pub render_end-gen :
    (k : Codec) (subs : List Str) (format : Format) (full : Bool) (gen : ℕ) (nodes : List Node)
    (s : Store)
    → (render_end k subs format full gen nodes s).gen ≡ s.gen
unfolding render_end
render_end-gen k subs format full gen nodes s = ground arith
