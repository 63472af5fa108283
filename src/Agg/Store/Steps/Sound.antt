-- ===== src/Agg/Store/Steps/Sound.antt =====
-- Every event keeps the render cache coherent, and what the waiting requests have read.
use proxy_proxy.Prelude.{
  ℕ, zero, suc, ◌+◌, ◌%◌, ◌^◌, ◌≤◌, ◌<◌, List, [], ◌∷◌, some, Bool, ◌≡◌, ◌⊎◌, refl, inl, inr, arith,
}
use proxy_proxy.Prelude.Tests.{nat_eq, nat_beq, Bool-cases, Option-cases, eq_of_beq, some_inj}
use proxy_proxy.Prelude.Lists.{get_elem?}
use proxy_proxy.Prelude.Dict.{lookup}
use proxy_proxy.Prelude.Member.{All}
use proxy_proxy.Prelude.Text.{Str, str_eq}
use proxy_proxy.Node.Types.{Node}
use proxy_proxy.Agg.Render.{Format, Codec}
use proxy_proxy.Agg.Store.{
  CacheEntry, Store, hit, miss, notify_locked, set_nodes, set_error, touch, prune, receive,
  nodes_of, collect, cache_key, render_begin,
}
use proxy_proxy.Agg.Store.CacheKey.{IsPlainName}
use proxy_proxy.Agg.Store.Coherence.{
  IsCoherent, IsPending, set_error-SameNodes, touch-SameNodes, kept-IsCoherent, kept-IsPending,
  next-IsCoherent, next-IsPending, render_end-IsCoherent, render_end-IsPending, render_end-gen,
}
use proxy_proxy.Agg.Store.Steps.{
  Flight, Event, set_nodes_event, set_error_event, touch_event, prune_event, receive_event, begin,
  finish, World, remove_at, step, IsPlain,
}

abbrev pub IsWaiting : Store → Flight → Type 0
IsWaiting s f = All IsPlainName f.subs × IsPending s f.subs f.gen f.nodes

-- After at most `n` events.
abbrev pub IsSound : Codec → ℕ → World → Type 0
IsSound k n w = (w.store.gen ≤ n) × IsCoherent k w.store × All (IsWaiting w.store) w.flights

All-map :
    {P Q : Flight → Type 0} (fs : List Flight) → ((f : Flight) → P f → Q f) → All P fs → All Q fs
All-map [] h a = tt
All-map (f ∷ fs) h (a, rest) = (h f a, All-map fs h rest)

All-remove_at : (P : Flight → Type 0) (i : ℕ) (fs : List Flight) → All P fs → All P (remove_at i fs)
unfolding remove_at
All-remove_at P i [] a = a
All-remove_at P zero (f ∷ fs) (a, rest) = rest
All-remove_at P (suc i) (f ∷ fs) (a, rest) = (a, All-remove_at P i fs rest)

All-get_elem? :
    (P : Flight → Type 0) (i : ℕ) (fs : List Flight) (f : Flight)
    → All P fs
    → get_elem? fs i ≡ some f
    → P f
All-get_elem? P i [] f a h = absurd (cc)
All-get_elem? P zero (g ∷ fs) f (a, rest) h = rw (← (some_inj h)) a
All-get_elem? P (suc i) (g ∷ fs) f (a, rest) h = All-get_elem? P i fs f rest h

-- The operations that leave the nodes as they are, and those that start a generation.
kept-IsSound :
    (k : Codec) (n : ℕ) (w : World) (t : Store)
    → ((name : Str) → (nodes_of name t).0 ≡ (nodes_of name w.store).0)
    → t.gen ≡ w.store.gen
    → t.cache ≡ w.store.cache
    → IsSound k n w
    → IsSound k (suc n) (record w { store = t })
kept-IsSound k n w t same g c (le, coh, waiting) = (
  omega arith,
  kept-IsCoherent k w.store t same g c coh,
  All-map w.flights (λ f h. (h.0, kept-IsPending w.store t f.subs f.gen f.nodes same g h.1))
      waiting,
)

next-IsSound :
    (k : Codec) (n : ℕ) (w : World) (t : Store)
    → t.gen ≡ w.store.gen + 1
    → ((key : Str) (e : CacheEntry)
        → lookup key t.cache ≡ some e
        → lookup key w.store.cache ≡ some e)
    → IsSound k n w
    → IsSound k (suc n) (record w { store = t })
next-IsSound k n w t g c (le, coh, waiting) = (
  omega arith,
  next-IsCoherent k w.store t g c coh,
  All-map w.flights (λ f h. (h.0, next-IsPending w.store t f.subs f.gen f.nodes g h.1)) waiting,
)

wrap : (g n : ℕ) → g ≤ n → suc n < 2 ^ 64 → (g + 1) % 2 ^ 64 ≡ g + 1
wrap g n le b = omega arith

set_nodes-IsSound :
    (k : Codec) (n : ℕ) (w : World) (name : Str) (nodes : List Node)
    (etag last_modified user_info : Str) (now : ℕ)
    → suc n < 2 ^ 64
    → IsSound k n w
    → IsSound k
        (suc n)
        (record w { store = set_nodes name nodes etag last_modified user_info now w.store })
unfolding set_nodes notify_locked
set_nodes-IsSound k n w name nodes etag last_modified user_info now b h =
    next-IsSound k n w _ (wrap w.store.gen n h.0 b) (λ key e found. found) h

prune-IsSound :
    (k : Codec) (n : ℕ) (w : World) (keep : List Str)
    → suc n < 2 ^ 64
    → IsSound k n w
    → IsSound k (suc n) (record w { store = prune keep w.store })
unfolding prune notify_locked lookup
prune-IsSound k n w keep b h =
    next-IsSound k n w _ (wrap w.store.gen n h.0 b) (λ key e found. absurd (cc)) h

set_error-IsSound :
    (k : Codec) (n : ℕ) (w : World) (name err : Str)
    → IsSound k n w
    → IsSound k (suc n) (record w { store = set_error name err w.store })
unfolding set_error
set_error-IsSound k n w name err h =
    kept-IsSound k n w (set_error name err w.store) (set_error-SameNodes name err w.store) refl refl
      h

touch-kept :
    (name : Str) (now : ℕ) (s : Store)
    → ((touch name now s).gen ≡ s.gen) × ((touch name now s).cache ≡ s.cache)
unfolding touch
touch-kept name now s = elim (Option-cases (lookup name s.subs)) [
  | inl missing ↦ rw (missing, touch) (refl, refl)
  | inr (st, found) ↦ rw (found, touch) (refl, refl)
]

touch-IsSound :
    (k : Codec) (n : ℕ) (w : World) (name : Str) (now : ℕ)
    → IsSound k n w
    → IsSound k (suc n) (record w { store = touch name now w.store })
touch-IsSound k n w name now h =
    kept-IsSound k n w (touch name now w.store) (touch-SameNodes name now w.store)
      (touch-kept name now w.store).0 (touch-kept name now w.store).1 h

receive-IsSound :
    (k : Codec) (n : ℕ) (w : World)
    → IsSound k n w
    → IsSound k (suc n) (record w { store = receive w.store })
unfolding receive nodes_of
receive-IsSound k n w h = kept-IsSound k n w (receive w.store) (λ name. refl) refl refl h

later-IsSound : (k : Codec) (n : ℕ) (w : World) → IsSound k n w → IsSound k (suc n) w
later-IsSound k n w (le, coh, waiting) = (omega arith, coh, waiting)

-- The two ways the first section of a `Render` ends.
pub render_begin-cases :
    (subs : List Str) (format : Format) (full : Bool) (s : Store)
    → ((e : CacheEntry) × (lookup (cache_key subs format full) s.cache ≡ some e)
        × (e.gen ≡ s.gen)
        × (render_begin subs format full s ≡ hit e.body e.etag))
      ⊎ (render_begin subs format full s ≡ miss s.gen (collect subs s))
unfolding render_begin
render_begin-cases subs format full s =
    elim (Option-cases (lookup (cache_key subs format full) s.cache)) [
      | inl missing ↦ inr (rw (missing, render_begin) refl)
      | inr (e, found) ↦ elim (Bool-cases (nat_beq e.gen s.gen)) [
        | inl now ↦ inl (e, found, eq_of_beq e.gen s.gen now, rw (found, now, render_begin) refl)
        | inr late ↦ inr (rw (found, late, render_begin) refl)
      ]
    ]

begin-IsSound :
    (k : Codec) (n : ℕ) (w : World) (subs : List Str) (format : Format) (full : Bool)
    → All IsPlainName subs
    → IsSound k n w
    → IsSound k (suc n) (step k (begin subs format full) w)
unfolding step
begin-IsSound k n w subs format full plain h = elim (render_begin-cases subs format full w.store) [
  | inl (e, found, now, eq) ↦ rw (eq, step) (later-IsSound k n w h)
  | inr eq ↦
      rw (eq, step)
        (let (le, coh, waiting) = later-IsSound k n w h in
          (le, coh, ((plain, (omega arith, λ now. refl)), waiting)))
]

finish-IsSound :
    (k : Codec) (n : ℕ) (w : World) (i : ℕ)
    → IsSound k n w
    → IsSound k (suc n) (step k (finish i) w)
unfolding step
finish-IsSound k n w i h = elim (Option-cases (get_elem? w.flights i)) [
  | inl missing ↦ rw (missing, step) (later-IsSound k n w h)
  | inr (f, found) ↦
      let (le, coh, waiting) = h in
      let (plain, pending) = All-get_elem? (IsWaiting w.store) i w.flights f waiting found in
      let same = render_end-gen k f.subs f.format f.full f.gen f.nodes w.store in
      rw (found, step)
        (
          omega arith,
          render_end-IsCoherent k f.subs f.format f.full f.gen f.nodes w.store plain pending coh,
          All-map _
              (λ g h. (
                h.0,
                render_end-IsPending k f.subs f.format f.full f.gen f.nodes w.store g.subs g.gen
                    g.nodes h.1,
              ))
              (All-remove_at (IsWaiting w.store) i w.flights waiting),
        )
]

pub step-IsSound :
    (k : Codec) (n : ℕ) (e : Event) (w : World)
    → suc n < 2 ^ 64
    → IsPlain e
    → IsSound k n w
    → IsSound k (suc n) (step k e w)
unfolding step
step-IsSound k n (set_nodes_event name nodes etag last_modified user_info now) w b p h =
    set_nodes-IsSound k n w name nodes etag last_modified user_info now b h
step-IsSound k n (set_error_event name err) w b p h = set_error-IsSound k n w name err h
step-IsSound k n (touch_event name now) w b p h = touch-IsSound k n w name now h
step-IsSound k n (prune_event keep) w b p h = prune-IsSound k n w keep b h
step-IsSound k n receive_event w b p h = receive-IsSound k n w h
step-IsSound k n (begin subs format full) w b p h = begin-IsSound k n w subs format full p h
step-IsSound k n (finish i) w b p h = finish-IsSound k n w i h
