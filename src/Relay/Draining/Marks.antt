-- ===== src/Relay/Draining/Marks.antt =====
-- Draining: which connections are marked, when the next deadline is, and what a sweep leaves.
use proxy_proxy.Prelude.{
  ℕ, suc, ◌+◌, List, [], ◌∷◌, ◌++◌, Option, none, some, Bool, false, ◌&&◌, ◌⊎◌, inl, inr, ◌≡◌, refl,
  sym, ap, ◌∙◌, arith, Memᴰ,
}
use proxy_proxy.Prelude.Tests.{
  if◌then◌else◌, ltb, ◌==◌, Bool-cases, Option-cases, some_inj, eq_of_beq, beq_refl,
}
use proxy_proxy.Prelude.Lists.{length, length-append}
use proxy_proxy.Prelude.Dict.{
  Dict, lookup, insert, lookup-insert, lookup-insert_self, keys, keys-insert, lookup-eq-none,
}
use proxy_proxy.Prelude.Member.{contains, IsDistinct, append_unique-IsDistinct}
use proxy_proxy.Prelude.Text.{Str, str_eq}
use proxy_proxy.Relay.Render.{Desired}
use proxy_proxy.Relay.Draining.Moved.{KeepsRoute, KeepsUpstream, stale_iff}
use proxy_proxy.Relay.Draining.{stale, mark_each, mark_stale, sweep}
use proxy_proxy.Relay.Mihomo.{Mihomo, LiveProxy, Core, Tracker, drain_timeout}
use mathlib.Core.List.Memᴰ

insert-new :
    (k : Str) (v : ℕ) (m : Dict Str ℕ) → lookup k m ≡ none → insert k v m ≡ m ++ (k, v) ∷ []
unfolding lookup insert
insert-new k v [] h = refl
insert-new k v ((j, w) ∷ m) h = elim (Bool-cases (j == k)) [
  | inl same ↦ absurd (no (rw same at h))
  | inr other ↦ rw other (ap (◌∷◌ (j, w)) (insert-new k v m (rw other at h)))
]
  where
    no : some w ≡ none → ⊥
    no q = cc

module _ (M : Mihomo) (c : Core M) (now : Desired) (deadline : ℕ) (d : Desired)
    (proxies : Dict Str (LiveProxy M)) where
  -- The connection keeps its caller's route and its upstream.
  abbrev pub IsKept : Tracker → Type 0
  IsKept t = KeepsRoute M c now d proxies t × KeepsUpstream M c now d proxies t

  -- After the loop over open connections: deadlines that were set stay, each connection that is not
  -- kept has one, new ones are for such connections, and the count is that of the new ones.
  pub record IsMarked (open_now : List Tracker) (draining : Dict Str ℕ) (r : Dict Str ℕ × ℕ)
      : Type 0 where
    pub kept : (id : Str) (w : ℕ) → lookup id draining ≡ some w → lookup id r.0 ≡ some w
    pub marked : (t : Tracker) → Memᴰ t open_now → ¬ IsKept t → (w : ℕ) × (lookup t.id r.0 ≡ some w)
    pub only :
        (id : Str) (w : ℕ)
        → lookup id r.0 ≡ some w
        → (lookup id draining ≡ some w)
          ⊎ ((w ≡ deadline) × ((t : Tracker) × Memᴰ t open_now × (t.id ≡ id) × (¬ IsKept t)))
    pub count : length r.0 ≡ length draining + r.1
    pub distinct : IsDistinct (keys draining) → IsDistinct (keys r.0)

  skip_one :
      (t : Tracker) (ts : List Tracker) (draining : Dict Str ℕ) (r : Dict Str ℕ × ℕ)
      → (¬ IsKept t → (w : ℕ) × (lookup t.id draining ≡ some w))
      → IsMarked ts draining r
      → IsMarked (t ∷ ts) draining r
  skip_one t ts draining r has h = record {
    kept = h.kept;
    marked = λ t' m moved. elim (Memᴰ.cases_cons m) [
      | inl same ↦ let (w, q) = has (rw (← same) moved) in (w, rw same (h.kept t.id w q))
      | inr later ↦ h.marked t' later moved
    ];
    only = λ id w q. elim (h.only id w q) [
      | inl old ↦ inl old
      | inr (e, (t', m, named, moved)) ↦ inr (e, (t', Memᴰ.tail m, named, moved))
    ];
    count = h.count;
    distinct = h.distinct;
  }

  mark_one :
      (t : Tracker) (ts : List Tracker) (draining : Dict Str ℕ) (r : Dict Str ℕ × ℕ)
      → lookup t.id draining ≡ none
      → ¬ IsKept t
      → IsMarked ts (insert t.id deadline draining) r
      → IsMarked (t ∷ ts) draining (r.0, suc r.1)
  mark_one t ts draining r new moved h = record {
    kept = λ id w q. h.kept id w (elim (Bool-cases (t.id == id)) [
      | inl same ↦
          let e = eq_of_beq t.id id same in
          let bad : lookup t.id draining ≡ some w = rw e q in absurd (cc)
      | inr other ↦ rw (lookup-insert t.id id deadline draining, other) q
    ]);
    marked = λ t' m moved'. elim (Memᴰ.cases_cons m) [
      | inl same ↦
          (deadline, rw same (h.kept t.id deadline (lookup-insert_self t.id deadline draining)))
      | inr later ↦ h.marked t' later moved'
    ];
    only = λ id w q. elim (h.only id w q) [
      | inl written ↦ elim (Bool-cases (t.id == id)) [
        | inl same ↦
            let is : some deadline ≡ some w =
              rw (lookup-insert t.id id deadline draining, same) at written in
            inr (sym (some_inj is), (t, Memᴰ.head refl, eq_of_beq t.id id same, moved))
        | inr other ↦ inl (rw (lookup-insert t.id id deadline draining, other) at written)
      ]
      | inr (e, (t', m, named, moved')) ↦ inr (e, (t', Memᴰ.tail m, named, moved'))
    ];
    count =
        let longer =
          ap length (insert-new t.id deadline draining new)
          ∙ length-append draining ((t.id, deadline) ∷ []) in
        let n = h.count in omega arith;
    distinct = λ dist. h.distinct (
        rw (keys-insert t.id deadline draining)
          (append_unique-IsDistinct (keys draining) t.id dist));
  }

  pub mark_each-IsMarked :
      (open_now : List Tracker) (draining : Dict Str ℕ)
      → IsMarked open_now draining (mark_each M c now deadline d proxies open_now draining)
  unfolding mark_each
  mark_each-IsMarked [] draining = record {
    kept = λ id w q. q;
    marked = λ t m. elim m [ ];
    only = λ id w q. inl q;
    count = omega arith;
    distinct = λ h. h;
  }
  mark_each-IsMarked (t ∷ ts) draining = elim (Option-cases (lookup t.id draining)) [
    | inr (w, old) ↦
        rw (old, mark_each)
          (skip_one t ts draining _ (λ q. (w, old)) (mark_each-IsMarked ts draining))
    | inl new ↦ elim (Bool-cases (stale M c now t d proxies)) [
      | inr fine ↦
          rw (new, fine, mark_each)
            (skip_one t ts draining _ (λ q. absurd (q ((stale_iff M c now d proxies t).0 fine)))
              (mark_each-IsMarked ts draining))
      | inl moved ↦
          rw (new, moved, mark_each)
            (mark_one t ts draining _ new (λ k. let bad = (stale_iff M c now d proxies t).1 k in cc)
              (mark_each-IsMarked ts (insert t.id deadline draining)))
    ]
  ]

-- Where no connection is marked, the deadlines are what they were.
none_marked :
    (M : Mihomo) (c : Core M) (now : Desired) (deadline : ℕ) (d : Desired)
    (proxies : Dict Str (LiveProxy M)) (open_now : List Tracker) (draining : Dict Str ℕ)
    → (mark_each M c now deadline d proxies open_now draining).1 ≡ 0
    → (mark_each M c now deadline d proxies open_now draining).0 ≡ draining
unfolding mark_each
none_marked M c now deadline d proxies [] draining h = refl
none_marked M c now deadline d proxies (t ∷ ts) draining h =
    elim (Option-cases (lookup t.id draining)) [
      | inr (w, old) ↦
          rw (old, mark_each)
            (none_marked M c now deadline d proxies ts draining (rw (old, mark_each) at h))
      | inl new ↦ elim (Bool-cases (stale M c now t d proxies)) [
        | inr fine ↦
            rw (new, fine, mark_each)
              (none_marked M c now deadline d proxies ts draining (rw (new, fine, mark_each) at h))
        | inl moved ↦ let some_marked = rw (new, moved, mark_each) at h in absurd (omega arith)
      ]
    ]

-- `markStale`, with whether the loop has run.
pub mark_stale_lem :
    (M : Mihomo) (c : Core M) (time : ℕ) (open_now : List Tracker) (d : Desired)
    (proxies : Dict Str (LiveProxy M))
    → let r = mark_stale M c time open_now d proxies in
      (IsDistinct (keys c.draining) → IsDistinct (keys r.0)) × (r.1 ≡ 0 → r.0 ≡ c.draining)
unfolding mark_stale
mark_stale_lem M c time open_now d proxies = elim (Option-cases c.current) [
  | inl idle ↦ rw (idle, mark_stale) (λ h. h, λ q. refl)
  | inr (now, run) ↦
      let inv = mark_each-IsMarked M c now (time + drain_timeout) d proxies open_now c.draining in
      rw (run, mark_stale)
        (inv.distinct, none_marked M c now (time + drain_timeout) d proxies open_now c.draining)
]

-- What `markStale` does when there is a current state: deadlines that were set stay, each open
-- connection that the new state moves off its route or its upstream has a deadline, new deadlines are
-- five minutes away and for such connections, and the number is that of the new ones. A
-- connection stays where its listener and username have the password and the target that they had,
-- and the first of its chain is a member of the group at the chain's end and the same object.
pub mark_stale-IsMarked :
    (M : Mihomo) (c : Core M) (now : Desired) (time : ℕ) (open_now : List Tracker) (d : Desired)
    (proxies : Dict Str (LiveProxy M))
    → c.current ≡ some now
    → IsMarked M c now
        (time + drain_timeout)
        d
        proxies
        open_now
        c.draining
        (mark_stale M c time open_now d proxies)
unfolding mark_stale
mark_stale-IsMarked M c now time open_now d proxies run =
    simp (run, mark_stale)
      (mark_each-IsMarked M c now (time + drain_timeout) d proxies open_now c.draining)

-- A sweep of a map with one deadline to a connection.
sweep-missing :
    (time : ℕ) (tracked : Str → Bool) (id : Str) (m : Dict Str ℕ)
    → contains (keys m) id ≡ false
    → contains (keys (sweep time tracked m).0) id ≡ false
unfolding keys contains sweep
sweep-missing time tracked id [] h = refl
sweep-missing time tracked id ((j, w) ∷ m) h =
    let ih = sweep-missing time tracked id m (ground arith) in ground (arith, ih)

-- What a sweep leaves of one deadline.
abbrev pub left_at : ℕ → (Str → Bool) → Str → Option ℕ → Option ℕ
left_at time tracked id none = none
left_at time tracked id (some w) = if tracked id && ltb time w then some w else none

pub sweep-lookup :
    (time : ℕ) (tracked : Str → Bool) (id : Str) (m : Dict Str ℕ)
    → IsDistinct (keys m)
    → lookup id (sweep time tracked m).0 ≡ left_at time tracked id (lookup id m)
unfolding keys lookup sweep
sweep-lookup time tracked id [] dist = refl
sweep-lookup time tracked id ((j, w) ∷ m) (fresh, dist) =
    let ih = sweep-lookup time tracked id m dist in
    let gone = lookup-eq-none j (sweep time tracked m).0 (sweep-missing time tracked j m fresh) in
    elim (Bool-cases (j == id)) [
      | inl same ↦ let e = eq_of_beq j id same in rw (← e) (ground (arith, gone, beq_refl j))
      | inr other ↦ ground (arith, ih)
    ]

-- Each key that is left was there before.
pub sweep-IsDistinct :
    (time : ℕ) (tracked : Str → Bool) (m : Dict Str ℕ)
    → IsDistinct (keys m)
    → IsDistinct (keys (sweep time tracked m).0)
unfolding keys sweep
sweep-IsDistinct time tracked [] dist = tt
sweep-IsDistinct time tracked ((j, v) ∷ m) (fresh, dist) =
    let ih = sweep-IsDistinct time tracked m dist in
    let gone = sweep-missing time tracked j m fresh in
    elim (Bool-cases (tracked j)) [
      | inr closed ↦ rw (closed, sweep) ih
      | inl open_still ↦ elim (Bool-cases (ltb time v)) [
        | inl early ↦ rw (open_still, early, sweep) (gone, ih)
        | inr due ↦ rw (open_still, due, sweep) ih
      ]
    ]
