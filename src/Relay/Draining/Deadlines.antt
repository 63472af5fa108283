-- ===== src/Relay/Draining/Deadlines.antt =====
-- The next deadline is the earliest, and a sweep closes what is due and leaves what is not.
use proxy_proxy.Prelude.{
  ℕ, ◌≤◌, ◌<◌, List, [], ◌∷◌, map, Option, none, some, Bool, false, not, ◌&&◌, ◌⊎◌, inl, inr, ◌≡◌,
  refl, sym, ap, ◌∙◌, arith, Memᴰ,
}
use proxy_proxy.Prelude.Tests.{ltb, ◌==◌, Bool-cases, some_inj, eq_of_beq, beq_refl}
use proxy_proxy.Prelude.Dict.{Dict, lookup, keys, lookup-eq-none}
use proxy_proxy.Prelude.Member.{contains, IsDistinct, All, All-mem}
use proxy_proxy.Prelude.Text.{Str, str_eq, str_beq_iff}
use proxy_proxy.Relay.Draining.{sweep, next_from, next_deadline}
use proxy_proxy.Relay.Draining.Marks.{left_at, sweep-lookup}

abbrev pub deadlines : Dict Str ℕ → List ℕ
deadlines m = map (λ e. e.1) m

pub deadline-mem : (id : Str) (w : ℕ) (m : Dict Str ℕ) → lookup id m ≡ some w → Memᴰ w (deadlines m)
unfolding lookup
deadline-mem id w [] h = absurd (cc)
deadline-mem id w ((j, v) ∷ m) h = elim (Bool-cases (j == id)) [
  | inl same ↦ let is : some v ≡ some w = rw same at h in Memᴰ.head (sym (some_inj is))
  | inr other ↦ Memᴰ.tail (deadline-mem id w m (rw other at h))
]

-- The earliest deadline, if there is any.
pub data IsEarliest (m : Dict Str ℕ) : Option ℕ → Type 0 where
  nothing : m ≡ [] → IsEarliest m none
  soonest : {t : ℕ} → Memᴰ t (deadlines m) → All (λ w. t ≤ w) (deadlines m) → IsEarliest m (some t)

All-le : (s t : ℕ) (ws : List ℕ) → s ≤ t → All (λ w. t ≤ w) ws → All (λ w. s ≤ w) ws
All-le s t [] le a = tt
All-le s t (w ∷ ws) le (here, a) = (omega arith, All-le s t ws le a)

-- The loop from a deadline on.
next_from-some :
    (n : ℕ) (m : Dict Str ℕ)
    → (t : ℕ) × (next_from (some n) m ≡ some t)
      × ((t ≡ n) ⊎ Memᴰ t (deadlines m))
      × (t ≤ n)
      × All (λ w. t ≤ w) (deadlines m)
unfolding next_from
next_from-some n [] = (n, refl, inl refl, omega arith, tt)
next_from-some n ((j, v) ∷ m) = elim (Bool-cases (ltb v n)) [
  | inl earlier ↦
      let (t, eq, from, le, a) = next_from-some v m in
      (
        t,
        rw (earlier, next_from) eq,
        inr (elim from [ inl q ↦ Memᴰ.head q | inr k ↦ Memᴰ.tail k ]),
        ground arith,
        (le, a),
      )
  | inr later ↦
      let (t, eq, from, le, a) = next_from-some n m in
      (
        t,
        rw (later, next_from) eq,
        elim from [ inl q ↦ inl q | inr k ↦ inr (Memᴰ.tail k) ],
        le,
        (ground arith, a),
      )
]

pub next_deadline-IsEarliest : (m : Dict Str ℕ) → IsEarliest m (next_deadline m)
unfolding next_deadline next_from
next_deadline-IsEarliest [] = nothing refl
next_deadline-IsEarliest ((j, v) ∷ m) =
    let (t, eq, from, le, a) = next_from-some v m in
    rw eq (soonest (elim from [ inl q ↦ Memᴰ.head q | inr k ↦ Memᴰ.tail k ]) (le, a))

-- Whether a sweep closes a connection with this deadline: mihomo still tracks it, and it is due.
abbrev pub closes_at : ℕ → (Str → Bool) → Str → Option ℕ → Bool
closes_at time tracked id none = false
closes_at time tracked id (some w) = tracked id && not (ltb time w)

sweep-closed :
    (time : ℕ) (tracked : Str → Bool) (id : Str) (m : Dict Str ℕ)
    → IsDistinct (keys m)
    → contains (sweep time tracked m).1 id ≡ closes_at time tracked id (lookup id m)
unfolding sweep contains lookup keys
sweep-closed time tracked id [] dist = refl
sweep-closed time tracked id ((j, v) ∷ m) (fresh, dist) =
    let ih = sweep-closed time tracked id m dist in
    elim (Bool-cases (j == id)) [
      | inl same ↦
          let e = eq_of_beq j id same in
          let gone : contains (sweep time tracked m).1 j ≡ false =
            sweep-closed time tracked j m dist
            ∙ ap (closes_at time tracked j) (lookup-eq-none j m fresh) in
          rw (← e) (ground (arith, gone, beq_refl j))
      | inr other ↦ ground (arith, ih, str_beq_iff j id, str_beq_iff id j)
    ]

-- The deadlines that a sweep leaves are later than its time.
sweep-later :
    (time : ℕ) (tracked : Str → Bool) (m : Dict Str ℕ)
    → All (λ w. time < w) (deadlines (sweep time tracked m).0)
unfolding sweep
sweep-later time tracked [] = tt
sweep-later time tracked ((j, v) ∷ m) =
    let ih = sweep-later time tracked m in
    elim (Bool-cases (tracked j)) [
      | inr gone ↦ rw (gone, sweep) ih
      | inl open_still ↦ elim (Bool-cases (ltb time v)) [
        | inl early ↦ rw (open_still, early, sweep) (ground arith, ih)
        | inr due ↦ rw (open_still, due, sweep) ih
      ]
    ]

later-deadline :
    (time : ℕ) (m : Dict Str ℕ) {t : ℕ}
    → All (λ w. time < w) (deadlines m)
    → next_deadline m ≡ some t
    → time < t
later-deadline time m {t} a q = go (next_deadline m) (next_deadline-IsEarliest m) q
  where
    go : (o : Option ℕ) → IsEarliest m o → o ≡ some t → time < t
    go none e q = absurd (cc)
    go (some u) (soonest mem _) q = rw (← some_inj q) (All-mem (λ w. time < w) (deadlines m) a mem)

-- A sweep at a time, of a map with one deadline to a connection.
pub record IsSwept (time : ℕ) (tracked : Str → Bool) (m : Dict Str ℕ) (r : Dict Str ℕ × List Str)
    : Type 0 where
  pub left : (id : Str) → lookup id r.0 ≡ left_at time tracked id (lookup id m)
  pub closed : (id : Str) → contains r.1 id ≡ closes_at time tracked id (lookup id m)
  pub next : {t : ℕ} → next_deadline r.0 ≡ some t → time < t

-- `sweep` closes exactly the draining connections that are open and due, keeps exactly the deadlines
-- of the open ones that are not due, and the next deadline after it lies in the future. The map holds
-- one deadline to a connection.
pub sweep-IsSwept :
    (time : ℕ) (tracked : Str → Bool) (m : Dict Str ℕ)
    → IsDistinct (keys m)
    → IsSwept time tracked m (sweep time tracked m)
sweep-IsSwept time tracked m dist = record {
  left = λ id. sweep-lookup time tracked id m dist;
  closed = λ id. sweep-closed time tracked id m dist;
  next = λ q. later-deadline time (sweep time tracked m).0 (sweep-later time tracked m) q;
}
