-- ===== src/Server/Laws.antt =====
-- Who is served, what the answer holds, and the refresh interval it advertises.
use proxy_proxy.Prelude.{
  ◌*◌, ◌^◌, ◌≤◌, ◌<◌, List, [], ◌∷◌, map, Option, none, some, Bool, true, false, ◌&&◌, ◌||◌, ◌≡◌,
  ◌≢◌, ◌↔◌, ◌⊎◌, inl, inr, refl, sym, ap, ◌∙◌, Memᴰ, arith,
}
use proxy_proxy.Prelude.Tests.{
  if◌then◌else◌, ◌==◌, nat_eq, Bool-cases, Option-cases, eq_of_beq, some_inj,
}
use proxy_proxy.Prelude.Lists.{length}
use proxy_proxy.Prelude.Member.{contains, All, All-mem}
use proxy_proxy.Prelude.Int.{ℤ, pos, negsuc, pos_part, ltb_ℤ, ◌≤ℤ◌, ℤ_eq}
use proxy_proxy.Prelude.Text.{
  Str, lit, is_empty, str_eq, str_beq_iff, eq-nil_of_is_empty, is_empty_of_eq,
}
use proxy_proxy.Config.Types.{Sub, Key, Config}
use proxy_proxy.Config.RelaySubs.{minute, hour}
use proxy_proxy.Agg.Render.{Format, Codec, render, etag_of}
use proxy_proxy.Agg.Store.{Store, collect, render_begin, render_now}
use proxy_proxy.Agg.Store.CacheKey.{IsPlainName}
use proxy_proxy.Agg.Store.Steps.{Event, new_world, run, payload, IsPlain}
use proxy_proxy.Agg.Store.Steps.Sound.{render_begin-cases}
use proxy_proxy.Agg.Store.Steps.Laws.{payload-run}
use proxy_proxy.Server.Answer.{IsAnswer, respond-IsAnswer}
use proxy_proxy.Server.{
  Request, Response, not_found, value, last_match, find_key, negotiate_format, min_interval,
  update_interval_hours, respond, handle_sub,
}
use mathlib.Core.List.Memᴰ
use mathlib.Core.Path.{subst}

abbrev pub keys_of : List Key → List Str
keys_of ks = map (λ k. k.key) ks

last_match-found :
    (ks : List Key) (key : Str) (found : Option Key) (k : Key)
    → last_match ks key found ≡ some k
    → (found ≡ some k) ⊎ (Memᴰ k ks × (k.key ≡ key))
unfolding last_match
last_match-found [] key found k h = inl h
last_match-found (j ∷ ks) key found k h =
    elim (last_match-found ks key (if j.key == key then some j else found) k h) [
      | inr (m, e) ↦ inr (Memᴰ.tail m, e)
      | inl here ↦ elim (Bool-cases (j.key == key)) [
        | inr other ↦ inl (rw other at here)
        | inl same ↦
            let is : some j ≡ some k = rw same at here in
            inr (
              Memᴰ.head (sym (some_inj is)),
              ap (λ x. x.key) (sym (some_inj is)) ∙ eq_of_beq j.key key same,
            )
      ]
    ]

last_match-none :
    (ks : List Key) (key : Str) (found : Option Key)
    → (last_match ks key found ≡ none) ↔ ((found ≡ none) × (contains (keys_of ks) key ≡ false))
unfolding last_match contains
last_match-none [] key found = (λ h. (h, refl), λ h. h.0)
last_match-none (j ∷ ks) key found = elim (Bool-cases (j.key == key)) [
  | inr other ↦
      let ih = last_match-none ks key found in
      rw other (
        λ h.
            let (a, b) = ih.0 h in
            (a, ground (arith, str_beq_iff j.key key, str_beq_iff key j.key)),
        λ h. ih.1 (h.0, ground arith),
      )
  | inl same ↦
      let ih = last_match-none ks key (some j) in
      rw same (
        λ h. absurd (some-ne-none (ih.0 h).0),
        λ h. absurd (ground (arith, str_beq_iff j.key key, str_beq_iff key j.key)),
      )
]
  where
    some-ne-none : ¬ (some j ≡ none)
    some-ne-none q = cc

-- `findKey` finds nothing if and only if the requested key is empty or no configured key has it; what
-- it finds is a configured key with the requested value.
pub find_key_iff :
    (cfg : Config) (key : Str)
    → ((find_key cfg key ≡ none) ↔ ((key ≡ []) ⊎ (contains (keys_of cfg.keys) key ≡ false)))
      × ((k : Key) → find_key cfg key ≡ some k → Memᴰ k cfg.keys × (k.key ≡ key))
unfolding find_key
find_key_iff cfg key = elim (Bool-cases (is_empty key)) [
  | inl empty ↦
      ((λ h. inl (eq-nil_of_is_empty key empty), λ h. rw empty refl), λ k h. absurd (ground arith))
  | inr full ↦
      let ih = last_match-none cfg.keys key none in
      (
        (
          λ h. inr (ih.0 (rw (full, find_key) at h)).1,
          λ h. elim h [
            | inl nil ↦ absurd (let e = is_empty_of_eq key nil in cc)
            | inr missing ↦ rw (full, find_key) (ih.1 (refl, missing))
          ],
        ),
        λ k h. elim (last_match-found cfg.keys key none k (rw (full, find_key) at h)) [
          | inl never ↦ absurd (cc)
          | inr is ↦ is
        ],
      )
]

render_now-payload :
    (c : Codec) (subs : List Str) (format : Format) (full : Bool) (s : Store)
    → (render_now c subs format full s).0 ≡ payload c format full (render_begin subs format full s)
unfolding render_now payload
render_now-payload c subs format full s = elim (render_begin-cases subs format full s) [
  | inl (e, found, now, eq) ↦ rw (eq, render_now, payload) refl
  | inr eq ↦ rw (eq, render_now, payload) refl
]

-- What the handler sends for the key that it has found.
abbrev answer : Codec → Config → Key → Request → Store → Store → Response
answer c cfg k r s s' =
    let (format, full) = negotiate_format r in
    let body = render c (collect k.resolved s) format full in
    respond cfg k r format s' (body, etag_of body)

-- A key that is found is configured; it is found where it is configured and not empty.
find_key-some :
    (cfg : Config) (key : Str)
    → key ≢ []
    → contains (keys_of cfg.keys) key ≡ true
    → (k : Key) × (find_key cfg key ≡ some k) × Memᴰ k cfg.keys × (k.key ≡ key)
find_key-some cfg key ne known =
    let (nothing, is) = find_key_iff cfg key in
    elim (Option-cases (find_key cfg key)) [
      | inl missing ↦ elim (nothing.0 missing) [
        | inl empty ↦ absurd (ne empty)
        | inr unknown ↦ absurd (cc)
      ]
      | inr (k, found) ↦ let (m, same) = is k found in (k, found, m, same)
    ]

-- After any sequence of fewer than 2^64 events of the store, with plain sub names: a request whose key
-- is empty or not configured gets 404 and leaves the store as it is. One whose key is configured is
-- answered for a key with that value: with the rendering of the nodes that the store has for the key's
-- subs at that moment, under its ETag, in the format that the query asks for or else the user agent
-- decides, with the content type of the format; it gets 304 without a body exactly if it says that it
-- has the rendering with that ETag, and 200 otherwise.
pub handle_sub-run :
    (c : Codec) (cfg : Config) (r : Request) (es : List Event)
    → length es < 2 ^ 64
    → All IsPlain es
    → All (λ k. All IsPlainName k.resolved) cfg.keys
    → let s = (run c es new_world).store in
      let key = value (lit "key") r.query in
      let out = handle_sub c cfg r s in
      (((key ≡ []) ⊎ (contains (keys_of cfg.keys) key ≡ false))
        → (out.0 ≡ record { status = 404; headers = []; body = not_found }) × (out.1 ≡ s))
      × (key ≢ []
          → contains (keys_of cfg.keys) key ≡ true
          → (k : Key) × Memᴰ k cfg.keys × (k.key ≡ key) × IsAnswer c k r s out.0)
unfolding handle_sub
handle_sub-run c cfg r es b p plain =
    let s = (run c es new_world).store in
    let key = value (lit "key") r.query in
    (
      λ h. let missing = (find_key_iff cfg key).0.1 h in rw (missing, handle_sub) (refl, refl),
      λ ne known.
          let (k, found, m, same) = find_key-some cfg key ne known in
          let (format, full) = negotiate_format r in
          let names = All-mem (λ k. All IsPlainName k.resolved) cfg.keys plain m in
          let s' = (render_now c k.resolved format full s).1 in
          let now =
            render_now-payload c k.resolved format full s
            ∙ payload-run c es k.resolved format full b p names in
          let out : (handle_sub c cfg r s).0 ≡ answer c cfg k r s s' =
            rw (found, handle_sub) (ap (respond cfg k r format s') now) in
          (k, m, same, subst (IsAnswer c k r s) (sym out) (respond-IsAnswer c cfg k r s s')),
    )

abbrev IsPositive : ℤ → Type 0
IsPositive z = 1 ≤ pos_part z

-- The start of the loop, or an interval that it has met.
abbrev IsMin : ℤ → Type 0
IsMin z = (z ≡ pos 0) ⊎ IsPositive z

abbrev pick : Bool → ℤ → ℤ → ℤ
pick c i m = if c && (m == pos 0 || ltb_ℤ i m) then i else m

pick-bound :
    (c : Bool) (i m : ℤ)
    → IsPositive i
    → IsMin m
    → IsMin (pick c i m)
      × (c ≡ true → (IsPositive (pick c i m)) × (pos_part (pick c i m) ≤ pos_part i))
      × (IsPositive m → IsPositive (pick c i m) × (pos_part (pick c i m) ≤ pos_part m))
pick-bound c (pos i) (pos m) h k = ground arith
pick-bound c (pos i) (negsuc m) h k = ground arith
pick-bound c (negsuc i) m h k = absurd (omega arith)

min_interval-le :
    (allowed : List Str) (subs : List Sub) (m : ℤ)
    → All (λ s. IsPositive s.interval) subs
    → IsMin m
    → let n = min_interval allowed subs m in
      (IsPositive m → pos_part n ≤ pos_part m)
      × ((s : Sub)
          → Memᴰ s subs
          → contains allowed s.name ≡ true
          → pos_part n ≤ pos_part s.interval)
unfolding min_interval
min_interval-le allowed [] m h k = (λ q. omega arith, λ s none_in. elim none_in [ ])
min_interval-le allowed (s ∷ subs) m (h, hs) k =
    let c = contains allowed s.name in
    let (k', met, kept) = pick-bound c s.interval m h k in
    let (bound, others) = min_interval-le allowed subs (pick c s.interval m) hs k' in
    (
      λ q. let (q', le) = kept q in let b = bound q' in omega arith,
      λ t in_list ok. elim (Memᴰ.cases_cons in_list) [
        | inr later ↦ others t later ok
        | inl same ↦
            let (q', le) = met (rw (ap (λ x. contains allowed x.name) (sym same)) ok) in
            let b = bound q' in rw same (omega arith)
      ],
    )

All-IsPositive :
    (subs : List Sub)
    → All (λ s. pos minute ≤ℤ s.interval) subs
    → All (λ s. IsPositive s.interval) subs
All-IsPositive [] h = tt
All-IsPositive (s ∷ subs) (h, hs) = (omega arith, All-IsPositive subs hs)

-- Where every sub's interval is at least a minute, the advertised interval is at least an hour, and no
-- longer than the interval of any of the key's subs that is refreshed hourly or less often.
pub update_interval_hours-le :
    (cfg : Config) (allowed : List Str)
    → All (λ s. pos minute ≤ℤ s.interval) cfg.subs
    → (1 ≤ update_interval_hours cfg allowed)
      × ((s : Sub)
          → Memᴰ s cfg.subs
          → contains allowed s.name ≡ true
          → hour ≤ pos_part s.interval
          → update_interval_hours cfg allowed * hour ≤ pos_part s.interval)
unfolding update_interval_hours
update_interval_hours-le cfg allowed h =
    let (unused, le) =
      min_interval-le allowed cfg.subs (pos 0) (All-IsPositive cfg.subs h) (inl refl) in
    (ground arith, λ s m ok long. let bound = le s m ok in ground arith)
