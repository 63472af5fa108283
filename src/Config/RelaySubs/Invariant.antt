-- ===== src/Config/RelaySubs/Invariant.antt =====
-- The invariant of the walk over the upstreams, and what `shorten` and an append keep of it.
use proxy_proxy.Prelude.{
  ℕ, zero, suc, List, [], ◌∷◌, ◌++◌, none, some, Bool, true, false, ◌||◌, ◌≡◌, ◌≢◌, ◌∙◌, Memᴰ, inl,
  inr, arith,
}
use proxy_proxy.Prelude.Tests.{Bool-cases, some_inj, ◌==◌, eq_of_beq}
use proxy_proxy.Prelude.Lists.{length, get_elem?}
use proxy_proxy.Prelude.Dict.{lookup, insert, lookup-insert}
use proxy_proxy.Prelude.Member.{All, contains, contains-append, IsDistinct, IsDistinct-concat}
use proxy_proxy.Prelude.Int.{ℤ, pos, negsuc, min_ℤ, ◌≤ℤ◌}
use proxy_proxy.Prelude.Fresh.{free_name_total}
use proxy_proxy.Prelude.Text.{Str, lit, str_eq, str_beq_iff}
use proxy_proxy.Node.Names.Laws.{suffix_inj}
use proxy_proxy.Config.Types.{Sub, Upstream, is_sub_url}
use proxy_proxy.Config.Source.{Platform, Url}
use proxy_proxy.Config.RelaySubs.{
  minute, hour, dashed, Resolving, relay_interval, shorten, relay_sub_name,
}
use proxy_proxy.Config.RelaySubs.Lists.{
  names_of, urls_of, Shortens, names_of-shorten, urls_of-shorten, get_elem?-shorten,
  get_elem?-append, get_elem?-last, map-append,
}
use mathlib.Core.List.{append_assoc}

-- No relay sub is refreshed more than once a minute.
abbrev pub AreSlow : List Sub → Type 0
AreSlow subs = All (λ s. pos minute ≤ℤ s.interval) subs

-- What holds of the walk's state; `names` are the names of the subs of the configuration.
pub record IsResolving (names : List Str) (st : Resolving) : Type 0 where
  pub seen_all : st.seen ≡ names ++ names_of st.relay_subs
  pub distinct_names : IsDistinct st.seen
  pub distinct_urls : IsDistinct (urls_of st.relay_subs)
  pub indexed :
      (url : Str) (k : ℕ)
      → lookup url st.by_url ≡ some k
      → (s : Sub) × (get_elem? st.relay_subs k ≡ some s) × (s.url ≡ url)
  pub complete :
      (url : Str) → lookup url st.by_url ≡ none → contains (urls_of st.relay_subs) url ≡ false
  pub at_least_minute : AreSlow st.relay_subs

-- The subs are kept, with intervals that are no longer.
abbrev pub Extends : List Sub → List Sub → Type 0
Extends subs subs' = (s : Sub) → Memᴰ s subs → (t : Sub) × Memᴰ t subs' × Shortens s t

pub Extends-trans : (a b c : List Sub) → Extends a b → Extends b c → Extends a c
Extends-trans a b c h k s m =
    let (t, n, (p, q, r)) = h s m in
    let (u, o, (p', q', r')) = k t n in (u, o, (p' ∙ p, q' ∙ q, omega arith))

-- At least as often as an upstream asks for: hourly where it asks for nothing, and every minute where
-- it asks for less than a minute.
abbrev pub IsFreshFor : ℤ → ℤ → Type 0
IsFreshFor asked i =
    (asked ≤ℤ pos 0 → i ≤ℤ pos hour)
    × (pos 1 ≤ℤ asked → asked ≤ℤ pos minute → i ≤ℤ pos minute)
    × (pos minute ≤ℤ asked → i ≤ℤ asked)

IsFreshFor-le : (asked i j : ℤ) → j ≤ℤ i → IsFreshFor asked i → IsFreshFor asked j
IsFreshFor-le asked i j le (none_asked, short, long) = (
  λ h. let b = none_asked h in omega arith,
  λ h k. let b = short h k in omega arith,
  λ h. let b = long h in omega arith,
)

pub relay_interval-bound :
    (asked : ℤ)
    → (pos minute ≤ℤ relay_interval asked)
      × ((i : ℤ) → i ≤ℤ relay_interval asked → IsFreshFor asked i)
unfolding relay_interval
relay_interval-bound (pos n) = ground arith
relay_interval-bound (negsuc n) = ground arith

-- The upstream has a relay sub for its URL, as fresh as it asks for.
abbrev pub IsServed : List Sub → Upstream → Type 0
IsServed subs up =
    (s : Sub) × Memᴰ s subs
    × (s.name ≡ up.sub_name)
    × (s.url ≡ up.sub)
    × IsFreshFor up.interval s.interval

pub IsServed-Extends :
    (a b : List Sub) (up : Upstream) → Extends a b → IsServed a up → IsServed b up
IsServed-Extends a b up h (s, m, n, u, i) =
    let (t, o, (p, q, r)) = h s m in
    (t, o, p ∙ n, q ∙ u, IsFreshFor-le up.interval s.interval t.interval r i)

-- The name of an upstream's nodes: the sub that it names, or the relay sub of its URL.
abbrev pub IsResolved : Platform → List Sub → Upstream → Type 0
IsResolved p subs up =
    (is_sub_url up.sub ≡ false → up.sub ≢ [] → up.sub_name ≡ up.sub)
    × (is_sub_url up.sub ≡ true
        → (u : Url) → p.parse up.sub ≡ some u
        → u.hostname ≢ []
        → IsServed subs up)

pub relay_sub_name-fresh :
    (seen : List Str) (hostname : Str) → contains seen (relay_sub_name seen hostname) ≡ false
unfolding relay_sub_name
relay_sub_name-fresh seen hostname =
    let base = lit "relay:" ++ hostname in
    let (s, found, fresh) = free_name_total seen (dashed base) base (suffix_inj base b'-') in
    rw (found, relay_sub_name) fresh

shorten-AreSlow :
    (k : ℕ) (i : ℤ) (subs : List Sub) → pos minute ≤ℤ i → AreSlow subs → AreSlow (shorten k i subs)
unfolding shorten
shorten-AreSlow k i [] slow h = tt
shorten-AreSlow zero i (s ∷ subs) slow (h, hs) = (min_slow s.interval i h slow, hs)
  where
    min_slow : (a b : ℤ) → pos minute ≤ℤ a → pos minute ≤ℤ b → pos minute ≤ℤ min_ℤ a b
    min_slow a b p q = ground arith
shorten-AreSlow (suc k) i (s ∷ subs) slow (h, hs) = (h, shorten-AreSlow k i subs slow hs)

append-AreSlow :
    (subs : List Sub) (s : Sub) → AreSlow subs → pos minute ≤ℤ s.interval → AreSlow (subs ++ s ∷ [])
append-AreSlow [] s h slow = (slow, tt)
append-AreSlow (r ∷ subs) s (h, hs) slow = (h, append-AreSlow subs s hs slow)

pub shorten-IsResolving :
    (names : List Str) (k : ℕ) (i : ℤ) (st : Resolving)
    → pos minute ≤ℤ i
    → IsResolving names st
    → IsResolving names (record st { relay_subs = shorten k i st.relay_subs })
shorten-IsResolving names k i st slow h = record {
  seen_all = rw (names_of-shorten k i st.relay_subs) h.seen_all;
  distinct_names = h.distinct_names;
  distinct_urls = rw (urls_of-shorten k i st.relay_subs) h.distinct_urls;
  indexed = λ url j e.
      let (s, at_j, same) = h.indexed url j e in
      let (t, at_j', same') = get_elem?-shorten k j i st.relay_subs s at_j in
      (t, at_j', same' ∙ same);
  complete = λ url e. rw (urls_of-shorten k i st.relay_subs) (h.complete url e);
  at_least_minute = shorten-AreSlow k i st.relay_subs slow h.at_least_minute;
}

pub true-ne-false : true ≢ false
true-ne-false h = cc

some-ne-none : {n : ℕ} → some n ≢ none
some-ne-none h = cc

only : {b : Bool} (u v : Str) → b ≡ false → (u == v) ≡ false → (b || contains (u ∷ []) v) ≡ false
unfolding contains
only {b} u v h k = ground (arith, str_beq_iff u v, str_beq_iff v u)

pub append-IsResolving :
    (names : List Str) (s : Sub) (st : Resolving)
    → contains st.seen s.name ≡ false
    → lookup s.url st.by_url ≡ none
    → pos minute ≤ℤ s.interval
    → IsResolving names st
    → IsResolving names (record {
      seen = st.seen ++ s.name ∷ [];
      by_url = insert s.url (length st.relay_subs) st.by_url;
      relay_subs = st.relay_subs ++ s ∷ [];
    })
append-IsResolving names s st fresh new slow h = record {
  at_least_minute = append-AreSlow st.relay_subs s h.at_least_minute slow;
  seen_all =
      rw (h.seen_all, map-append (λ r. r.name) st.relay_subs s)
        (append_assoc names (names_of st.relay_subs) (s.name ∷ []));
  distinct_names = IsDistinct-concat st.seen s.name h.distinct_names fresh;
  distinct_urls =
      rw (map-append (λ r. r.url) st.relay_subs s)
        (IsDistinct-concat (urls_of st.relay_subs) s.url h.distinct_urls (h.complete s.url new));
  indexed = λ url j e. elim (Bool-cases (s.url == url)) [
    | inl same ↦
        let at_end : some (length st.relay_subs) ≡ some j =
          rw (lookup-insert s.url url (length st.relay_subs) st.by_url, same) at e in
        (s, rw (← (some_inj at_end)) (get_elem?-last st.relay_subs s), eq_of_beq s.url url same)
    | inr other ↦
        let before = rw (lookup-insert s.url url (length st.relay_subs) st.by_url, other) at e in
        let (t, at_j, same) = h.indexed url j before in
        (t, get_elem?-append st.relay_subs (s ∷ []) j t at_j, same)
  ];
  complete = λ url e. elim (Bool-cases (s.url == url)) [
    | inl same ↦
        absurd
          (some-ne-none (rw (lookup-insert s.url url (length st.relay_subs) st.by_url, same) at e))
    | inr other ↦
        let before = rw (lookup-insert s.url url (length st.relay_subs) st.by_url, other) at e in
        rw
          (
            map-append (λ r. r.url) st.relay_subs s,
            contains-append (urls_of st.relay_subs) (s.url ∷ []) url,
          )
          (only s.url url (h.complete url before) other)
  ];
}
