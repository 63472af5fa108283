-- ===== src/Agg/Refresh/Laws.antt =====
-- A failed attempt leaves the snapshot as it is, and the waits stay between a minute and the interval.
use proxy_proxy.Prelude.{◌^◌, ◌<◌, List, [], ◌∷◌, some, Bool, ◌≡◌, refl, inl, inr, arith}
use proxy_proxy.Prelude.Tests.{Option-cases, Result-cases}
use proxy_proxy.Prelude.Member.{All}
use proxy_proxy.Prelude.Int.{ℤ, pos, negsuc, pos_part, ◌≤ℤ◌}
use proxy_proxy.Prelude.Text.{Str, str_eq}
use proxy_proxy.Config.Types.{Sub}
use proxy_proxy.Config.RelaySubs.{minute}
use proxy_proxy.Agg.Store.{Store, collect, set_error}
use proxy_proxy.Agg.Store.Coherence.{collect-SameNodes, set_error-SameNodes}
use proxy_proxy.Agg.Refresh.{
  Outside, Reply, metadata_of, store_reply, BodyMetadata, store_body, fetch_http, fetch_file, fetch,
  double, schedule, round, waits_from, waits, read_limited, request_headers, read_file_subscription,
}

store_body-kept :
    (o : Outside) (sub : Sub) (body : Str) (m : BodyMetadata) (s : Store) (e : Str)
    → (store_body o sub body m s).0 ≡ some e
    → (store_body o sub body m s).1 ≡ s
unfolding store_body
store_body-kept o sub body m s e h = ground arith

store_reply-kept :
    (o : Outside) (sub : Sub) (resp : Reply) (s : Store) (e : Str)
    → (store_reply o sub resp s).0 ≡ some e
    → (store_reply o sub resp s).1 ≡ s
unfolding store_reply
store_reply-kept o sub resp s e h = elim (Result-cases (read_limited resp.body)) [
  | inr (f, failed) ↦
      rw (failed, store_reply) (let h' = rw (failed, store_reply) at h in ground arith)
  | inl (body, got) ↦
      let body_kept = store_body-kept o sub body (metadata_of resp) s e in
      rw (got, store_reply) (let h' = rw (got, store_reply) at h in ground (arith, body_kept))
]

fetch_http-kept :
    (o : Outside) (ua : Str) (sub : Sub) (url : Str) (s : Store) (e : Str)
    → (fetch_http o ua sub url s).0 ≡ some e
    → (fetch_http o ua sub url s).1 ≡ s
unfolding fetch_http
fetch_http-kept o ua sub url s e h =
    elim (Result-cases (o.get url (request_headers ua sub.name s))) [
      | inr (f, failed) ↦ rw (failed, fetch_http) refl
      | inl (resp, got) ↦
          rw (got, fetch_http) (store_reply-kept o sub resp s e (rw (got, fetch_http) at h))
    ]

fetch_file-kept :
    (o : Outside) (sub : Sub) (path : Str) (s : Store) (e : Str)
    → (fetch_file o sub path s).0 ≡ some e
    → (fetch_file o sub path s).1 ≡ s
unfolding fetch_file
fetch_file-kept o sub path s e h = elim (Result-cases (read_file_subscription o path)) [
  | inr (f, failed) ↦ rw (failed, fetch_file) refl
  | inl (body, got) ↦
      rw (got, fetch_file) (store_body-kept o sub body _ s e (rw (got, fetch_file) at h))
]

fetch-kept :
    (o : Outside) (ua : Str) (sub : Sub) (s : Store) (e : Str)
    → (fetch o ua sub s).0 ≡ some e
    → (fetch o ua sub s).1 ≡ s
unfolding fetch
fetch-kept o ua sub s e h =
    ground (arith, fetch_http-kept o ua sub sub.url s e, fetch_file-kept o sub sub.file s e)

schedule-bound :
    (interval b : ℤ) (failed : Bool)
    → pos minute ≤ℤ interval
    → pos_part interval < 2 ^ 62
    → (pos minute ≤ℤ b) × (b ≤ℤ interval)
    → let r = schedule interval failed b in
      ((pos minute ≤ℤ r.0) × (r.0 ≤ℤ interval)) × ((pos minute ≤ℤ r.1) × (r.1 ≤ℤ interval))
unfolding schedule double
schedule-bound interval (pos b) failed lo hi h = ground arith
schedule-bound interval (negsuc b) failed lo hi h = absurd (omega arith)

-- While an attempt fails, the nodes of every sub stay what they are, and so do the generation and the
-- rendered payloads.
pub round-kept :
    (o : Outside) (ua : Str) (sub : Sub) (backoff : ℤ) (s : Store) (e : Str) (subs : List Str)
    → (fetch o ua sub s).0 ≡ some e
    → let s' = (round o ua sub backoff s).0 in
      (collect subs s' ≡ collect subs s) × (s'.gen ≡ s.gen) × (s'.cache ≡ s.cache)
unfolding round set_error
round-kept o ua sub backoff s e subs h =
    let same = fetch-kept o ua sub s e h in
    elim (Option-cases o.ctx_end) [
      | inr (c, cancelled) ↦ rw (h, cancelled, same, round) (refl, refl, refl)
      | inl going ↦
          rw (h, going, same, round)
            (collect-SameNodes subs _ s (set_error-SameNodes sub.name e s), refl, refl)
    ]

waits_from-bound :
    (interval b : ℤ) (outcomes : List Bool)
    → pos minute ≤ℤ interval
    → pos_part interval < 2 ^ 62
    → (pos minute ≤ℤ b) × (b ≤ℤ interval)
    → All (λ w. (pos minute ≤ℤ w) × (w ≤ℤ interval)) (waits_from interval b outcomes)
unfolding waits_from
waits_from-bound interval b [] lo hi h = tt
waits_from-bound interval b (failed ∷ more) lo hi h =
    let (wait, next) = schedule-bound interval b failed lo hi h in
    (wait, waits_from-bound interval (schedule interval failed b).1 more lo hi next)

-- For an interval of at least a minute and less than 2^62 nanoseconds, whichever attempts fail, every
-- wait is at least a minute and at most the interval.
pub waits-bound :
    (interval : ℤ) (outcomes : List Bool)
    → pos minute ≤ℤ interval
    → pos_part interval < 2 ^ 62
    → All (λ w. (pos minute ≤ℤ w) × (w ≤ℤ interval)) (waits interval outcomes)
unfolding waits
waits-bound interval outcomes lo hi =
    waits_from-bound interval (pos minute) outcomes lo hi (omega arith, lo)
