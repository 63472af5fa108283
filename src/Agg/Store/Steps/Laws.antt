-- ===== src/Agg/Store/Steps/Laws.antt =====
-- The answer to a request after any sequence of events.
use proxy_proxy.Prelude.{ℕ, suc, ◌+◌, ◌^◌, ◌<◌, List, [], ◌∷◌, Bool, ◌≡◌, refl, inl, inr, ap, arith}
use proxy_proxy.Prelude.Tests.{nat_eq}
use proxy_proxy.Prelude.Lists.{length}
use proxy_proxy.Prelude.Dict.{lookup}
use proxy_proxy.Prelude.Member.{All}
use proxy_proxy.Prelude.Text.{Str, str_eq}
use proxy_proxy.Agg.Render.{Format, Codec, render, etag_of}
use proxy_proxy.Agg.Store.{collect, render_begin}
use proxy_proxy.Agg.Store.CacheKey.{IsPlainName}
use proxy_proxy.Agg.Store.Steps.{Event, World, new_world, step, run, payload, IsPlain}
use proxy_proxy.Agg.Store.Steps.Sound.{IsSound, step-IsSound, render_begin-cases}

run-IsSound :
    (k : Codec) (n : ℕ) (es : List Event) (w : World)
    → length es + n < 2 ^ 64
    → All IsPlain es
    → IsSound k n w
    → (m : ℕ) × IsSound k m (run k es w)
unfolding run
run-IsSound k n [] w b p h = (n, h)
run-IsSound k n (e ∷ es) w b (p, ps) h =
    run-IsSound k (suc n) es (step k e w) (omega arith) ps (step-IsSound k n e w (omega arith) p h)

new_world-IsSound : (k : Codec) → IsSound k 0 new_world
unfolding lookup
new_world-IsSound k = (omega arith, λ subs format full e plain found. absurd (cc), tt)

-- After any sequence of fewer than 2^64 events, in which refreshes, pruning and the two sections of
-- any number of requests come in any order, a request for subs whose names are not empty and hold no
-- NUL byte is answered with the rendering of the nodes the store has at that moment, whether or not
-- the answer comes from the cache, and with the hash of that rendering as its ETag.
pub payload-run :
    (k : Codec) (es : List Event) (subs : List Str) (format : Format) (full : Bool)
    → length es < 2 ^ 64
    → All IsPlain es
    → All IsPlainName subs
    → let s = (run k es new_world).store in
      let body = render k (collect subs s) format full in
      payload k format full (render_begin subs format full s) ≡ (body, etag_of body)
unfolding payload
payload-run k es subs format full b p plain =
    let w = run k es new_world in
    let (m, (le, coh, waiting)) =
      run-IsSound k 0 es new_world (omega arith) p (new_world-IsSound k) in
    elim (render_begin-cases subs format full w.store) [
      | inl (e, found, now, eq) ↦
          let (body, etag) = (coh subs format full e plain found).1 now in
          rw (eq, payload) (let q = ap etag_of body in cc)
      | inr eq ↦ rw (eq, payload) refl
    ]
