-- ===== src/Server.antt =====
-- internal/server/server.go: the HTTP handlers. A request is what the handlers read of it, a response
-- what they write, with the header names as the source spells them; logging is left out.
pub mod Formats
pub mod Answer
pub mod Laws
pub mod IpSource
pub mod ClientIp
use proxy_proxy.Prelude.{
  ℕ, zero, suc, ◌+◌, ◌*◌, ◌/◌, ◌^◌, List, [], ◌∷◌, ◌++◌, map, Option, none, some, Bool, true, false,
  not, ◌&&◌, ◌||◌,
}
use proxy_proxy.Prelude.Tests.{if◌then◌else◌, ltb, leb, nat_beq, ◌==◌, nat_eq}
use proxy_proxy.Prelude.Lists.{length, take, any}
use proxy_proxy.Prelude.Member.{contains}
use proxy_proxy.Prelude.Dict.{Dict, lookup, insert}
use proxy_proxy.Prelude.Int.{ℤ, pos, pos_part, ltb_ℤ, ℤ_eq}
use proxy_proxy.Prelude.Text.{Str, lit, is_empty, str_eq, to_lower, contains_str}
use proxy_proxy.Prelude.Text.Numeral.{itoa}
use proxy_proxy.Config.Types.{Sub, Key, Config, fetched_sub_names}
use proxy_proxy.Config.RelaySubs.{hour}
use proxy_proxy.Agg.Render.{Format, base64, raw, clash, Codec}
use proxy_proxy.Agg.Store.{Store, Status, user_info, statuses, render_now}

-- `url.Values.Get` and `http.Header.Get` give an empty text for what is missing.
pub record Request : Type 0 where
  pub query : Dict Str Str
  pub headers : Dict Str Str

pub data Body : Type 0 where
  not_found : Body
  no_body : Body
  bytes : Str → Body
  health : List Status → Body

pub record Response : Type 0 where
  pub status : ℕ
  pub headers : Dict Str Str
  pub body : Body

abbrev pub value : Str → Dict Str Str → Str
value name m = elim (lookup name m) [ none ↦ [] | some v ↦ v ]

-- The loop over the keys goes on after a match, so that the last one counts.
-- `subtle.ConstantTimeCompare` returns 1 for equal texts.
unfoldable pub last_match : List Key → Str → Option Key → Option Key
last_match [] key found = found
last_match (k ∷ ks) key found = last_match ks key (if k.key == key then some k else found)

unfoldable pub find_key : Config → Str → Option Key
unfolding last_match
find_key cfg key = if is_empty key then none else last_match cfg.keys key none

unfoldable pub mask_key : Str → Str
unfolding lit
mask_key k = if leb (length k) 8 then lit "***" else take 4 k ++ lit "***"

abbrev pub clash_uas : List Str
clash_uas = map lit ("clash" ∷ "mihomo" ∷ "stash" ∷ "verge" ∷ "meta" ∷ [])

-- Where the query names no format the user agent decides.
unfoldable pub negotiate_format : Request → Format × Bool
unfolding any contains_str to_lower lit
negotiate_format r =
    let full = value (lit "full") r.query == lit "1" || value (lit "full") r.query == lit "true" in
    let format = value (lit "format") r.query in
    if format == lit "clash" || format == lit "yaml"
    then (clash, full)
    else if format == lit "base64"
    then (base64, false)
    else if format == lit "raw" || format == lit "uri"
    then (raw, false)
    else let ua = to_lower (value (lit "User-Agent") r.headers) in
      if any (contains_str ua) clash_uas then (clash, full) else (base64, false)

-- The loop of `updateIntervalHours`; `min_iv` is 0 until a sub of the set is met.
unfoldable pub min_interval : List Str → List Sub → ℤ → ℤ
unfolding contains
min_interval allowed [] min_iv = min_iv
min_interval allowed (s ∷ subs) min_iv = min_interval allowed subs (
    if contains allowed s.name && (min_iv == pos 0 || ltb_ℤ s.interval min_iv)
    then s.interval
    else min_iv)

-- `int(minIv.Hours())` cuts the fraction off, and is at most 0 for a negative interval. The rounding of
-- `Hours` to a float is not modelled.
unfoldable pub update_interval_hours : Config → List Str → ℕ
unfolding min_interval
update_interval_hours cfg allowed =
    let h = pos_part (min_interval allowed cfg.subs (pos 0)) / hour in if ltb 1 h then h else 1

-- The quota is shown only where the key has exactly one sub.
unfoldable pub with_user_info : List Str → Store → Dict Str Str → Dict Str Str
unfolding user_info lit
with_user_info (name ∷ []) s h =
    let ui = user_info name s in
    if is_empty ui then h else insert (lit "Subscription-Userinfo") ui h
with_user_info _ s h = h

unfoldable pub with_content_type : Format → Dict Str Str → Dict Str Str
unfolding lit
with_content_type clash h =
    insert (lit "Content-Disposition") (lit "attachment; filename=\"proxy-proxy.yaml\"")
      (insert (lit "Content-Type") (lit "application/x-yaml; charset=utf-8") h)
with_content_type _ h =
    insert (lit "Content-Disposition") (lit "attachment; filename=\"proxy-proxy.txt\"")
      (insert (lit "Content-Type") (lit "text/plain; charset=utf-8") h)

unfoldable pub sub_headers : Config → Key → Format → Str → Store → Dict Str Str
unfolding update_interval_hours with_user_info with_content_type lit
sub_headers cfg k format etag s =
    let h =
      insert (lit "Profile-Update-Interval") (itoa (pos (update_interval_hours cfg k.resolved)))
        (insert (lit "Cache-Control") (lit "no-cache") (insert (lit "ETag") etag [])) in
    with_content_type format (with_user_info k.resolved s h)

-- What `handleSub` does with the rendered body and its ETag.
unfoldable pub respond : Config → Key → Request → Format → Store → Str × Str → Response
unfolding sub_headers lit
respond cfg k r format s rendered =
    let headers = sub_headers cfg k format rendered.1 s in
    let match' = value (lit "If-None-Match") r.headers in
    if not (is_empty match') && match' == rendered.1
    then record { status = 304; headers = headers; body = no_body }
    else record { status = 200; headers = headers; body = bytes rendered.0 }

-- The response and the store after it.
unfoldable pub handle_sub : Codec → Config → Request → Store → Response × Store
unfolding find_key negotiate_format respond render_now lit
handle_sub c cfg r s = elim (find_key cfg (value (lit "key") r.query)) [
  | none ↦ (record { status = 404; headers = []; body = not_found }, s)
  | some k ↦
      let (format, full) = negotiate_format r in
      let (rendered, s') = render_now c k.resolved format full s in
      (respond cfg k r format s' rendered, s')
]

unfoldable pub handle_healthz : Config → Store → Response
unfolding statuses fetched_sub_names lit
handle_healthz cfg s = record {
  status = 200;
  headers = (lit "Content-Type", lit "application/json; charset=utf-8") ∷ [];
  body = health (statuses (fetched_sub_names cfg) s);
}
