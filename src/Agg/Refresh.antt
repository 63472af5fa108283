-- ===== src/Agg/Refresh.antt =====
-- internal/agg/refresh.go: how a refresher fetches one subscription, and how long it waits. Logging is
-- left out.
pub mod Laws
use proxy_proxy.Prelude.{
  ℕ, zero, suc, ◌+◌, ◌-◌, ◌*◌, ◌%◌, ◌^◌, List, [], ◌∷◌, ◌++◌, Option, none, some, Bool, true, false,
  not, ◌&&◌, ◌||◌,
}
use proxy_proxy.Prelude.Tests.{if◌then◌else◌, ltb, leb, nat_beq, ◌==◌, Result, ok, err, ◌>>=◌}
use proxy_proxy.Prelude.Lists.{length}
use proxy_proxy.Prelude.Dict.{Dict, lookup, insert}
use proxy_proxy.Prelude.Int.{ℤ, pos, negsuc, min_ℤ}
use proxy_proxy.Prelude.Text.{Str, lit, is_empty, str_eq, to_lower}
use proxy_proxy.Node.Types.{Node}
use proxy_proxy.Config.Types.{Sub}
use proxy_proxy.Config.RelaySubs.{minute}
use proxy_proxy.Agg.Store.{Store, set_nodes, set_error, touch, validators}

-- What a reader gives before its end, which is an error or not.
pub record Reader : Type 0 where
  pub content : Str
  pub fault : Option Str

pub record Reply : Type 0 where
  pub status_code : ℕ
  pub status : Str
  pub headers : Dict Str Str
  pub body : Reader

-- The world around one attempt. `scheme` is `url.Parse` with the scheme of its result, `get` is
-- `http.NewRequestWithContext` with `Client.Do`, `open_file` is `os.Open`, `quote` is the verb `%q`, and
-- `parse` is `node.ParseContent` with the nodes of its result; errors are their texts. `ctx_before`,
-- `ctx_after` and `ctx_end` are the context's error at the three places where it is asked for.
pub record Outside : Type 0 where
  pub scheme : Str → Result Str Str
  pub get : Str → Dict Str Str → Result Str Reply
  pub open_file : Str → Result Str Reader
  pub quote : Str → Str
  pub parse : Str → Str → Str → Result Str (List Node)
  pub ctx_before : Option Str
  pub ctx_after : Option Str
  pub ctx_end : Option Str
  pub now : ℕ

pub record BodyMetadata : Type 0 where
  pub etag : Str
  pub last_modified : Str
  pub user_info : Str

abbrev pub max_body_size : ℕ
max_body_size = 33554432

-- A reader of one byte more than the limit: an error behind it is not met.
unfoldable pub read_limited : Reader → Result Str Str
unfolding lit
read_limited r =
    if ltb max_body_size (length r.content)
    then err (lit "body exceeds 33554432 bytes")
    else elim r.fault [ some e ↦ err e | none ↦ ok r.content ]

-- An attempt's error, if it has one, and the store after it.
abbrev pub Outcome : Type 0
Outcome = Option Str × Store

unfoldable pub store_body : Outside → Sub → Str → BodyMetadata → Store → Outcome
store_body o sub body m s = elim (o.parse sub.name body sub.typ) [
  | err e ↦ (some e, s)
  | ok nodes ↦ (none, set_nodes sub.name nodes m.etag m.last_modified m.user_info o.now s)
]

abbrev pub header : Str → Dict Str Str → Str
header name m = elim (lookup name m) [ none ↦ [] | some v ↦ v ]

-- The request's headers: the conditional ones only where the store has a validator.
unfoldable pub request_headers : Str → Str → Store → Dict Str Str
unfolding validators lit
request_headers user_agent name s =
    let (etag, last_mod) = validators name s in
    let h = insert (lit "User-Agent") user_agent [] in
    let h' = if is_empty etag then h else insert (lit "If-None-Match") etag h in
    if is_empty last_mod then h' else insert (lit "If-Modified-Since") last_mod h'

abbrev pub metadata_of : Reply → BodyMetadata
metadata_of resp = record {
  etag = header (lit "Etag") resp.headers;
  last_modified = header (lit "Last-Modified") resp.headers;
  user_info = header (lit "Subscription-Userinfo") resp.headers;
}

-- What `fetchHTTP` does with a reply.
unfoldable pub store_reply : Outside → Sub → Reply → Store → Outcome
unfolding read_limited store_body lit
store_reply o sub resp s =
    if nat_beq resp.status_code 304
    then (none, touch sub.name o.now s)
    else if ltb resp.status_code 200 || ltb 299 resp.status_code
    then (some (lit "upstream status " ++ resp.status), s)
    else elim (read_limited resp.body) [
      | err e ↦ (some e, s)
      | ok body ↦ store_body o sub body (metadata_of resp) s
    ]

unfoldable pub fetch_http : Outside → Str → Sub → Str → Store → Outcome
unfolding request_headers store_reply
fetch_http o user_agent sub raw_url s =
    elim (o.get raw_url (request_headers user_agent sub.name s)) [
      | err e ↦ (some e, s)
      | ok resp ↦ store_reply o sub resp s
    ]

unfoldable pub read_file_subscription : Outside → Str → Result Str Str
unfolding read_limited lit
read_file_subscription o path = elim o.ctx_before [
  | some e ↦ err e
  | none ↦ elim (o.open_file path) [
    | err e ↦ err (lit "open file subscription " ++ (o.quote path ++ (lit ": " ++ e)))
    | ok f ↦ elim (read_limited f) [
      | err e ↦ err (lit "read file subscription " ++ (o.quote path ++ (lit ": " ++ e)))
      | ok body ↦ elim o.ctx_after [ some e ↦ err e | none ↦ ok body ]
    ]
  ]
]

unfoldable pub fetch_file : Outside → Sub → Str → Store → Outcome
unfolding read_file_subscription store_body
fetch_file o sub path s = elim (read_file_subscription o path) [
  | err e ↦ (some e, s)
  | ok body ↦ store_body o sub body (record { etag = []; last_modified = []; user_info = [] }) s
]

unfoldable pub fetch : Outside → Str → Sub → Store → Outcome
unfolding fetch_http fetch_file to_lower lit
fetch o user_agent sub s =
    if not (is_empty sub.file) && not (is_empty sub.url)
    then (some (lit "subscription url and file cannot both be set"), s)
    else if not (is_empty sub.file)
    then fetch_file o sub sub.file s
    else if is_empty sub.url
    then (some (lit "subscription url or file is required"), s)
    else elim (o.scheme sub.url) [
      | err e ↦ (some (lit "parse subscription URL: " ++ e), s)
      | ok scheme ↦
          if to_lower scheme == lit "http" || to_lower scheme == lit "https"
          then fetch_http o user_agent sub sub.url s
          else (some (lit "unsupported subscription URL scheme " ++ o.quote scheme), s)
    ]

-- `2 * d` for a duration, an `int64` that wraps.
unfoldable pub double : ℤ → ℤ
double (pos n) = let m = 2 * n % 2 ^ 64 in if ltb m (2 ^ 63) then pos m else negsuc (2 ^ 64 - 1 - m)
double (negsuc n) =
    let m = (2 * n + 1) % 2 ^ 64 in if ltb m (2 ^ 63) then negsuc m else pos (2 ^ 64 - 1 - m)

-- How long to wait after an attempt, and the next backoff.
unfoldable pub schedule : ℤ → Bool → ℤ → ℤ × ℤ
unfolding double
schedule interval failed backoff =
    if failed then (backoff, min_ℤ (double backoff) interval) else (interval, pos minute)

-- One round of `Run`: the store, and the wait with the next backoff, or `none` where the loop ends.
unfoldable pub round : Outside → Str → Sub → ℤ → Store → Store × Option (ℤ × ℤ)
unfolding fetch schedule
round o user_agent sub backoff s =
    let (e, s') = fetch o user_agent sub s in
    elim e [
      | none ↦ (s', some (schedule sub.interval false backoff))
      | some text ↦ elim o.ctx_end [
        | some cancelled ↦ (s', none)
        | none ↦ (set_error sub.name text s', some (schedule sub.interval true backoff))
      ]
    ]

-- The waits of `Run` for a sub, by whether the attempts fail.
unfoldable pub waits_from : ℤ → ℤ → List Bool → List ℤ
unfolding schedule
waits_from interval backoff [] = []
waits_from interval backoff (failed ∷ more) =
    let (wait, next) = schedule interval failed backoff in wait ∷ waits_from interval next more

unfoldable pub waits : ℤ → List Bool → List ℤ
unfolding waits_from
waits interval outcomes = waits_from interval (pos minute) outcomes
