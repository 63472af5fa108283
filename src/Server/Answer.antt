-- ===== src/Server/Answer.antt =====
-- The answer to a key that is configured: its body, its ETag, and when the body is left out.
use proxy_proxy.Prelude.{
  List, [], ◌∷◌, Option, none, some, Bool, true, false, ◌≡◌, ◌≢◌, refl, sym, ap, ◌∙◌, inl, inr,
}
use proxy_proxy.Prelude.Tests.{
  if◌then◌else◌, ◌==◌, Bool-cases, eq_of_beq, beq_of_eq, beq_refl, nat_eq,
}
use proxy_proxy.Prelude.Dict.{Dict, lookup, insert, lookup-insert}
use proxy_proxy.Prelude.Int.{pos}
use proxy_proxy.Prelude.Text.{Str, lit, is_empty, str_eq, str_beq}
use proxy_proxy.Prelude.Text.Numeral.{itoa}
use proxy_proxy.Config.Types.{Key, Config}
use proxy_proxy.Agg.Render.{Format, base64, raw, clash, Codec, render, etag_of}
use proxy_proxy.Agg.Store.{Store, collect, user_info}
use proxy_proxy.Server.{
  Request, Response, no_body, bytes, value, negotiate_format, update_interval_hours, with_user_info,
  with_content_type, sub_headers, respond,
}
use mathlib.Core.Path.{subst}
use proxy_proxy.Server.Formats.{IsNegotiated, negotiate_format-IsNegotiated}

-- The client gets the rendering of the nodes that the store has for the key's subs, in the format that
-- it negotiated, under the ETag of the rendering; if it says that it has that, the body is left out.
pub record IsAnswer (c : Codec) (k : Key) (r : Request) (s : Store) (out : Response) : Type 0 where
  pub format : Format
  pub full : Bool
  pub negotiated : IsNegotiated r format full
  pub etag : value (lit "ETag") out.headers ≡ etag_of (render c (collect k.resolved s) format full)
  pub unchanged :
      value (lit "If-None-Match") r.headers ≡ value (lit "ETag") out.headers
      → (out.status ≡ 304) × (out.body ≡ no_body)
  pub changed :
      value (lit "If-None-Match") r.headers ≢ value (lit "ETag") out.headers
      → (out.status ≡ 200) × (out.body ≡ bytes (render c (collect k.resolved s) format full))
  pub typed_clash :
      format ≡ clash
      → value (lit "Content-Type") out.headers ≡ lit "application/x-yaml; charset=utf-8"
  pub typed_text :
      format ≢ clash → value (lit "Content-Type") out.headers ≡ lit "text/plain; charset=utf-8"

value-insert :
    (key name v : Str) (m : Dict Str Str)
    → value name (insert key v m) ≡ (if key == name then v else value name m)
value-insert key name v m =
    ap (λ (o : Option Str). elim o as (λ x. Str) [ none ↦ [] | some w ↦ w ])
      (lookup-insert key name v m)
    ∙ pick (key == name)
  where
    pick :
        (b : Bool)
        → (elim (if b then some v else lookup name m) as (λ x. Str) [ none ↦ [] | some w ↦ w ])
          ≡ (if b then v else value name m)
    pick true = refl
    pick false = refl

with_user_info-etag :
    (names : List Str) (s : Store) (h : Dict Str Str)
    → value (lit "ETag") (with_user_info names s h) ≡ value (lit "ETag") h
unfolding with_user_info str_beq lit
with_user_info-etag [] s h = refl
with_user_info-etag (n ∷ []) s h = elim (Bool-cases (is_empty (user_info n s))) [
  | inl no_info ↦ rw (no_info, with_user_info) refl
  | inr info ↦
      rw (info, with_user_info)
        (value-insert (lit "Subscription-Userinfo") (lit "ETag") (user_info n s) h)
]
with_user_info-etag (n ∷ (m ∷ names)) s h = refl

with_content_type-etag :
    (format : Format) (h : Dict Str Str)
    → value (lit "ETag") (with_content_type format h) ≡ value (lit "ETag") h
unfolding with_content_type str_beq lit
with_content_type-etag base64 h =
    value-insert (lit "Content-Disposition") (lit "ETag") _ _
    ∙ value-insert (lit "Content-Type") (lit "ETag") _ h
with_content_type-etag raw h =
    value-insert (lit "Content-Disposition") (lit "ETag") _ _
    ∙ value-insert (lit "Content-Type") (lit "ETag") _ h
with_content_type-etag clash h =
    value-insert (lit "Content-Disposition") (lit "ETag") _ _
    ∙ value-insert (lit "Content-Type") (lit "ETag") _ h

-- The headers before those that depend on the store and the format.
abbrev plain_headers : Config → Key → Str → Dict Str Str
plain_headers cfg k tag =
    insert (lit "Profile-Update-Interval") (itoa (pos (update_interval_hours cfg k.resolved)))
      (insert (lit "Cache-Control") (lit "no-cache") (insert (lit "ETag") tag []))

sub_headers-etag :
    (cfg : Config) (k : Key) (format : Format) (tag : Str) (s : Store)
    → value (lit "ETag") (sub_headers cfg k format tag s) ≡ tag
unfolding sub_headers str_beq lit lookup insert
sub_headers-etag cfg k format tag s =
    with_content_type-etag format _ ∙ (with_user_info-etag k.resolved s _ ∙ refl)

with_content_type-typed :
    (format : Format) (h : Dict Str Str)
    → (format ≡ clash
        → value (lit "Content-Type") (with_content_type format h)
          ≡ lit "application/x-yaml; charset=utf-8")
      × (format ≢ clash
          → value (lit "Content-Type") (with_content_type format h)
            ≡ lit "text/plain; charset=utf-8")
unfolding with_content_type str_beq lit
with_content_type-typed base64 h = (
  λ q. absurd (cc),
  λ _.
      value-insert (lit "Content-Disposition") (lit "Content-Type") _ _
      ∙ value-insert (lit "Content-Type") (lit "Content-Type") _ h,
)
with_content_type-typed raw h = (
  λ q. absurd (cc),
  λ _.
      value-insert (lit "Content-Disposition") (lit "Content-Type") _ _
      ∙ value-insert (lit "Content-Type") (lit "Content-Type") _ h,
)
with_content_type-typed clash h = (
  λ _.
      value-insert (lit "Content-Disposition") (lit "Content-Type") _ _
      ∙ value-insert (lit "Content-Type") (lit "Content-Type") _ h,
  λ ne. absurd (ne refl),
)

sub_headers-typed :
    (cfg : Config) (k : Key) (format : Format) (tag : Str) (s : Store)
    → let h = sub_headers cfg k format tag s in
      (format ≡ clash → value (lit "Content-Type") h ≡ lit "application/x-yaml; charset=utf-8")
      × (format ≢ clash → value (lit "Content-Type") h ≡ lit "text/plain; charset=utf-8")
unfolding sub_headers
sub_headers-typed cfg k format tag s = with_content_type-typed format _

etag_of-full : (body : Str) → is_empty (etag_of body) ≡ false
unfolding etag_of
etag_of-full body = refl

module _ (cfg : Config) (k : Key) (r : Request) (format : Format) (s : Store) (body tag : Str) where
  respond-unchanged :
      is_empty tag ≡ false
      → value (lit "If-None-Match") r.headers ≡ tag
      → respond cfg k r format s (body, tag)
        ≡ record { status = 304; headers = sub_headers cfg k format tag s; body = no_body }
  unfolding respond
  respond-unchanged full is = simp (is, full, beq_refl tag, respond) refl

  respond-changed :
      value (lit "If-None-Match") r.headers ≢ tag
      → respond cfg k r format s (body, tag)
        ≡ record { status = 200; headers = sub_headers cfg k format tag s; body = bytes body }
  unfolding respond
  respond-changed ne = elim (Bool-cases (value (lit "If-None-Match") r.headers == tag)) [
    | inl same ↦ absurd (ne (eq_of_beq _ tag same))
    | inr other ↦ elim (Bool-cases (is_empty (value (lit "If-None-Match") r.headers))) [
      | inl nothing ↦ simp (nothing, other, respond) refl
      | inr something ↦ simp (something, other, respond) refl
    ]
  ]

pub respond-IsAnswer :
    (c : Codec) (cfg : Config) (k : Key) (r : Request) (s s' : Store)
    → let (format, full) = negotiate_format r in
      let body = render c (collect k.resolved s) format full in
      IsAnswer c k r s (respond cfg k r format s' (body, etag_of body))
respond-IsAnswer c cfg k r s s' =
    let (format, full) = negotiate_format r in
    let body = render c (collect k.resolved s) format full in
    let tag = etag_of body in
    let tagged = sub_headers-etag cfg k format tag s' in
    let (yaml, plain) = sub_headers-typed cfg k format tag s' in
    let asked = value (lit "If-None-Match") r.headers in
    elim (Bool-cases (asked == tag)) [
      | inl same ↦
          let is = eq_of_beq asked tag same in
          subst (IsAnswer c k r s)
            (sym (respond-unchanged cfg k r format s' body tag (etag_of-full body) is))
            (record {
              format = format;
              full = full;
              negotiated = negotiate_format-IsNegotiated r;
              etag = tagged;
              unchanged = λ _. (refl, refl);
              changed = λ ne. absurd (ne (is ∙ sym tagged));
              typed_clash = yaml;
              typed_text = plain;
            })
      | inr other ↦
          let ne : asked ≢ tag = λ q. let bad = beq_of_eq asked tag q in cc in
          subst (IsAnswer c k r s) (sym (respond-changed cfg k r format s' body tag ne)) (record {
            format = format;
            full = full;
            negotiated = negotiate_format-IsNegotiated r;
            etag = tagged;
            unchanged = λ q. absurd (ne (q ∙ tagged));
            changed = λ _. (refl, refl);
            typed_clash = yaml;
            typed_text = plain;
          })
    ]
