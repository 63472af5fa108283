-- ===== src/Config/Validate/Subs.antt =====
-- What `validateSubs` accepts, and what it makes of it.
use proxy_proxy.Prelude.{
  ℕ, suc, List, [], ◌∷◌, ◌++◌, none, some, true, false, ◌||◌, ◌≡◌, refl, sym, ap, ◌∙◌, inl, inr,
  arith,
}
use proxy_proxy.Prelude.Tests.{
  if◌then◌else◌, Bool-cases, Option-cases, Result, ok, err, bind-eq-ok, ok_inj, some_inj,
}
use proxy_proxy.Prelude.Member.{contains, IsDistinct, IsDistinct-concat}
use proxy_proxy.Prelude.Int.{ℤ, pos, negsuc, ◌≤ℤ◌}
use proxy_proxy.Prelude.Fresh.{free_name_total}
use proxy_proxy.Prelude.Text.{Str, lit, is_empty, str_eq, str_beq}
use proxy_proxy.Node.Names.Laws.{suffix_inj}
use proxy_proxy.Config.Types.{Sub}
use proxy_proxy.Config.Source.{
  Platform, ConfigError, SubSource, parse_sub_source, default_sub_name, duplicate_name,
}
use proxy_proxy.Config.Validate.Sources.{IsSourceOf, parse_sub_source-IsSourceOf}
use proxy_proxy.Config.RelaySubs.{dashed, minute}
use proxy_proxy.Config.RelaySubs.Lists.{names_of}
use proxy_proxy.Config.Validate.{
  free_sub_name, sub_types, sub_type, sub_interval, validate_sub, validate_subs_from, validate_subs,
}
use mathlib.Core.List.{append_assoc, append-nil}

-- A sub as refreshers expect it.
abbrev pub IsValidSub : Sub → Type 0
IsValidSub s =
    (contains sub_types s.typ ≡ true)
    × (pos minute ≤ℤ s.interval)
    × ((is_empty s.url || is_empty s.file) ≡ true)

-- Nothing that the file says is replaced.
abbrev pub IsValidated : Platform → Sub → Sub → Type 0
IsValidated p s t =
    IsValidSub t
    × IsSourceOf p s t
    × (is_empty s.name ≡ false → t.name ≡ s.name)
    × (is_empty s.typ ≡ false → t.typ ≡ s.typ)
    × (pos minute ≤ℤ s.interval → t.interval ≡ s.interval)

abbrev pub Pairwise : {A B : Type 0} → (A → B → Type 0) → List A → List B → Type 0
Pairwise R [] [] = Unit
Pairwise R (x ∷ xs) (y ∷ ys) = R x y × Pairwise R xs ys
Pairwise R _ _ = ⊥

pub free_sub_name-fresh :
    (seen : List Str) (base : Str) → contains seen (free_sub_name seen base) ≡ false
unfolding free_sub_name
free_sub_name-fresh seen base =
    let (s, found, fresh) = free_name_total seen (dashed base) base (suffix_inj base b'-') in
    rw (found, free_sub_name) fresh

sub_interval-bound :
    (i : ℤ) → (pos minute ≤ℤ sub_interval i) × (pos minute ≤ℤ i → sub_interval i ≡ i)
unfolding sub_interval
sub_interval-bound (pos n) = ground arith
sub_interval-bound (negsuc n) = ground arith

sub_type-valid :
    (typ t : Str)
    → sub_type typ ≡ some t
    → (contains sub_types t ≡ true) × (is_empty typ ≡ false → t ≡ typ)
unfolding sub_type str_beq
sub_type-valid typ t h = elim (Bool-cases (is_empty typ)) [
  | inl empty ↦
      let same : some (lit "auto") ≡ some t = rw (empty, sub_type) at h in
      (rw (← (some_inj same)) refl, λ full. absurd (cc))
  | inr full ↦ elim (Bool-cases (contains sub_types typ)) [
    | inl known ↦
        let same : some typ ≡ some t = rw (full, known, sub_type) at h in
        (rw (← (some_inj same)) known, λ f. sym (some_inj same))
    | inr unknown ↦ let same : none ≡ some t = rw (full, unknown, sub_type) at h in absurd (cc)
  ]
]

parse_sub_source-one :
    (p : Platform) (s : Sub) (index : ℕ) (r : SubSource × Sub)
    → parse_sub_source p s index ≡ ok r
    → (is_empty r.1.url || is_empty r.1.file) ≡ true
unfolding parse_sub_source
parse_sub_source-one p s index r h = ground arith

validate_sub-ok :
    (p : Platform) (s : Sub) (index : ℕ) (seen : List Str) (r : Sub × List Str)
    → validate_sub p s index seen ≡ ok r
    → IsValidated p s r.0 × (r.1 ≡ seen ++ r.0.name ∷ []) × (contains seen r.0.name ≡ false)
unfolding validate_sub
validate_sub-ok p s index seen r h =
    let (source, parsed, rest) = bind-eq-ok (parse_sub_source p s index) _ h in
    elim (Option-cases (sub_type s.typ)) [
      | inl bad ↦ absurd (err-ne-ok (rw bad at rest))
      | inr (typ, good) ↦
          named source typ
            (if is_empty s.name then free_sub_name seen (default_sub_name p source.0) else s.name)
            (λ full. rw full refl) (parse_sub_source-IsSourceOf p s index source parsed)
            (parse_sub_source-one p s index source parsed) (sub_type-valid s.typ typ good)
            (rw good at rest)
    ]
  where
    err-ne-ok : {e : ConfigError} → ¬ (◌≡◌ {A = Result ConfigError (Sub × List Str)} (err e) (ok r))
    err-ne-ok q = cc

    named :
        (source : SubSource × Sub) (typ name : Str)
        → (is_empty s.name ≡ false → name ≡ s.name)
        → IsSourceOf p s source.1
        → (is_empty source.1.url || is_empty source.1.file) ≡ true
        → (contains sub_types typ ≡ true) × (is_empty s.typ ≡ false → typ ≡ s.typ)
        → (if contains seen name
            then err (duplicate_name index name)
            else ok (
              record source.1 { typ = typ; interval = sub_interval s.interval; name = name },
              seen ++ name ∷ [],
            ))
          ≡ ok r
        → IsValidated p s r.0 × (r.1 ≡ seen ++ r.0.name ∷ []) × (contains seen r.0.name ≡ false)
    named source typ name kept from one (known, same) q = elim (Bool-cases (contains seen name)) [
      | inl old ↦ absurd (err-ne-ok (rw old at q))
      | inr new ↦
          let (bound, id) = sub_interval-bound s.interval in
          rw (← (ok_inj (rw new at q))) (((known, bound, one), from, kept, same, id), refl, new)
    ]

validate_subs_from-ok :
    (p : Platform) (index : ℕ) (subs : List Sub) (seen : List Str) (r : List Sub × List Str)
    → IsDistinct seen
    → validate_subs_from p index subs seen ≡ ok r
    → Pairwise (IsValidated p) subs r.0 × (r.1 ≡ seen ++ names_of r.0) × IsDistinct r.1
unfolding validate_subs_from
validate_subs_from-ok p index [] seen r d h = rw (← (ok_inj h)) (tt, sym (append-nil seen), d)
validate_subs_from-ok p index (s ∷ subs) seen r d h =
    let (head, first, h') = bind-eq-ok (validate_sub p s index seen) _ h in
    let (rest, others, h'') = bind-eq-ok (validate_subs_from p (suc index) subs head.1) _ h' in
    let (valid, grown, fresh) = validate_sub-ok p s index seen head first in
    let d' : IsDistinct head.1 = rw grown (IsDistinct-concat seen head.0.name d fresh) in
    let (all, final, d'') = validate_subs_from-ok p (suc index) subs head.1 rest d' others in
    rw (← (ok_inj h'')) (
      (valid, all),
      final ∙ (ap (λ x. x ++ names_of rest.0) grown ∙ append_assoc seen (head.0.name ∷ []) _),
      d'',
    )

-- The subs that `validateSubs` accepts: each keeps the name, the type and the interval that the file
-- gives it (an interval of at least a minute) and is read from where the file says, from its path, its
-- http or https URL, or the path that its file URL stands for; it has one of the four types and an interval of at least
-- a minute, is not read from two places, and no two have one name. The names seen are those of the
-- subs.
pub validate_subs-ok :
    (p : Platform) (subs : List Sub) (r : List Sub × List Str)
    → validate_subs p subs ≡ ok r
    → Pairwise (IsValidated p) subs r.0 × (r.1 ≡ names_of r.0) × IsDistinct (names_of r.0)
unfolding validate_subs
validate_subs-ok p subs r h =
    let (all, final, d) = validate_subs_from-ok p 0 subs [] r tt h in (all, final, rw (← final) d)
