-- ===== src/Server/ClientIp/Hops.antt =====
-- The hops of X-Forwarded-For: values on the left add hops on the left.
use proxy_proxy.Prelude.{
  ℕ, suc, ◌+◌, ◌-◌, ◌≤◌, List, [], ◌∷◌, ◌++◌, false, ◌≡◌, refl, sym, ap, ◌∙◌, inl, inr, arith,
}
use proxy_proxy.Prelude.Tests.{Bool-cases, ◌==◌, nat_eq, beq_refl, ltb}
use proxy_proxy.Prelude.Lists.{length, length-append, get_elem?}
use proxy_proxy.Prelude.Dict.{Dict}
use proxy_proxy.Prelude.Text.{Str, lit, join}
use proxy_proxy.Server.ClientIp.{header_values, hops_of, hop_ip, resolve_xff_ip}
use proxy_proxy.Server.IpSource.{Netip, split_byte, xff_header}
use mathlib.Core.List.{append_assoc}

-- There is always a part.
split_byte-cons : (c : ℕ) (s : Str) → (p : Str) × (ps : List Str) × (split_byte c s ≡ p ∷ ps)
unfolding split_byte
split_byte-cons c [] = ([], [], refl)
split_byte-cons c (b ∷ s) =
    let (p, ps, q) = split_byte-cons c s in
    elim (Bool-cases (b == c)) [
      | inl same ↦ ([], split_byte c s, rw same refl)
      | inr other ↦ (b ∷ p, ps, rw (other, q) refl)
    ]

split_byte-append :
    (c : ℕ) (s t : Str) → split_byte c (s ++ c ∷ t) ≡ split_byte c s ++ split_byte c t
unfolding split_byte
split_byte-append c [] t = rw (beq_refl c) refl
split_byte-append c (b ∷ s) t =
    let (p, ps, q) = split_byte-cons c s in
    elim (Bool-cases (b == c)) [
      | inl same ↦ rw same (ap (◌∷◌ []) (split_byte-append c s t))
      | inr other ↦ rw (other, split_byte-append c s t, q) refl
    ]

join-append :
    (u : Str) (us : List Str) (v : Str) (vs : List Str)
    → join (lit ",") ((u ∷ us) ++ v ∷ vs)
      ≡ join (lit ",") (u ∷ us) ++ b',' ∷ join (lit ",") (v ∷ vs)
unfolding join lit
join-append u [] v vs = refl
join-append u (w ∷ us) v vs =
    rw (join-append w us v vs)
      (sym (append_assoc u (b',' ∷ join (b',' ∷ []) (w ∷ us)) (b',' ∷ join (b',' ∷ []) (v ∷ vs))))

-- The hops of more values are the hops of the first ones and those of the others.
pub hops_of-append :
    (u : Str) (us : List Str) (v : Str) (vs : List Str)
    → hops_of ((u ∷ us) ++ v ∷ vs) ≡ hops_of (u ∷ us) ++ hops_of (v ∷ vs)
unfolding hops_of
hops_of-append u us v vs =
    ap (split_byte b',') (join-append u us v vs)
    ∙ split_byte-append b',' (join (lit ",") (u ∷ us)) (join (lit ",") (v ∷ vs))

-- Positions from the right are the same in a longer list.
get_elem?-append :
    (xs ys : List Str) (i : ℕ) → get_elem? (xs ++ ys) (length xs + i) ≡ get_elem? ys i
get_elem?-append [] ys i = ap (get_elem? ys) (omega arith)
get_elem?-append (x ∷ xs) ys i =
    ap (get_elem? (x ∷ (xs ++ ys))) (eq (length xs) i) ∙ get_elem?-append xs ys i
  where
    eq : (n i : ℕ) → suc n + i ≡ suc (n + i)
    eq n i = omega arith

from_right :
    (xs ys : List Str) (n : ℕ)
    → n ≤ length ys
    → get_elem? (xs ++ ys) (length (xs ++ ys) - n) ≡ get_elem? ys (length ys - n)
from_right xs ys n le =
    ap (get_elem? (xs ++ ys)) (omega (arith, length-append xs ys))
    ∙ get_elem?-append xs ys (length ys - n)

module _ (N : Netip) where
  hop_ip-append :
      (xs ys : List Str) (hop : ℕ) → hop ≤ length ys → hop_ip N (xs ++ ys) hop ≡ hop_ip N ys hop
  unfolding hop_ip
  hop_ip-append xs ys hop le =
      let n = length-append xs ys in
      let there : ltb (length (xs ++ ys)) hop ≡ false = ground arith in
      let there' : ltb (length ys) hop ≡ false = ground arith in
      rw (there, there', from_right xs ys hop le) refl

  resolve_xff_ip-values :
      (headers : Dict Str (List Str)) (hop : ℕ) (v : Str) (vs : List Str)
      → header_values N xff_header headers ≡ v ∷ vs
      → resolve_xff_ip N headers hop ≡ hop_ip N (hops_of (v ∷ vs)) hop
  unfolding resolve_xff_ip
  resolve_xff_ip-values headers hop v vs q = rw (q, resolve_xff_ip) refl

  -- A caller cannot move the hop that is counted from the right: values that it puts in front of
  -- those of the proxies change nothing, as long as the proxies' values have that many hops.
  pub resolve_xff_ip-forged :
      (headers forged : Dict Str (List Str)) (hop : ℕ) (u : Str) (us : List Str) (v : Str)
      (vs : List Str)
      → header_values N xff_header headers ≡ v ∷ vs
      → header_values N xff_header forged ≡ (u ∷ us) ++ v ∷ vs
      → hop ≤ length (hops_of (v ∷ vs))
      → resolve_xff_ip N forged hop ≡ resolve_xff_ip N headers hop
  unfolding resolve_xff_ip
  resolve_xff_ip-forged headers forged hop u us v vs real longer le =
      resolve_xff_ip-values forged hop u (us ++ v ∷ vs) longer
      ∙ (ap (λ hops. hop_ip N hops hop) (hops_of-append u us v vs)
          ∙ (hop_ip-append (hops_of (u ∷ us)) (hops_of (v ∷ vs)) hop le
              ∙ sym (resolve_xff_ip-values headers hop v vs real)))
