-- ===== src/Agg/Store/CacheKey.antt =====
-- The key of the render cache tells the requested subs, the format and the flag, as long as no sub
-- name is empty or holds the separator.
use proxy_proxy.Prelude.{
  List, [], ◌∷◌, ◌++◌, Bool, false, ◌≡◌, ◌≢◌, refl, sym, ap, ◌∙◌, reverse, arith,
}
use proxy_proxy.Prelude.Tests.{nat_eq}
use proxy_proxy.Prelude.Member.{All, contains}
use proxy_proxy.Prelude.Text.{Str, lit, join}
use proxy_proxy.Node.Sprint.{print_bool}
use proxy_proxy.Agg.Render.{Format}
use proxy_proxy.Agg.Store.{format_name, cache_key}
use mathlib.Core.List.{reverse-append, reverse-reverse}

-- A sub name as the cache expects it.
abbrev pub IsPlainName : Str → Type 0
IsPlainName s = (s ≢ []) × (contains s 0 ≡ false)

-- A separator behind a name without one can be found again.
split_inj :
    (s t : Str) (x y : Str)
    → contains s 0 ≡ false
    → contains t 0 ≡ false
    → s ++ (0 ∷ x) ≡ t ++ (0 ∷ y)
    → (s ≡ t) × (x ≡ y)
unfolding contains
split_inj [] [] x y a b h = (refl, cc)
split_inj [] (d ∷ t) x y a b h = absurd (ground arith)
split_inj (c ∷ s) [] x y a b h = absurd (ground arith)
split_inj (c ∷ s) (d ∷ t) x y a b h =
    let (p, q) = split_inj s t x y (ground arith) (ground arith) (cc) in (cc, q)

no_split : (s t y : Str) → contains s 0 ≡ false → s ≢ t ++ (0 ∷ y)
unfolding contains
no_split [] [] y a h = cc
no_split [] (d ∷ t) y a h = cc
no_split (c ∷ s) [] y a h = ground arith
no_split (c ∷ s) (d ∷ t) y a h = no_split s t y (ground arith) (cc)

append-ne-nil : (s x : Str) → s ≢ [] → [] ≢ s ++ x
append-ne-nil [] x ne h = ne refl
append-ne-nil (c ∷ s) x ne h = cc

join_inj :
    (ss ts : List Str)
    → All IsPlainName ss
    → All IsPlainName ts
    → join (0 ∷ []) ss ≡ join (0 ∷ []) ts
    → ss ≡ ts
unfolding join
join_inj [] [] a b h = refl
join_inj [] (t ∷ []) a b h = absurd (b.0.0 (sym h))
join_inj [] (t ∷ u ∷ ts) a b h = absurd (append-ne-nil t _ b.0.0 h)
join_inj (s ∷ []) [] a b h = absurd (a.0.0 h)
join_inj (s ∷ []) (t ∷ []) a b h = cc
join_inj (s ∷ []) (t ∷ u ∷ ts) a b h = absurd (no_split s t (join (0 ∷ []) (u ∷ ts)) a.0.1 h)
join_inj (s ∷ r ∷ ss) [] a b h = absurd (append-ne-nil s _ a.0.0 (sym h))
join_inj (s ∷ r ∷ ss) (t ∷ []) a b h = absurd (no_split t s (join (0 ∷ []) (r ∷ ss)) b.0.1 (sym h))
join_inj (s ∷ r ∷ ss) (t ∷ u ∷ ts) a b h =
    let (p, q) = split_inj s t _ _ a.0.1 b.0.1 h in
    let rest = join_inj (r ∷ ss) (u ∷ ts) a.1 b.1 q in cc

-- What stands behind the names, backwards.
back_tail : Format → Bool → Str
back_tail f b = reverse (b'|' ∷ (format_name f ++ (b'|' ∷ print_bool b)))

back_tail_inj :
    (f g : Format) (b c : Bool) (x y : Str)
    → back_tail f b ++ x ≡ back_tail g c ++ y
    → (f ≡ g) × (b ≡ c) × (x ≡ y)
unfolding back_tail format_name print_bool lit
back_tail_inj Format.base64 g b c x y h = ground arith
back_tail_inj Format.raw g b c x y h = ground arith
back_tail_inj Format.clash g b c x y h = ground arith

-- Two requests have one cache key only if they ask for the same subs in the same order, in the
-- same format, with the same flag; no name may be empty or hold a NUL byte.
pub cache_key_inj :
    (ss ts : List Str) (f g : Format) (b c : Bool)
    → All IsPlainName ss
    → All IsPlainName ts
    → cache_key ss f b ≡ cache_key ts g c
    → (ss ≡ ts) × (f ≡ g) × (b ≡ c)
unfolding cache_key back_tail
cache_key_inj ss ts f g b c p q h =
    let back =
      sym (reverse-append (join (0 ∷ []) ss) _)
      ∙ (ap reverse h ∙ reverse-append (join (0 ∷ []) ts) _) in
    let (same_f, same_b, same_x) =
      back_tail_inj f g b c (reverse (join (0 ∷ []) ss)) (reverse (join (0 ∷ []) ts)) back in
    let same : join (0 ∷ []) ss ≡ join (0 ∷ []) ts =
      sym (reverse-reverse _) ∙ (ap reverse same_x ∙ reverse-reverse _) in
    (join_inj ss ts p q same, same_f, same_b)

-- A sub whose name holds a NUL byte between two texts has the cache key of the two subs that are named
-- by those texts.
pub cache_key-nul :
    (a b : Str) (f : Format) (full : Bool)
    → cache_key ((a ++ (0 ∷ b)) ∷ []) f full ≡ cache_key (a ∷ b ∷ []) f full
unfolding cache_key join
cache_key-nul a b f full = refl
