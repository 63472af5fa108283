-- ===== src/Node/Names/Laws.antt =====
-- `UniqueNames` ends, and gives every node a name of its own.
use proxy_proxy.Prelude.{ℕ, suc, List, [], ◌∷◌, ◌++◌, map, some, false, ◌≡◌, refl, ap, arith}
use proxy_proxy.Prelude.Lists.{length}
use proxy_proxy.Prelude.Fresh.{free_name_total, free_name-base}
use proxy_proxy.Prelude.Member.{contains, IsDistinct}
use proxy_proxy.Prelude.Text.{Str, str_eq, str_beq_iff}
use proxy_proxy.Prelude.Text.Numeral.{decimal_inj, itoa}
use proxy_proxy.Prelude.Int.{pos}
use proxy_proxy.Node.Types.{Node}
use proxy_proxy.Node.Names.{spaced, unique_name, base_name, unique_names_from, unique_names}
use mathlib.Core.List.{append_cancel_left}

-- Numbered names differ where the numbers do.
pub suffix_inj :
    (base : Str) (c : ℕ) (j k : ℕ) → base ++ (c ∷ itoa (pos j)) ≡ base ++ (c ∷ itoa (pos k)) → j ≡ k
unfolding itoa
suffix_inj base c j k h =
    let tails = append_cancel_left base (c ∷ itoa (pos j)) (c ∷ itoa (pos k)) h in
    decimal_inj j k (cc)

pub unique_name_total :
    (used : List Str) (base : Str)
    → (s : Str) × (unique_name used base ≡ some s) × (contains used s ≡ false)
unfolding unique_name
unique_name_total used base = free_name_total used (spaced base) base (suffix_inj base b' ')

-- No element of the one list is in the other.
abbrev Avoids : List Str → List Str → Type 0
Avoids used [] = Unit
Avoids used (s ∷ ss) = (contains used s ≡ false) × Avoids used ss

Avoids-cons :
    (s : Str) (used ss : List Str) → Avoids (s ∷ used) ss → Avoids used ss × (contains ss s ≡ false)
unfolding contains
Avoids-cons s used [] h = (tt, refl)
Avoids-cons s used (t ∷ ss) (h, hs) =
    let (a, b) = Avoids-cons s used ss hs in
    ((ground arith, a), ground (arith, str_beq_iff s t, str_beq_iff t s))

unique_names_from_total :
    (used : List Str) (nodes : List Node)
    → (names : List Str) × (unique_names_from used nodes ≡ some names)
      × (length names ≡ length nodes)
      × IsDistinct names
      × Avoids used names
unfolding unique_names_from
unique_names_from_total used [] = ([], refl, refl, tt, tt)
unique_names_from_total used (n ∷ nodes) =
    let (s, found, fresh) = unique_name_total used (base_name n) in
    let (names, rest, len, d, avoid) = unique_names_from_total (s ∷ used) nodes in
    let (a, b) = Avoids-cons s used names avoid in
    (
      s ∷ names,
      rw (found, unique_names_from) (rw (rest, unique_names_from)),
      ap suc len,
      (b, d),
      (fresh, a),
    )

-- For every list of nodes the loops end, with one name for each node and no name twice.
pub unique_names-IsDistinct :
    (nodes : List Node)
    → (names : List Str) × (unique_names nodes ≡ some names)
      × (length names ≡ length nodes)
      × IsDistinct names
unfolding unique_names
unique_names-IsDistinct nodes =
    let (names, h, len, d, _) = unique_names_from_total [] nodes in (names, h, len, d)

unique_names_from-base_name :
    (used : List Str) (nodes : List Node)
    → IsDistinct (map base_name nodes)
    → Avoids used (map base_name nodes)
    → unique_names_from used nodes ≡ some (map base_name nodes)
unfolding unique_names_from unique_name
unique_names_from-base_name used [] d a = refl
unique_names_from-base_name used (n ∷ nodes) (fresh, d) (free, a) =
    rw (free_name-base used (spaced (base_name n)) (base_name n) free, unique_names_from)
      (rw (
        unique_names_from-base_name (base_name n ∷ used) nodes d
            (avoid_more (base_name n) (map base_name nodes) fresh a),
        unique_names_from,
      ))
  where
    avoid_more :
        (s : Str) (ss : List Str) → contains ss s ≡ false → Avoids used ss → Avoids (s ∷ used) ss
    avoid_more s [] f h = tt
    avoid_more s (t ∷ ss) f (h, hs) = (
      unfold contains in ground (arith, str_beq_iff s t, str_beq_iff t s),
      avoid_more s ss (unfold contains in ground arith) hs,
    )

Avoids-nil : (ss : List Str) → Avoids [] ss
unfolding contains
Avoids-nil [] = tt
Avoids-nil (s ∷ ss) = (refl, Avoids-nil ss)

-- Nodes whose names, or fallback names where they have none, already differ keep them.
pub unique_names-base_name :
    (nodes : List Node)
    → IsDistinct (map base_name nodes)
    → unique_names nodes ≡ some (map base_name nodes)
unfolding unique_names
unique_names-base_name nodes d =
    unique_names_from-base_name [] nodes d (Avoids-nil (map base_name nodes))
