-- ===== src/Prelude/Dict.antt =====
-- Go maps as association lists: a write replaces in place or appends, a missing key is `none`.
use mathlib.Core.Path.{◌≡◌, refl}
use mathlib.Core.Bool.{false}
use mathlib.Core.Option.{Option, none, some}
use mathlib.Core.List.{List, [], ◌∷◌}
use native.Mathlib.Omega.{arith}
use proxy_proxy.Prelude.Tests.{Eq, ◌==◌, if◌then◌else◌, beq_refl}
use proxy_proxy.Prelude.Member.{contains, append_unique}

abbrev pub Dict {ℓ κ} : Type ℓ → Type κ → Type (ℓ ⊔ κ)
Dict K V = List (K × V)

module _ {ℓ κ} {K : Type ℓ} {V : Type κ} where
  -- `maps.Keys`
  unfoldable pub keys : Dict K V → List K
  keys [] = []
  keys ((k, v) ∷ m) = k ∷ keys m

module _ {ℓ κ} {K : Type ℓ} {V : Type κ} ⦃e : Eq K⦄ where
  -- `m[k]` with its `ok`
  unfoldable pub lookup : K → Dict K V → Option V
  lookup k [] = none
  lookup k ((j, v) ∷ m) = if j == k then some v else lookup k m

  -- `m[k] = v`
  unfoldable pub insert : K → V → Dict K V → Dict K V
  insert k v [] = (k, v) ∷ []
  insert k v ((j, w) ∷ m) = if j == k then (j, v) ∷ m else (j, w) ∷ insert k v m

  -- `delete(m, k)`
  unfoldable pub remove : K → Dict K V → Dict K V
  remove k [] = []
  remove k ((j, v) ∷ m) = let rest = remove k m in if j == k then rest else (j, v) ∷ rest

  pub lookup-insert :
      (key other : K) (val : V) (m : Dict K V)
      → lookup other (insert key val m) ≡ (if key == other then some val else lookup other m)
  unfolding lookup insert
  lookup-insert key other val [] = refl
  lookup-insert key other val ((key', val') ∷ m) =
      let ih = lookup-insert key other val m in
      ground (arith, ih, e.beq_iff key other, e.beq_iff key' key, e.beq_iff key' other)

  pub lookup-insert_self : (k : K) (v : V) (m : Dict K V) → lookup k (insert k v m) ≡ some v
  lookup-insert_self k v m = simp (lookup-insert, beq_refl)

  pub lookup-remove :
      (k j : K) (m : Dict K V) → lookup j (remove k m) ≡ (if k == j then none else lookup j m)
  unfolding lookup remove
  lookup-remove k j [] = ground arith
  lookup-remove k j ((i, w) ∷ m) =
      ground (arith, e.beq_iff k j, e.beq_iff i k, e.beq_iff i j, lookup-remove k j m)

  pub keys-insert : (k : K) (v : V) (m : Dict K V) → keys (insert k v m) ≡ append_unique (keys m) k
  unfolding keys insert append_unique contains
  keys-insert k v [] = refl
  keys-insert k v ((i, w) ∷ m) = ground (arith, e.beq_iff i k, e.beq_iff k i, keys-insert k v m)

  pub lookup-eq-none : (k : K) (m : Dict K V) → contains (keys m) k ≡ false → lookup k m ≡ none
  unfolding keys lookup contains
  lookup-eq-none k [] h = refl
  lookup-eq-none k ((i, w) ∷ m) h = ground (arith, e.beq_iff i k, e.beq_iff k i, lookup-eq-none k m)
