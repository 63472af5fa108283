-- ===== src/Relay/Plan/Group.antt =====
-- internal/relay/plan.go: `groupByPort` and the grouping by username in `findConflicts`.
pub mod Laws
use proxy_proxy.Prelude.{ℕ, List, [], ◌∷◌, ◌++◌, Option, none, some, Bool}
use proxy_proxy.Prelude.Tests.{◌==◌, if◌then◌else◌, leb, nat_eq}
use proxy_proxy.Prelude.Dict.{Dict, lookup, insert, keys}
use proxy_proxy.Prelude.Member.{append_unique}
use proxy_proxy.Prelude.Text.{Str, str_eq}
use proxy_proxy.Relay.Types.{Endpoint}

-- A missing key of a map of slices reads as the empty slice.
abbrev pub slice_of {ℓ} : {A : Type ℓ} → Option (List A) → List A
slice_of none = []
slice_of (some xs) = xs

unfoldable pub by_port_from : Dict ℕ (List Endpoint) → List Endpoint → Dict ℕ (List Endpoint)
by_port_from m [] = m
by_port_from m (e ∷ eps) = by_port_from (insert e.port (slice_of (lookup e.port m) ++ e ∷ []) m) eps

-- `slices.Sorted`
unfoldable pub insert_sorted : ℕ → List ℕ → List ℕ
insert_sorted n [] = n ∷ []
insert_sorted n (k ∷ ks) = if leb n k then n ∷ k ∷ ks else k ∷ insert_sorted n ks

unfoldable pub sorted : List ℕ → List ℕ
unfolding insert_sorted
sorted [] = []
sorted (n ∷ ns) = insert_sorted n (sorted ns)

unfoldable pub group_by_port : List Endpoint → List ℕ × Dict ℕ (List Endpoint)
unfolding by_port_from sorted
group_by_port eps = let by_port = by_port_from [] eps in (sorted (keys by_port), by_port)

-- `owners` of `findConflicts`: from a username to the relays that use it.
unfoldable pub owners_from : Dict Str (List Str) → List Endpoint → Dict Str (List Str)
owners_from m [] = m
owners_from m (e ∷ eps) =
    owners_from (insert e.username (append_unique (slice_of (lookup e.username m)) e.relay) m) eps
