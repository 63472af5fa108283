-- ===== src/Node/Names.antt =====
-- internal/node/node.go: `UniqueNames`.
pub mod Laws
use proxy_proxy.Prelude.{ℕ, zero, suc, ◌+◌, List, [], ◌∷◌, ◌++◌, Option, none, some, Bool}
use proxy_proxy.Prelude.Tests.{if◌then◌else◌}
use proxy_proxy.Prelude.Fresh.{free_name}
use proxy_proxy.Prelude.Int.{pos}
use proxy_proxy.Prelude.Text.{Str, lit, is_empty, str_eq}
use proxy_proxy.Prelude.Text.Numeral.{itoa}
use proxy_proxy.Prelude.Text.Host.{join_host_port}
use proxy_proxy.Node.Value.{get}
use proxy_proxy.Node.Sprint.{str, to_int}
use proxy_proxy.Node.Types.{Node}

unfoldable pub fallback_name : Node → Str
fallback_name n = elim n.clash [
  | none ↦ lit "node"
  | some m ↦
      str (get (lit "type") m)
      ++ (b' ' ∷ join_host_port (str (get (lit "server") m)) (itoa (to_int (get (lit "port") m))))
]

abbrev pub spaced : Str → ℕ → Str
spaced base k = base ++ (b' ' ∷ itoa (pos k))

-- One round of the loop over the nodes.
unfoldable pub unique_name : List Str → Str → Option Str
unique_name used base = free_name used (spaced base) base

abbrev pub base_name : Node → Str
base_name n = if is_empty n.name then fallback_name n else n.name

unfoldable pub unique_names_from : List Str → List Node → Option (List Str)
unique_names_from used [] = some []
unique_names_from used (n ∷ nodes) = elim (unique_name used (base_name n)) [
  | none ↦ none
  | some name ↦ elim (unique_names_from (name ∷ used) nodes) [
    | none ↦ none
    | some names ↦ some (name ∷ names)
  ]
]

unfoldable pub unique_names : List Node → Option (List Str)
unfolding unique_names_from
unique_names nodes = unique_names_from [] nodes
