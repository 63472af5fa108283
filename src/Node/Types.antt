-- ===== src/Node/Types.antt =====
-- internal/node/node.go: `Node`, and its two forms.
use proxy_proxy.Prelude.{Option, none, some}
use proxy_proxy.Prelude.Tests.{if◌then◌else◌}
use proxy_proxy.Prelude.Text.{Str, lit, is_empty}
use proxy_proxy.Node.Value.{text, Object, set}

-- At least one of `raw` and `clash` is set.
pub record Node : Type 0 where
  pub sub : Str
  pub name : Str
  pub key : Str
  pub clash : Option Object
  pub raw : Str

-- `build_uri` is `BuildURI`, with the encoders that it uses.
unfoldable pub uri : (Object → Str → Option Str) → Node → Option Str
uri build_uri n =
    if is_empty n.raw
    then elim n.clash [ none ↦ none | some m ↦ build_uri m n.name ]
    else some n.raw

unfoldable pub clash_map : Node → Str → Option Object
clash_map n name = elim n.clash [ none ↦ none | some m ↦ some (set (lit "name") (text name) m) ]
