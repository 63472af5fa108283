-- ===== src/Agg/Render.antt =====
-- internal/agg/store.go: `render` and `renderClash`, from nodes to a subscription payload.
use proxy_proxy.Prelude.{
  ℕ, ◌+◌, ◌-◌, ◌*◌, ◌/◌, ◌%◌, List, [], ◌∷◌, ◌++◌, map, Option, none, some, Bool, true, false, ◌≡◌,
  refl,
}
use proxy_proxy.Prelude.Tests.{if◌then◌else◌, ltb, nat_beq}
use proxy_proxy.Prelude.Int.{pos}
use proxy_proxy.Prelude.Text.{Str, lit, join}
use proxy_proxy.Node.Build.{Encoders, build_uri}
use proxy_proxy.Node.Value.{
  Value, bool, int, text, texts, items, object, Items, nil, cons, Object, empty, field,
}
use proxy_proxy.Node.Types.{Node, uri, clash_map}
use proxy_proxy.Node.Key.{fnv64a, hex}
use proxy_proxy.Node.Names.{unique_names}

pub data Format : Type 0 where
  base64 raw clash : Format

-- What rendering calls outside of the repository: the encoders of `node.BuildURI`, and `yaml.Marshal`
-- of gopkg.in/yaml.v3.
pub record Codec : Type 0 where
  pub encoders : Encoders
  pub marshal : Value → Option Str

-- A digit of `base64.StdEncoding`.
unfoldable pub base64_digit : ℕ → ℕ
base64_digit n =
    if ltb n 26
    then b'A' + n
    else if ltb n 52
    then 71 + n
    else if ltb n 62
    then n - 4
    else if nat_beq n 62
    then b'+'
    else b'/'

-- `base64.StdEncoding.EncodeToString`
unfoldable pub base64_encode : Str → Str
unfolding base64_digit
base64_encode [] = []
base64_encode (a ∷ []) = base64_digit (a / 4) ∷ base64_digit (a % 4 * 16) ∷ b'=' ∷ b'=' ∷ []
base64_encode (a ∷ b ∷ []) =
    base64_digit (a / 4)
    ∷ base64_digit (a % 4 * 16 + b / 16)
    ∷ base64_digit (b % 16 * 4)
    ∷ b'='
    ∷ []
base64_encode (a ∷ b ∷ c ∷ s) =
    base64_digit (a / 4)
    ∷ base64_digit (a % 4 * 16 + b / 16)
    ∷ base64_digit (b % 16 * 4 + c / 64)
    ∷ base64_digit (c % 64)
    ∷ base64_encode s

-- The lines of the nodes that have a share link.
unfoldable pub lines_of : Codec → List Node → List Str
lines_of k [] = []
lines_of k (n ∷ nodes) =
    let rest = lines_of k nodes in
    elim (uri (build_uri k.encoders) n) [ none ↦ rest | some u ↦ u ∷ rest ]

-- The proxies that have a Clash form, with their names.
unfoldable pub clash_proxies : List Node → List Str → List (Object × Str)
clash_proxies [] names = []
clash_proxies (n ∷ nodes) [] = []
clash_proxies (n ∷ nodes) (name ∷ names) =
    let rest = clash_proxies nodes names in
    elim (clash_map n name) [ none ↦ rest | some m ↦ (m, name) ∷ rest ]

abbrev objects : List (Object × Str) → Items
objects [] = nil
objects ((m, name) ∷ ps) = cons (object m) (objects ps)

-- The document of a complete config, or the bare proxy list.
unfoldable pub clash_doc : List (Object × Str) → Bool → Value
unfolding lit
clash_doc proxies false = object (field (lit "proxies") (items (objects proxies)) empty)
clash_doc proxies true =
    let included = map (λ p. p.1) proxies in
    let group : List Str = elim included [ [] ↦ lit "DIRECT" ∷ [] | p ∷ ps ↦ p ∷ ps ] in
    object (
      field (lit "mixed-port") (int (pos 7890)) (
        field (lit "allow-lan") (bool false) (
          field (lit "mode") (text (lit "rule")) (
            field (lit "log-level") (text (lit "info")) (
              field (lit "proxies") (items (objects proxies)) (
                field (lit "proxy-groups")
                  (items (
                    cons
                      (object (
                        field (lit "name") (text (lit "PROXY")) (
                          field (lit "type") (text (lit "select"))
                            (field (lit "proxies") (texts (lit "AUTO" ∷ group)) empty))))
                      (cons
                        (object (
                          field (lit "name") (text (lit "AUTO")) (
                            field (lit "type") (text (lit "url-test")) (
                              field (lit "url") (text (lit "http://www.gstatic.com/generate_204")) (
                                field (lit "interval") (int (pos 300))
                                  (field (lit "proxies") (texts group) empty))))))
                        nil)))
                  (field (lit "rules") (texts (lit "MATCH,PROXY" ∷ [])) empty)))))))

-- Where the document cannot be written the payload is an empty proxy list. `unique_names` always
-- returns names.
unfoldable pub render_clash : Codec → List Node → Bool → Str
unfolding clash_doc clash_proxies lit
render_clash k nodes full = elim (unique_names nodes) [
  | none ↦ []
  | some names ↦ elim (k.marshal (clash_doc (clash_proxies nodes names) full)) [
    | none ↦ lit "proxies: []" ++ (0x0a ∷ [])
    | some out ↦ out
  ]
]

unfoldable pub render : Codec → List Node → Format → Bool → Str
unfolding lines_of base64_encode render_clash
render k nodes Format.clash full = render_clash k nodes full
render k nodes Format.raw full = join (0x0a ∷ []) (lines_of k nodes)
render k nodes Format.base64 full = base64_encode (join (0x0a ∷ []) (lines_of k nodes))

-- The quoted hash that `Render` returns as the ETag.
unfoldable pub etag_of : Str → Str
unfolding fnv64a hex
etag_of body = b'"' ∷ (hex (fnv64a body) ++ b'"' ∷ [])

base64_test : base64_encode (lit "light wo") ≡ lit "bGlnaHQgd28="
unfolding base64_encode lit
base64_test = refl
