-- ===== src/Node/Build/Laws.antt =====
-- Which proxies have a share link, and what the links carry.
use proxy_proxy.Prelude.{List, [], ◌∷◌, ◌++◌, true, false, ◌≡◌, ◌≢◌, ◌⊎◌}
use proxy_proxy.Prelude.Tests.{nat_eq}
use proxy_proxy.Prelude.Dict.{Dict}
use proxy_proxy.Prelude.Member.{contains}
use proxy_proxy.Prelude.Text.{Str, lit, str_eq}
use proxy_proxy.Prelude.Text.Numeral.{itoa}
use proxy_proxy.Node.Value.{Value, text, Object, get}
use proxy_proxy.Node.Sprint.{to_int}
use proxy_proxy.Node.Build.{Url, Encoders, str_at}

abbrev pub linked_types : List Str
linked_types = lit "ss" ∷ lit "vmess" ∷ lit "vless" ∷ lit "trojan" ∷ lit "hysteria2" ∷ []

-- The types whose links are URLs in the common form.
abbrev pub url_types : List Str
url_types = lit "vless" ∷ lit "trojan" ∷ lit "hysteria2" ∷ []

abbrev pub server_of : Object → Str
server_of m = str_at (lit "server") m

abbrev pub port_of : Object → Str
port_of m = itoa (to_int (get (lit "port") m))

-- The server and the port of the proxy; an IPv6 address stands in brackets.
abbrev pub HasAddress : Object → Str → Type 0
HasAddress m host =
    (contains (server_of m) b':' ≡ false → host ≡ server_of m ++ (b':' ∷ port_of m))
    × (contains (server_of m) b':' ≡ true
        → host ≡ b'[' ∷ (server_of m ++ (b']' ∷ b':' ∷ port_of m)))

-- The parts of a URL.
pub record IsUrlOf (m : Object) (name : Str) (u : Url) : Type 0 where
  pub scheme : u.scheme ≡ str_at (lit "type") m
  pub address : HasAddress m u.host
  pub fragment : u.fragment ≡ name
  pub uuid : str_at (lit "type") m ≡ lit "vless" → u.user ≡ str_at (lit "uuid") m
  pub password : str_at (lit "type") m ≢ lit "vless" → u.user ≡ str_at (lit "password") m

-- The fields of the document of a vmess link.
pub record IsDocumentOf (m : Object) (name : Str) (j : Object) : Type 0 where
  pub title : get (lit "ps") j ≡ text name
  pub server : get (lit "add") j ≡ text (server_of m)
  pub port : get (lit "port") j ≡ text (port_of m)
  pub id : get (lit "id") j ≡ text (str_at (lit "uuid") m)

abbrev document_keys : List Str
document_keys = lit "ps" ∷ lit "add" ∷ lit "port" ∷ lit "id" ∷ []

module _ (E : Encoders) (m : Object) (name : Str) where
  -- What the link of each type carries.
  abbrev pub IsLink : Str → Type 0
  IsLink link =
      ((str_at (lit "type") m ≡ lit "ss")
        × ((host : Str) × (plugin : Str) × HasAddress m host
            × (link
                ≡ lit "ss://"
                  ++ (E.base64_raw_url
                        (str_at (lit "cipher") m ++ (b':' ∷ str_at (lit "password") m))
                      ++ (b'@' ∷ (host ++ (plugin ++ (b'#' ∷ E.path_escape name))))))))
      ⊎ (((str_at (lit "type") m ≡ lit "vmess")
            × ((j : Object) × IsDocumentOf m name j
                × (link ≡ lit "vmess://" ++ E.base64_std (E.marshal_json j))))
          ⊎ ((contains url_types (str_at (lit "type") m) ≡ true)
              × ((u : Url) × IsUrlOf m name u × (link ≡ E.url_string u))))
