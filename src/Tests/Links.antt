-- ===== src/Tests/Links.antt =====
-- internal/node/build.go on a trojan proxy, with encoders that leave texts as they are.
use proxy_proxy.Prelude.{[], ◌∷◌, ◌++◌}
use proxy_proxy.Prelude.Tests.{nat_eq}
use proxy_proxy.Prelude.Int.{pos}
use proxy_proxy.Prelude.Text.{lit, str_eq}
use proxy_proxy.Node.Value.{text, int, Object, empty, field}
use proxy_proxy.Node.Build.{Encoders}

abbrev pub plain_encoders : Encoders
plain_encoders = record {
  base64_raw_url = λ s. s;
  base64_std = λ s. s;
  marshal_json = λ o. [];
  query_escape = λ s. s;
  path_escape = λ s. s;
  encode_values = λ q. [];
  url_string = λ u. u.scheme ++ (lit "://" ++ (u.user ++ (b'@' ∷ (u.host ++ (b'#' ∷ u.fragment)))));
}

abbrev trojan : Object
trojan = field (lit "type") (text (lit "trojan")) (
    field (lit "server") (text (lit "host"))
      (field (lit "port") (int (pos 443)) (field (lit "password") (text (lit "pw")) empty)))
