-- ===== src/Node/Build.antt =====
-- internal/node/build.go: share links from Clash proxies.
pub mod Laws
use proxy_proxy.Prelude.{ℕ, List, [], ◌∷◌, ◌++◌, map, Option, none, some, Bool, not}
use proxy_proxy.Prelude.Tests.{if◌then◌else◌, ◌==◌}
use proxy_proxy.Prelude.Dict.{Dict, lookup, insert}
use proxy_proxy.Prelude.Text.{Str, lit, str_eq, is_empty, join}
use proxy_proxy.Prelude.Text.Host.{join_host_port}
use proxy_proxy.Prelude.Text.Numeral.{itoa}
use proxy_proxy.Node.Value.{
  Value, text, texts, items, object, Items, nil, cons, Object, empty, field, get, set,
}
use proxy_proxy.Node.Sprint.{str, to_int, to_bool}

-- `url.URL`, as far as the links use it
pub record Url : Type 0 where
  pub scheme : Str
  pub user : Str
  pub host : Str
  pub raw_query : Str
  pub fragment : Str

-- The packages encoding/base64, encoding/json and net/url.
pub record Encoders : Type 0 where
  pub base64_raw_url : Str → Str
  pub base64_std : Str → Str
  pub marshal_json : Object → Str
  pub query_escape : Str → Str
  pub path_escape : Str → Str
  pub encode_values : Dict Str Str → Str
  pub url_string : Url → Str

-- `str(m[key])`
abbrev pub str_at : Str → Object → Str
str_at key m = str (get key m)

abbrev pub bool_at : Str → Object → Bool
bool_at key m = to_bool (get key m)

unfoldable pub map_host_port : Object → Str
unfolding join_host_port lit
map_host_port m = join_host_port (str_at (lit "server") m) (itoa (to_int (get (lit "port") m)))

-- `subMap`; none stands for nil.
unfoldable pub sub_map : Object → Str → Option Object
sub_map m key = elim (get key m) [ object o ↦ some o | _ ↦ none ]

-- What a read of a nil map sees.
abbrev pub or_nil : Option Object → Object
or_nil none = empty
or_nil (some o) = o

abbrev strs_of : Items → List Str
strs_of nil = []
strs_of (cons v vs) = str v ∷ strs_of vs

unfoldable pub join_list : Value → Str
unfolding join lit
join_list (texts ss) = join (lit ",") ss
join_list (items vs) = join (lit ",") (strs_of vs)
join_list v = str v

-- The part of a plugin's text for an option that is not empty.
abbrev option_part : Str → Str → Str
option_part prefix s = if is_empty s then [] else prefix ++ s

unfoldable pub ss_plugin_string : Object → Str
unfolding sub_map lit
ss_plugin_string m =
    let po = or_nil (sub_map m (lit "plugin-opts")) in
    let plugin = str_at (lit "plugin") m in
    if plugin == lit "obfs"
    then lit "obfs-local;obfs="
      ++ (str_at (lit "mode") po ++ option_part (lit ";obfs-host=") (str_at (lit "host") po))
    else if plugin == lit "v2ray-plugin"
    then lit "v2ray-plugin"
      ++ ((if bool_at (lit "tls") po then lit ";tls" else [])
          ++ (option_part (lit ";host=") (str_at (lit "host") po)
              ++ option_part (lit ";path=") (str_at (lit "path") po)))
    else []

-- A write of an option that is not empty, to the fields of a map or to the values of a query.
abbrev set_some : Str → Str → Object → Object
set_some key s j = if is_empty s then j else set key (text s) j

abbrev put_some : Str → Str → Dict Str Str → Dict Str Str
put_some key s q = if is_empty s then q else insert key s q

abbrev set_when : Bool → Str → Str → Object → Object
set_when b key s j = if b then set key (text s) j else j

abbrev put_when : Bool → Str → Str → Dict Str Str → Dict Str Str
put_when b key s q = if b then insert key s q else q

unfoldable pub vmess_network : Object → Object → Object
unfolding sub_map join_list lit
vmess_network m j =
    let network = str_at (lit "network") m in
    if network == lit "ws"
    then (let j' = set (lit "net") (text (lit "ws")) j in
        elim (sub_map m (lit "ws-opts")) [
          | none ↦ j'
          | some o ↦
              let j'' = set (lit "path") (text (str_at (lit "path") o)) j' in
              elim (sub_map o (lit "headers")) [
                | none ↦ j''
                | some h ↦ set (lit "host") (text (str_at (lit "Host") h)) j''
              ]
        ])
    else if network == lit "grpc"
    then (let j' = set (lit "net") (text (lit "grpc")) j in
        elim (sub_map m (lit "grpc-opts")) [
          | none ↦ j'
          | some o ↦ set (lit "path") (text (str_at (lit "grpc-service-name") o)) j'
        ])
    else if network == lit "h2"
    then (let j' = set (lit "net") (text (lit "h2")) j in
        elim (sub_map m (lit "h2-opts")) [
          | none ↦ j'
          | some o ↦
              set (lit "host") (text (join_list (get (lit "host") o)))
                (set (lit "path") (text (str_at (lit "path") o)) j')
        ])
    else j

unfoldable pub vmess_fields : Object → Str → Object
unfolding vmess_network lit
vmess_fields m name =
    let scy = str_at (lit "cipher") m in
    let j = field (lit "v") (text (lit "2")) (
      field (lit "ps") (text name) (
        field (lit "add") (text (str_at (lit "server") m)) (
          field (lit "port") (text (itoa (to_int (get (lit "port") m)))) (
            field (lit "id") (text (str_at (lit "uuid") m)) (
              field (lit "aid") (text (itoa (to_int (get (lit "alterId") m)))) (
                field (lit "scy") (text (if is_empty scy then lit "auto" else scy)) (
                  field (lit "net") (text (lit "tcp"))
                    (field (lit "type") (text (lit "none")) empty)))))))) in
    let tls = bool_at (lit "tls") m in
    let j1 = set_when tls (lit "tls") (lit "tls") j in
    let j2 = if tls then set_some (lit "sni") (str_at (lit "servername") m) j1 else j1 in
    let j3 = set_some (lit "fp") (str_at (lit "client-fingerprint") m) j2 in
    vmess_network m (set_some (lit "alpn") (join_list (get (lit "alpn") m)) j3)

unfoldable pub transport_query : Object → Dict Str Str → Dict Str Str
unfolding sub_map join_list lit
transport_query m q =
    let network = str_at (lit "network") m in
    if network == lit "ws"
    then (let q' = insert (lit "type") (lit "ws") q in
        elim (sub_map m (lit "ws-opts")) [
          | none ↦ q'
          | some o ↦
              let q'' = put_some (lit "path") (str_at (lit "path") o) q' in
              elim (sub_map o (lit "headers")) [
                | none ↦ q''
                | some h ↦ put_some (lit "host") (str_at (lit "Host") h) q''
              ]
        ])
    else if network == lit "grpc"
    then (let q' = insert (lit "type") (lit "grpc") q in
        elim (sub_map m (lit "grpc-opts")) [
          | none ↦ q'
          | some o ↦ put_some (lit "serviceName") (str_at (lit "grpc-service-name") o) q'
        ])
    else if network == lit "h2"
    then (let q' = insert (lit "type") (lit "http") q in
        elim (sub_map m (lit "h2-opts")) [
          | none ↦ q'
          | some o ↦
              put_some (lit "host") (join_list (get (lit "host") o))
                (put_some (lit "path") (str_at (lit "path") o) q')
        ])
    else insert (lit "type") (lit "tcp") q

unfoldable pub vless_query : Object → Dict Str Str
unfolding transport_query sub_map join_list lit
vless_query m =
    let q = insert (lit "encryption") (lit "none") [] in
    let q1 : Dict Str Str = elim (sub_map m (lit "reality-opts")) [
      | some ro ↦ put_some (lit "sid") (str_at (lit "short-id") ro) (
          insert (lit "pbk") (str_at (lit "public-key") ro)
            (insert (lit "security") (lit "reality") q))
      | none ↦ insert (lit "security") (if bool_at (lit "tls") m then lit "tls" else lit "none") q
    ] in
    let q2 = put_some (lit "sni") (str_at (lit "servername") m) q1 in
    let q3 = put_some (lit "flow") (str_at (lit "flow") m) q2 in
    let q4 = put_some (lit "fp") (str_at (lit "client-fingerprint") m) q3 in
    let q5 = put_when (bool_at (lit "skip-cert-verify") m) (lit "allowInsecure") (lit "1") q4 in
    transport_query m (put_some (lit "alpn") (join_list (get (lit "alpn") m)) q5)

unfoldable pub trojan_query : Object → Dict Str Str
unfolding transport_query join_list lit
trojan_query m =
    let q1 = put_some (lit "sni") (str_at (lit "sni") m) [] in
    let q2 = put_some (lit "fp") (str_at (lit "client-fingerprint") m) q1 in
    let q3 = put_when (bool_at (lit "skip-cert-verify") m) (lit "allowInsecure") (lit "1") q2 in
    transport_query m (put_some (lit "alpn") (join_list (get (lit "alpn") m)) q3)

unfoldable pub hysteria2_query : Object → Dict Str Str
unfolding join_list lit
hysteria2_query m =
    let obfs = str_at (lit "obfs") m in
    let q1 = put_some (lit "sni") (str_at (lit "sni") m) [] in
    let q2 = put_when (bool_at (lit "skip-cert-verify") m) (lit "insecure") (lit "1") q1 in
    let q3 =
      if is_empty obfs
      then q2
      else put_some (lit "obfs-password") (str_at (lit "obfs-password") m)
          (insert (lit "obfs") obfs q2) in
    let q4 = put_some (lit "mport") (str_at (lit "ports") m) q3 in
    put_some (lit "alpn") (join_list (get (lit "alpn") m)) q4

module _ (E : Encoders) where
  unfoldable pub build_ss : Object → Str → Str
  unfolding ss_plugin_string map_host_port lit
  build_ss m name =
      let userinfo =
        E.base64_raw_url (str_at (lit "cipher") m ++ (b':' ∷ str_at (lit "password") m)) in
      let plugin = ss_plugin_string m in
      lit "ss://"
      ++ (userinfo
          ++ (b'@'
              ∷ (map_host_port m
                  ++ ((if is_empty plugin then [] else lit "?plugin=" ++ E.query_escape plugin)
                      ++ (b'#' ∷ E.path_escape name)))))

  unfoldable pub build_vmess : Object → Str → Str
  unfolding vmess_fields lit
  build_vmess m name = lit "vmess://" ++ E.base64_std (E.marshal_json (vmess_fields m name))

  -- The scheme decides which field is the user.
  unfoldable pub build_std_url : Str → Object → Str → Dict Str Str → Str
  unfolding map_host_port lit
  build_std_url scheme m name q = E.url_string (record {
    scheme = scheme;
    user = if scheme == lit "vless" then str_at (lit "uuid") m else str_at (lit "password") m;
    host = map_host_port m;
    raw_query = E.encode_values q;
    fragment = name;
  })

  -- `BuildURI`; none stands for `ok` being false.
  unfoldable pub build_uri : Object → Str → Option Str
  unfolding build_ss build_vmess build_std_url vless_query trojan_query hysteria2_query lit
  build_uri m name =
      let typ = str_at (lit "type") m in
      if typ == lit "ss"
      then some (build_ss m name)
      else if typ == lit "vmess"
      then some (build_vmess m name)
      else if typ == lit "vless"
      then some (build_std_url (lit "vless") m name (vless_query m))
      else if typ == lit "trojan"
      then some (build_std_url (lit "trojan") m name (trojan_query m))
      else if typ == lit "hysteria2"
      then some (build_std_url (lit "hysteria2") m name (hysteria2_query m))
      else none
