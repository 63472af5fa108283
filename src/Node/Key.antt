-- ===== src/Node/Key.antt =====
-- internal/node/node.go: the key by which the same node is known in every format.
use proxy_proxy.Prelude.{
  ℕ, zero, suc, ◌*◌, ◌+◌, ◌/◌, ◌%◌, ◌^◌, [], ◌∷◌, ◌++◌, Option, none, some, ◌||◌, ◌≡◌, refl,
}
use Prim.Native.Nat.{bit_xor}
use proxy_proxy.Prelude.Tests.{if◌then◌else◌, ltb, ◌==◌}
use proxy_proxy.Prelude.Text.{Str, lit, join, str_eq}
use proxy_proxy.Prelude.Text.Numeral.{itoa}
use proxy_proxy.Node.Value.{object, Object, empty, field, get}
use proxy_proxy.Node.Sprint.{str, to_int, sprint}
use proxy_proxy.Node.Types.{Node}

-- `hash/fnv.New64a`
unfoldable pub fnv64a_from : ℕ → Str → ℕ
fnv64a_from h [] = h
fnv64a_from h (c ∷ s) = fnv64a_from ((bit_xor h c * 1099511628211) % 2 ^ 64) s

unfoldable pub fnv64a : Str → ℕ
unfolding fnv64a_from
fnv64a s = fnv64a_from 14695981039346656037 s

-- `strconv.FormatUint(n, 16)`, with a digit for each round of fuel; 16 rounds print 64 bits.
unfoldable pub hex_from : ℕ → ℕ → Str
hex_from zero n = []
hex_from (suc f) n =
    let front = hex_from f (n / 16) in
    let d = n % 16 in
    let digit = if ltb d 10 then 48 + d else 87 + d in
    if ltb n 16 then digit ∷ [] else front ++ digit ∷ []

unfoldable pub hex : ℕ → Str
unfolding hex_from
hex n = hex_from 16 n

-- `delete(m, key)`
unfoldable pub without : Str → Object → Object
without key empty = empty
without key (field k v m) = let rest = without key m in if k == key then rest else field k v rest

-- `marshal` stands for `json.Marshal`, which sorts the keys.
unfoldable pub canonical_hash : (Object → Option Str) → Object → Str
unfolding fnv64a hex without
canonical_hash marshal m =
    let c = without (lit "name") m in
    hex (fnv64a (elim (marshal c) [ none ↦ sprint (object c) | some b ↦ b ]))

unfoldable pub auth_of : (Object → Option Str) → Object → Str
unfolding lit
auth_of marshal m =
    let typ = str (get (lit "type") m) in
    let pair = λ (a : Str) (b : Str). str (get a m) ++ (b':' ∷ str (get b m)) in
    if typ == lit "ss"
    then pair (lit "cipher") (lit "password")
    else if typ == lit "vmess" || typ == lit "vless"
    then str (get (lit "uuid") m)
    else if typ == lit "trojan" || typ == lit "hysteria2" || typ == lit "hysteria"
    then str (get (lit "password") m)
    else if typ == lit "tuic"
    then pair (lit "uuid") (lit "password")
    else if typ == lit "http" || typ == lit "socks5"
    then pair (lit "username") (lit "password")
    else canonical_hash marshal m

unfoldable pub clash_key : (Object → Option Str) → Object → Str
unfolding auth_of
clash_key marshal m = join (lit "|") (
    str (get (lit "type") m)
    ∷ str (get (lit "server") m)
    ∷ itoa (to_int (get (lit "port") m))
    ∷ str (get (lit "network") m)
    ∷ auth_of marshal m
    ∷ [])

unfoldable pub from_clash_map : (Object → Option Str) → Str → Object → Node
unfolding clash_key
from_clash_map marshal sub m = record {
  sub = sub;
  name = str (get (lit "name") m);
  key = clash_key marshal m;
  clash = some m;
  raw = [];
}

fnv64a_test : hex (fnv64a (lit "a")) ≡ lit "af63dc4c8601ec8c"
unfolding hex fnv64a lit
fnv64a_test = refl
