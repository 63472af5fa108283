-- ===== src/Config/Validate.antt =====
-- internal/config/config.go: `validate` and what it calls for subs and keys.
pub mod Sources
pub mod Subs
pub mod Keys
pub mod Laws
use proxy_proxy.Prelude.{
  ℕ, suc, ◌+◌, ◌*◌, ◌^◌, List, [], ◌∷◌, ◌++◌, map, Option, none, some, Bool, true, false, not, ◌&&◌,
  ◌||◌,
}
use proxy_proxy.Prelude.Tests.{if◌then◌else◌, ◌==◌, Result, ok, err, ◌>>=◌}
use proxy_proxy.Prelude.Lists.{filter}
use proxy_proxy.Prelude.Member.{contains}
use proxy_proxy.Prelude.Int.{ℤ, pos, ltb_ℤ, leb_ℤ}
use proxy_proxy.Prelude.Fresh.{free_name}
use proxy_proxy.Prelude.Text.{Str, lit, is_empty, str_eq}
use proxy_proxy.Prelude.Text.Numeral.{itoa}
use proxy_proxy.Config.Types.{Sub, Key, Config, sub_names}
use proxy_proxy.Config.Source.{
  Platform, ConfigError, no_subs, invalid_type, duplicate_name, key_required, duplicate_key,
  unknown_sub, parse_sub_source, default_sub_name,
}
use proxy_proxy.Config.RelaySubs.{dashed, second, minute, hour, resolve_relay_subs}

-- The name for a sub that has none. The loop always ends, so the last case does not arise.
unfoldable pub free_sub_name : List Str → Str → Str
free_sub_name seen base = elim (free_name seen (dashed base) base) [
  | some name ↦ name
  | none ↦ base
]

abbrev pub sub_types : List Str
sub_types = lit "auto" ∷ lit "base64" ∷ lit "raw" ∷ lit "clash" ∷ []

-- The type, with its default; `none` where it is not one of the four.
unfoldable pub sub_type : Str → Option Str
unfolding contains lit
sub_type typ =
    if is_empty typ then some (lit "auto") else if contains sub_types typ then some typ else none

-- The default of an hour, then the minimum of a minute.
unfoldable pub sub_interval : ℤ → ℤ
sub_interval interval =
    let i = if leb_ℤ interval (pos 0) then pos hour else interval in
    if ltb_ℤ i (pos minute) then pos minute else i

-- The sub as validated, and the names seen with it.
unfoldable pub validate_sub : Platform → Sub → ℕ → List Str → Result ConfigError (Sub × List Str)
unfolding parse_sub_source default_sub_name sub_type sub_interval free_sub_name
validate_sub p s index seen = parse_sub_source p s index >>= λ source. (elim (sub_type s.typ) [
  | none ↦ err (invalid_type index s.typ)
  | some typ ↦
      let name =
        if is_empty s.name then free_sub_name seen (default_sub_name p source.0) else s.name in
      if contains seen name
      then err (duplicate_name index name)
      else ok (
        record source.1 { typ = typ; interval = sub_interval s.interval; name = name },
        seen ++ name ∷ [],
      )
])

unfoldable pub validate_subs_from :
    Platform → ℕ → List Sub → List Str → Result ConfigError (List Sub × List Str)
unfolding validate_sub
validate_subs_from p index [] seen = ok ([], seen)
validate_subs_from p index (s ∷ subs) seen = validate_sub p s index seen >>= λ head.
    validate_subs_from p (suc index) subs head.1 >>= λ rest. ok (head.0 ∷ rest.0, rest.1)

unfoldable pub validate_subs : Platform → List Sub → Result ConfigError (List Sub × List Str)
unfolding validate_subs_from
validate_subs p subs = validate_subs_from p 0 subs []

-- The first name that no sub has.
unfoldable pub find_unknown : List Str → List Str → Option Str
find_unknown seen [] = none
find_unknown seen (name ∷ names) = if contains seen name then find_unknown seen names else some name

unfoldable pub resolve_key : List Str → Key → Key
resolve_key names k = elim k.allowed_subs [
  | [] ↦ record k { resolved = names }
  | a ∷ as' ↦ record k { resolved = k.resolved ++ filter (λ n. contains k.allowed_subs n) names }
]

-- `names` are the sub names in config order, `seen` those that validation has seen.
unfoldable pub validate_keys_from :
    ℕ → List Str → List Str → List Str → List Key → Result ConfigError (List Key)
unfolding find_unknown resolve_key
validate_keys_from i names seen seen_keys [] = ok []
validate_keys_from i names seen seen_keys (k ∷ ks) =
    if is_empty k.key
    then err (key_required i)
    else if contains seen_keys k.key
    then err (duplicate_key i)
    else (elim (find_unknown seen k.allowed_subs) [
      | some name ↦ err (unknown_sub i name)
      | none ↦ validate_keys_from (suc i) names seen (k.key ∷ seen_keys) ks >>= λ rest.
          ok (resolve_key names k ∷ rest)
    ])

unfoldable pub validate_keys : List Str → List Str → List Key → Result ConfigError (List Key)
unfolding validate_keys_from
validate_keys names seen ks = validate_keys_from 0 names seen [] ks

abbrev pub default_listen : Str
default_listen = lit ":8080"

abbrev pub default_user_agent : Str
default_user_agent = lit "clash.meta/1.19.0 (proxy-proxy)"

-- The fields with a default.
unfoldable pub with_defaults : Config → Config
unfolding lit
with_defaults c = record c {
  listen = if is_empty c.listen then default_listen else c.listen;
  user_agent = if is_empty c.user_agent then default_user_agent else c.user_agent;
  timeout = if leb_ℤ c.timeout (pos 0) then pos (30 * second) else c.timeout;
}

-- What follows the check that there are subs.
unfoldable pub validate_parts : Platform → Config → Result ConfigError Config
unfolding validate_subs validate_keys
validate_parts p c = validate_subs p c.subs >>= λ subs.
    let c' : Config = record c { subs = subs.0 } in
    validate_keys (sub_names c') subs.1 c'.keys >>= λ ks.
    ok (resolve_relay_subs p subs.1 (record c' { keys = ks }))

unfoldable pub validate : Platform → Config → Result ConfigError Config
unfolding with_defaults validate_parts
validate p config =
    let c = with_defaults config in (elim c.subs [ [] ↦ err no_subs | s ∷ ss ↦ validate_parts p c ])
