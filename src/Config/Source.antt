-- ===== src/Config/Source.antt =====
-- internal/config/config.go: where a sub is read from, and the name made from it. `url.Parse`,
-- `filepath.Base` and `filepath.FromSlash` depend on the platform and are fields of `Platform`.
use proxy_proxy.Prelude.{
  ℕ, zero, suc, ◌+◌, [], ◌∷◌, ◌++◌, Option, none, some, Bool, false, not, ◌&&◌, ◌||◌,
}
use proxy_proxy.Prelude.Tests.{if◌then◌else◌, leb, nat_beq, ◌==◌, Result, ok, err}
use proxy_proxy.Prelude.Lists.{drop}
use proxy_proxy.Prelude.Text.{Str, lit, is_empty, str_eq, has_prefix, to_lower}
use proxy_proxy.Config.Types.{Sub}

-- What the program reads of a `*url.URL`.
pub record Url : Type 0 where
  pub scheme : Str
  pub host : Str
  pub path : Str
  pub hostname : Str

pub record Platform : Type 0 where
  pub parse : Str → Option Url
  pub windows : Bool
  pub from_slash : Str → Str
  pub base : Str → Str
  pub separator : ℕ

-- `%q` and `%w` arguments are kept, as far as they tell what is wrong.
pub data FileUrlError : Type 0 where
  malformed_url path_empty : FileUrlError
  not_file_scheme foreign_host : Str → FileUrlError

pub data ConfigError : Type 0 where
  no_subs : ConfigError
  both_sources no_source : ℕ → ConfigError
  invalid_url invalid_type duplicate_name : ℕ → Str → ConfigError
  invalid_file_url : ℕ → Str → FileUrlError → ConfigError
  key_required duplicate_key : ℕ → ConfigError
  unknown_sub : ℕ → Str → ConfigError

-- `strings.EqualFold` with ASCII text: of the other runes only U+017F and U+212A fold to it.
unfoldable pub fold_head : ℕ → Str → ℕ × ℕ
unfolding has_prefix
fold_head a s =
    if leb b'A' a && leb a b'Z'
    then (a + 32, 0)
    else if nat_beq a 0xc5 && has_prefix s (0xbf ∷ [])
    then (b's', 1)
    else if nat_beq a 0xe2 && has_prefix s (0x84 ∷ 0xaa ∷ [])
    then (b'k', 2)
    else (a, 0)

unfoldable pub fold_from : ℕ → Str → Str
unfolding fold_head
fold_from skip [] = []
fold_from (suc skip) (a ∷ s) = fold_from skip s
fold_from zero (a ∷ s) = let (c, skip) = fold_head a s in c ∷ fold_from skip s

unfoldable pub equal_fold : Str → Str → Bool
unfolding fold_from
equal_fold s t = fold_from 0 s == fold_from 0 t

unfoldable pub is_drive_letter : ℕ → Bool
is_drive_letter c = (leb b'a' c && leb c b'z') || (leb b'A' c && leb c b'Z')

-- `path[0] == '/' && isDriveLetter(path[1]) && path[2] == ':'`
unfoldable pub has_drive : Str → Bool
unfolding is_drive_letter
has_drive (a ∷ b ∷ c ∷ s) = nat_beq a b'/' && is_drive_letter b && nat_beq c b':'
has_drive _ = false

unfoldable pub file_url_to_path : Platform → Str → Result FileUrlError Str
unfolding equal_fold has_drive lit
file_url_to_path p raw = elim (p.parse raw) [
  | none ↦ err malformed_url
  | some u ↦
      if not (u.scheme == lit "file")
      then err (not_file_scheme u.scheme)
      else if not (is_empty u.host) && not (equal_fold u.host (lit "localhost"))
      then (if p.windows
          then ok (p.from_slash (lit "//" ++ (u.host ++ u.path)))
          else err (foreign_host u.host))
      else let path = if p.windows && has_drive u.path then drop 1 u.path else u.path in
        if is_empty path then err path_empty else ok (p.from_slash path)
]

-- Exactly one of the fields of the source's record is set.
pub data SubSource : Type 0 where
  url_source : Url → SubSource
  file_source : Str → SubSource

-- The source, and the sub with a legacy file URL turned into a path.
unfoldable pub parse_sub_source : Platform → Sub → ℕ → Result ConfigError (SubSource × Sub)
unfolding file_url_to_path to_lower lit
parse_sub_source p s index =
    let has_url = not (is_empty s.url) in
    let has_file = not (is_empty s.file) in
    if has_url && has_file
    then err (both_sources index)
    else if not has_url && not has_file
    then err (no_source index)
    else if has_file
    then ok (file_source s.file, s)
    else elim (p.parse s.url) [
      | none ↦ err (invalid_url index s.url)
      | some u ↦
          let scheme = to_lower u.scheme in
          if scheme == lit "file"
          then (elim (file_url_to_path p s.url) [
            | ok path ↦ ok (file_source path, record s { file = path; url = [] })
            | err e ↦ err (invalid_file_url index s.url e)
          ])
          else if scheme == lit "http" || scheme == lit "https"
          then ok (url_source u, s)
          else err (invalid_url index s.url)
    ]

unfoldable pub default_sub_name : Platform → SubSource → Str
unfolding lit
default_sub_name p (url_source u) = u.hostname
default_sub_name p (file_source path) =
    let name = p.base path in
    if not (name == lit ".") && not (name == p.separator ∷ []) && not (is_empty name)
    then name
    else lit "file"
