-- ===== src/Prelude/Text/Host.antt =====
-- `net.SplitHostPort` and `net.JoinHostPort`
use proxy_proxy.Prelude.Tests.{nat_beq, if◌then◌else◌, nat_eq, Result, ok, err}
use proxy_proxy.Prelude.Lists.{length, take, drop}
use proxy_proxy.Prelude.Member.{contains}
use proxy_proxy.Prelude.Text.{Str, lit}
use Prim.Native.Nat.{ℕ, suc}
use mathlib.Core.Path.{◌≡◌, refl}
use mathlib.Core.Option.{Option, none, some}
use mathlib.Core.List.{[], ◌∷◌, ◌++◌}

unfoldable pub index_byte : ℕ → Str → Option ℕ
index_byte c [] = none
index_byte c (a ∷ s) =
    if nat_beq a c then some 0 else elim (index_byte c s) [ none ↦ none | some i ↦ some (suc i) ]

unfoldable pub last_index_byte : ℕ → Str → Option ℕ
last_index_byte c [] = none
last_index_byte c (a ∷ s) = elim (last_index_byte c s) [
  | none ↦ if nat_beq a c then some 0 else none
  | some i ↦ some (suc i)
]

pub data AddrError : Type 0 where
  missing_port too_many_colons missing_bracket unexpected_open unexpected_close : AddrError

-- The checks on the brackets, and the parts around the last colon `i`; `j` and `k` are where the
-- brackets may no longer occur.
split_at : Str → Str → ℕ → ℕ → ℕ → Result AddrError (Str × Str)
unfolding contains
split_at s host i j k =
    if contains (drop j s) b'['
    then err unexpected_open
    else if contains (drop k s) b']'
    then err unexpected_close
    else ok (host, drop (suc i) s)

split_bracketed : Str → ℕ → Result AddrError (Str × Str)
unfolding split_at index_byte
split_bracketed s i = elim (index_byte b']' s) [
  | none ↦ err missing_bracket
  | some e ↦
      if nat_beq (suc e) (length s)
      then err missing_port
      else if nat_beq (suc e) i
      then split_at s (drop 1 (take e s)) i 1 (suc e)
      else if contains (take 1 (drop (suc e) s)) b':'
      then err too_many_colons
      else err missing_port
]

split_plain : Str → ℕ → Result AddrError (Str × Str)
unfolding split_at
split_plain s i =
    if contains (take i s) b':' then err too_many_colons else split_at s (take i s) i 0 0

-- `net.SplitHostPort`
unfoldable pub split_host_port : Str → Result AddrError (Str × Str)
unfolding split_bracketed split_plain last_index_byte
split_host_port s = elim (last_index_byte b':' s) [
  | none ↦ err missing_port
  | some i ↦ if contains (take 1 s) b'[' then split_bracketed s i else split_plain s i
]

-- `net.JoinHostPort`
unfoldable pub join_host_port : Str → Str → Str
unfolding contains
join_host_port host port =
    if contains host b':' then b'[' ∷ (host ++ (b']' ∷ b':' ∷ port)) else host ++ (b':' ∷ port)

split_host_port_tests :
    (split_host_port (lit ":8080") ≡ ok ([], lit "8080"))
    × (split_host_port (lit "[::1]:80") ≡ ok (lit "::1", lit "80"))
    × (split_host_port (lit "::1") ≡ err too_many_colons)
    × (split_host_port (lit "host") ≡ err missing_port)
unfolding split_host_port lit
split_host_port_tests = (refl, refl, refl, refl)
