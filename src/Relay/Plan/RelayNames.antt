-- ===== src/Relay/Plan/RelayNames.antt =====
-- The names of a plan's relays: mihomo has one namespace for groups and built-in proxies.
use proxy_proxy.Prelude.{
  ℕ, suc, ◌+◌, List, [], ◌∷◌, ◌++◌, map, none, some, Bool, true, false, not, ◌&&◌, ◌||◌, ◌≡◌, refl,
  ap, ◌∙◌, inl, inr, arith, ◌≤◌,
}
use proxy_proxy.Prelude.Tests.{Result-cases, ◌==◌, ltb, Bool-cases, beq_refl}
use proxy_proxy.Prelude.Lists.{filter}
use proxy_proxy.Prelude.Member.{contains, contains-append, IsDistinct, IsDistinct-concat}
use proxy_proxy.Prelude.Text.{Str, str_eq, is_empty, str_beq, str_beq_iff}
use proxy_proxy.Config.Types.{Config, Relay, fetched_sub_names}
use proxy_proxy.Relay.Types.{Plan, RelaySpec, Adapter, builtin_proxies}
use proxy_proxy.Relay.Plan.{
  Checked, start, check_relay, check_relays, kept_relays, name_count, listen_port, new_plan,
}
use proxy_proxy.Relay.Plan.Check.{check_relay_name, validate_relay}
use proxy_proxy.Relay.Plan.Accept.{validate_relay-Passed, not-empty_of_name}
use proxy_proxy.Relay.Plan.Laws.{new_plan-relays, checked_relays}
use mathlib.Core.List.{append_assoc, append-nil}

abbrev pub relay_names : List RelaySpec → List Str
relay_names rs = map (λ r. r.name) rs

relay_names-append :
    (rs : List RelaySpec) (s : RelaySpec)
    → relay_names (rs ++ s ∷ []) ≡ relay_names rs ++ s.name ∷ []
relay_names-append [] s = refl
relay_names-append (r ∷ rs) s = ap (◌∷◌ r.name) (relay_names-append rs s)

name_count-append :
    (name : Str) (ps rs : List Relay)
    → name_count name (ps ++ rs) ≡ name_count name ps + name_count name rs
unfolding name_count filter
name_count-append name [] rs = omega arith
name_count-append name (p ∷ ps) rs = elim (Bool-cases (p.name == name)) [
  | inl same ↦ let ih = name_count-append name ps rs in rw same (omega arith)
  | inr other ↦ rw other (name_count-append name ps rs)
]

name_count_self : (r : Relay) (rs : List Relay) → 1 ≤ name_count r.name (r ∷ rs)
unfolding name_count filter
name_count_self r rs = rw (beq_refl r.name) (omega arith)

-- A relay whose name is accepted is not named like a built-in proxy.
not-builtin : (name : Str) → check_relay_name name ≡ none → contains builtin_proxies name ≡ false
unfolding check_relay_name
not-builtin name h = ground arith

-- After the relays `ps`, the accepted names are distinct, and are names of relays of `ps`.
HasOwnNames : List Relay → Checked → Type 0
HasOwnNames ps c =
    IsDistinct (builtin_proxies ++ relay_names c.relays)
    × ((name : Str) → contains (relay_names c.relays) name ≡ true → 1 ≤ name_count name ps)

module _ (a : Adapter) (cfg : Config) where
  check_relay-HasOwnNames :
      (i : ℕ) (ps : List Relay) (r : Relay) (rs : List Relay) (c : Checked)
      → ps ++ r ∷ rs ≡ cfg.relays
      → HasOwnNames ps c
      → HasOwnNames (ps ++ r ∷ []) (check_relay a cfg i r c)
  unfolding check_relay HasOwnNames contains
  check_relay-HasOwnNames i ps r rs c all (d, from) =
      let more : (name : Str)
          → contains (relay_names c.relays) name ≡ true
          → 1 ≤ name_count name (ps ++ r ∷ []) =
        λ name m. let k = from name m in rw (name_count-append name ps (r ∷ [])) (omega arith) in
      elim (Bool-cases (not (is_empty r.name) && ltb 1 (name_count r.name cfg.relays))) [
        | inl repeated ↦ rw repeated (d, more)
        | inr single ↦
            elim (Result-cases
              (validate_relay a (fetched_sub_names cfg) (listen_port cfg.listen) r)) [
                | inr (x, bad) ↦ rw (single, bad, check_relay) (d, more)
                | inl ((spec, eps), good) ↦
                    let p = validate_relay-Passed a _ _ r good in
                    rw (single, good, check_relay, relay_names-append c.relays spec, p.spec_name)
                      (
                        rw (← append_assoc builtin_proxies (relay_names c.relays) (r.name ∷ []))
                            (IsDistinct-concat _ r.name d (fresh p.name single)),
                        λ name m. elim (Bool-cases (contains (relay_names c.relays) name)) [
                          | inl old ↦ more name old
                          | inr new ↦
                              let same : name ≡ r.name =
                                last_name (relay_names c.relays) name new m in
                              let k = name_count_self r [] in
                              rw (same, name_count-append r.name ps (r ∷ [])) (omega arith)
                        ],
                      )
              ]
      ]
    where
      last_name :
          (xs : List Str) (name : Str)
          → contains xs name ≡ false
          → contains (xs ++ r.name ∷ []) name ≡ true
          → name ≡ r.name
      last_name xs name new m =
          let m' : (contains xs name || (name == r.name || false)) ≡ true =
            rw (contains-append xs (r.name ∷ []) name) at m in
          ground (arith, str_beq_iff name r.name)

      twice : 1 ≤ name_count r.name ps → 2 ≤ name_count r.name cfg.relays
      twice k =
          let k' = name_count_self r rs in
          rw (← all, name_count-append r.name ps (r ∷ rs)) (omega arith)

      fresh :
          check_relay_name r.name ≡ none
          → (not (is_empty r.name) && ltb 1 (name_count r.name cfg.relays)) ≡ false
          → contains (builtin_proxies ++ relay_names c.relays) r.name ≡ false
      fresh good single =
          rw
            (contains-append builtin_proxies (relay_names c.relays) r.name, not-builtin r.name good)
            (elim (Bool-cases (contains (relay_names c.relays) r.name)) [
              | inr new ↦ new
              | inl old ↦
                  let k = twice (from r.name old) in
                  let e = not-empty_of_name r.name good in ground arith
            ])

  check_relays-HasOwnNames :
      (i : ℕ) (ps rs : List Relay) (c : Checked)
      → ps ++ rs ≡ cfg.relays
      → HasOwnNames ps c
      → HasOwnNames cfg.relays (check_relays a cfg i rs c)
  unfolding check_relays
  check_relays-HasOwnNames i ps [] c all h = rw (← all, append-nil ps) h
  check_relays-HasOwnNames i ps (r ∷ rs) c all h =
      check_relays-HasOwnNames (suc i) (ps ++ r ∷ []) rs (check_relay a cfg i r c)
        (append_assoc ps (r ∷ []) rs ∙ all) (check_relay-HasOwnNames i ps r rs c all h)

-- Fewer names stay distinct.
contains-filter :
    (keep : RelaySpec → Bool) (rs : List RelaySpec) (name : Str)
    → contains (relay_names rs) name ≡ false
    → contains (relay_names (filter keep rs)) name ≡ false
unfolding contains filter
contains-filter keep [] name h = refl
contains-filter keep (r ∷ rs) name h =
    let ih = contains-filter keep rs name (ground arith) in ground (arith, ih)

IsDistinct-filter :
    (keep : RelaySpec → Bool) (xs : List Str) (rs : List RelaySpec)
    → IsDistinct (xs ++ relay_names rs)
    → IsDistinct (xs ++ relay_names (filter keep rs))
unfolding filter
IsDistinct-filter keep (x ∷ xs) rs (fresh, d) = (
  rw (contains-append xs (relay_names (filter keep rs)) x) (
      let old : (contains xs x || contains (relay_names rs) x) ≡ false =
        rw (contains-append xs (relay_names rs) x) at fresh in
      let ih = contains-filter keep rs x (ground arith) in ground arith),
  IsDistinct-filter keep xs rs d,
)
IsDistinct-filter keep [] [] d = tt
IsDistinct-filter keep [] (r ∷ rs) (fresh, d) = elim (Bool-cases (keep r)) [
  | inl kept ↦ rw kept (contains-filter keep rs r.name fresh, IsDistinct-filter keep [] rs d)
  | inr left ↦ rw left (IsDistinct-filter keep [] rs d)
]

builtin_proxies-IsDistinct : IsDistinct (builtin_proxies ++ relay_names [])
unfolding builtin_proxies contains str_beq
builtin_proxies-IsDistinct = (refl, (refl, (refl, (refl, (refl, (refl, (refl, tt)))))))

-- The relays of a plan have distinct names, none of which a built-in proxy has.
pub new_plan-relay_names :
    (a : Adapter) (cfg : Config) (p : Plan)
    → (new_plan a cfg).0 ≡ some p
    → IsDistinct (builtin_proxies ++ relay_names p.relays)
unfolding kept_relays HasOwnNames contains
new_plan-relay_names a cfg p h =
    let first : HasOwnNames [] start = (builtin_proxies-IsDistinct, λ name m. absurd (cc)) in
    let own = check_relays-HasOwnNames a cfg 0 [] cfg.relays start refl first in
    rw (new_plan-relays a cfg p h)
      (IsDistinct-filter _ builtin_proxies (checked_relays a cfg) own.0)
