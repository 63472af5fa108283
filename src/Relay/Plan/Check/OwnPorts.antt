-- ===== src/Relay/Plan/Check/OwnPorts.antt =====
-- `checkOwnPorts` accepts exactly the downstream lists whose entries can share their ports.
use proxy_proxy.Prelude.{List, [], ◌∷◌, ◌++◌, none, ◌≡◌, refl, sym, Memᴰ, ◌↔◌, inl, inr, arith}
use proxy_proxy.Prelude.Tests.{nat_eq, ◌==◌, Bool-cases, eq_of_beq}
use proxy_proxy.Prelude.Member.{All, All-mem}
use proxy_proxy.Prelude.Text.{is_empty, str_eq, str_beq_iff}
use proxy_proxy.Relay.Types.{Endpoint}
use proxy_proxy.Relay.Plan.Check.{check_own_port, check_own_ports_from, check_own_ports}
use mathlib.Core.List.Memᴰ

-- Two entries of one relay that share a port have one listen address, both have a username or
-- neither has, and one username has one password.
abbrev pub CanShare : Endpoint → Endpoint → Type 0
CanShare d e =
    d.port ≡ e.port
    → (d.listen ≡ e.listen)
      × (is_empty d.username ≡ is_empty e.username)
      × (d.username ≡ e.username → d.password ≡ e.password)

abbrev pub PairwiseCanShare : List Endpoint → Type 0
PairwiseCanShare [] = Unit
PairwiseCanShare (e ∷ eps) = All (CanShare e) eps × PairwiseCanShare eps

check_own_port_sound :
    (e : Endpoint) (before : List Endpoint)
    → check_own_port e before ≡ none
    → All (λ d. CanShare d e) before
unfolding check_own_port
check_own_port_sound e [] h = tt
check_own_port_sound e (d ∷ before) h = (
  λ q. (
    ground (arith, str_beq_iff d.listen e.listen),
    ground (arith, str_beq_iff d.listen e.listen),
    λ u. ground (
      arith,
      str_beq_iff d.listen e.listen,
      str_beq_iff d.username e.username,
      str_beq_iff d.password e.password,
    ),
  ),
  check_own_port_sound e before (ground arith),
)

check_own_port_complete :
    (e : Endpoint) (before : List Endpoint)
    → All (λ d. CanShare d e) before
    → check_own_port e before ≡ none
unfolding check_own_port
check_own_port_complete e [] h = refl
check_own_port_complete e (d ∷ before) (share, h) =
    let rest = check_own_port_complete e before h in
    elim (Bool-cases (d.port == e.port)) [
      | inr other ↦ rw other rest
      | inl same ↦
          let s = share (eq_of_beq d.port e.port same) in
          let listens = s.0 in
          let auth = s.1 in
          let password = s.2 in
          ground (
            arith,
            str_beq_iff d.listen e.listen,
            str_beq_iff d.username e.username,
            str_beq_iff d.password e.password,
          )
    ]

-- What the endpoints before `e` say of it, moved behind it.
All-concat :
    (before : List Endpoint) (e : Endpoint) (eps : List Endpoint)
    → All (λ f. All (λ d. CanShare d f) before) eps
    → All (CanShare e) eps
    → All (λ f. All (λ d. CanShare d f) (before ++ e ∷ [])) eps
All-concat before e [] h k = tt
All-concat before e (f ∷ eps) (h, hs) (k, ks) = (concat before h, All-concat before e eps hs ks)
  where
    concat :
        (before : List Endpoint)
        → All (λ d. CanShare d f) before
        → All (λ d. CanShare d f) (before ++ e ∷ [])
    concat [] g = (k, tt)
    concat (d ∷ before) (g, gs) = (g, concat before gs)

All-unconcat :
    (before : List Endpoint) (e : Endpoint) (eps : List Endpoint)
    → All (λ f. All (λ d. CanShare d f) (before ++ e ∷ [])) eps
    → All (λ f. All (λ d. CanShare d f) before) eps × All (CanShare e) eps
All-unconcat before e [] h = (tt, tt)
All-unconcat before e (f ∷ eps) (h, hs) =
    let (g, k) = split before h in let (gs, ks) = All-unconcat before e eps hs in ((g, gs), (k, ks))
  where
    split :
        (before : List Endpoint)
        → All (λ d. CanShare d f) (before ++ e ∷ [])
        → All (λ d. CanShare d f) before × CanShare e f
    split [] g = (tt, g.0)
    split (d ∷ before) (g, gs) = let (a, b) = split before gs in ((g, a), b)

check_own_ports_from_sound :
    (before eps : List Endpoint)
    → check_own_ports_from before eps ≡ none
    → All (λ f. All (λ d. CanShare d f) before) eps × PairwiseCanShare eps
unfolding check_own_ports_from
check_own_ports_from_sound before [] h = (tt, tt)
check_own_ports_from_sound before (e ∷ eps) h =
    let (share, pairs) = check_own_ports_from_sound (before ++ e ∷ []) eps (ground arith) in
    let (front, back) = All-unconcat before e eps share in
    ((check_own_port_sound e before (ground arith), front), (back, pairs))

check_own_ports_from_complete :
    (before eps : List Endpoint)
    → All (λ f. All (λ d. CanShare d f) before) eps
    → PairwiseCanShare eps
    → check_own_ports_from before eps ≡ none
unfolding check_own_ports_from
check_own_ports_from_complete before [] h p = refl
check_own_ports_from_complete before (e ∷ eps) (h, hs) (p, ps) = ground (
  arith,
  check_own_port_complete e before h,
  check_own_ports_from_complete (before ++ e ∷ []) eps (All-concat before e eps hs p) ps,
)

-- The check passes exactly when every two entries that share a port have one listen address, both
-- have a username or neither has, and one username has one password.
pub check_own_ports_iff :
    (eps : List Endpoint) → (check_own_ports eps ≡ none) ↔ PairwiseCanShare eps
unfolding check_own_ports
check_own_ports_iff eps = (
  λ h. (check_own_ports_from_sound [] eps h).1,
  λ p. check_own_ports_from_complete [] eps (no_share eps) p,
)
  where
    no_share : (eps : List Endpoint) → All (λ f. All (λ d. CanShare d f) []) eps
    no_share [] = tt
    no_share (e ∷ eps) = (tt, no_share eps)

CanShare-sym : (d e : Endpoint) → CanShare d e → CanShare e d
CanShare-sym d e share q = let s = share (sym q) in (sym s.0, sym s.1, λ u. sym (s.2 (sym u)))

CanShare-refl : (e : Endpoint) → CanShare e e
CanShare-refl e q = (refl, refl, λ u. refl)

pub CanShare-mem :
    (eps : List Endpoint) {d e : Endpoint}
    → PairwiseCanShare eps
    → Memᴰ d eps
    → Memᴰ e eps
    → CanShare d e
CanShare-mem [] p m n = elim m [ ]
CanShare-mem (f ∷ eps) {d} {e} (front, p) m n = elim (Memᴰ.cases_cons m) [
  | inl d_is ↦ elim (Memᴰ.cases_cons n) [
    | inl e_is ↦ rw (d_is, e_is) (CanShare-refl f)
    | inr n' ↦ rw d_is (All-mem (CanShare f) eps front n')
  ]
  | inr m' ↦ elim (Memᴰ.cases_cons n) [
    | inl e_is ↦ rw e_is (CanShare-sym f d (All-mem (CanShare f) eps front m'))
    | inr n' ↦ CanShare-mem eps p m' n'
  ]
]
