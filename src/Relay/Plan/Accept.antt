-- ===== src/Relay/Plan/Accept.antt =====
-- The first loop of `NewPlan`: each accepted relay has a name of its own, and its endpoints have
-- passed their checks.
use proxy_proxy.Prelude.{
  ℕ, suc, List, [], ◌∷◌, Option, none, some, false, not, ◌&&◌, ◌≡◌, refl, sym, ap, ◌∙◌, Memᴰ, inl,
  inr, arith,
}
use proxy_proxy.Prelude.Tests.{Result-cases, ok_inj, ok, ◌==◌, ltb, Bool-cases, beq_refl, beq_of_eq}
use proxy_proxy.Prelude.Lists.{filter}
use proxy_proxy.Prelude.Int.{ℤ}
use proxy_proxy.Prelude.Text.{Str, str_eq, is_empty}
use proxy_proxy.Config.Types.{Config, Relay, Downstream, fetched_sub_names}
use proxy_proxy.Relay.Types.{Endpoint, RelaySpec, Adapter}
use proxy_proxy.Relay.Plan.{Checked, start, check_relay, check_relays, name_count, listen_port}
use proxy_proxy.Relay.Plan.Check.{
  check_relay_name, check_own_ports, check_downstream, check_downstreams, validate_relay, guard,
  wrap,
}
use proxy_proxy.Relay.Plan.Check.OwnPorts.{CanShare-mem, check_own_ports_iff}
use proxy_proxy.Relay.Plan.Isolation.{OwnShare}
use proxy_proxy.Prelude.Member.{eq_of_short, mem-filter_of}
use mathlib.Core.List.Memᴰ

guard-eq-ok {ℓ} : {E : Type ℓ} (o : Option E) (u : Unit {0}) → guard o ≡ ok u → o ≡ none
guard-eq-ok none u h = refl
guard-eq-ok (some e) u h = absurd (cc)

wrap-eq-none {ℓ κ} :
    {A : Type ℓ} {B : Type κ} (f : A → B) (o : Option A) → wrap f o ≡ none → o ≡ none
wrap-eq-none f none h = refl
wrap-eq-none f (some a) h = absurd (cc)

-- Inversion of a successful loop over the downstream entries.
check_downstreams-cons :
    (relay : Str) (own_port : ℤ) (i : ℕ) (d : Downstream) (ds : List Downstream)
    {eps : List Endpoint}
    → check_downstreams relay own_port i (d ∷ ds) ≡ ok eps
    → (e : Endpoint) × (rest : List Endpoint) × (check_downstream d own_port ≡ ok e)
      × (check_downstreams relay own_port (suc i) ds ≡ ok rest)
      × (record e { relay = relay } ∷ rest ≡ eps)
unfolding check_downstreams
check_downstreams-cons relay own_port i d ds h = elim (Result-cases (check_downstream d own_port)) [
  | inr (x, bad) ↦ let h' = rw (bad, check_downstreams) at h in absurd (cc)
  | inl (e, good) ↦ elim (Result-cases (check_downstreams relay own_port (suc i) ds)) [
    | inr (x, bad) ↦ let h' = rw (good, check_downstreams, bad) at h in absurd (cc)
    | inl (rest, more) ↦ (e, rest, good, more, ok_inj (rw (good, check_downstreams, more) at h))
  ]
]

-- Every endpoint of a relay bears its name, and comes from one of its entries.
pub check_downstreams-endpoint :
    (relay : Str) (own_port : ℤ) (i : ℕ) (ds : List Downstream) {eps : List Endpoint} {e : Endpoint}
    → check_downstreams relay own_port i ds ≡ ok eps
    → Memᴰ e eps
    → (d : Downstream) × (e' : Endpoint) × Memᴰ d ds
      × (check_downstream d own_port ≡ ok e')
      × (record e' { relay = relay } ≡ e)
unfolding check_downstreams
check_downstreams-endpoint relay own_port i [] {eps} {e} h m =
    let none_here : Memᴰ e [] = rw (← ok_inj h) at m in elim none_here [ ]
check_downstreams-endpoint relay own_port i (d ∷ ds) {eps} {e} h m =
    let (e', rest, good, more, q) = check_downstreams-cons relay own_port i d ds h in
    let m' : Memᴰ e (record e' { relay = relay } ∷ rest) = rw q m in
    elim (Memᴰ.cases_cons m') [
      | inl same ↦ (d, e', Memᴰ.head refl, good, sym same)
      | inr later ↦
          let (d', e'', k, good', q') =
            check_downstreams-endpoint relay own_port (suc i) ds more later in
          (d', e'', Memᴰ.tail k, good', q')
    ]

-- What a relay that `validateRelay` accepts has passed.
pub record Passed (own_port : ℤ) (r : Relay) (spec : RelaySpec) (eps : List Endpoint) : Type 0 where
  pub name : check_relay_name r.name ≡ none
  pub spec_name : spec.name ≡ r.name
  pub downstreams : check_downstreams r.name own_port 0 r.downstream ≡ ok eps
  pub own_ports : check_own_ports eps ≡ none

pub validate_relay-Passed :
    (a : Adapter) (known : List Str) (own_port : ℤ) (r : Relay) {spec : RelaySpec}
    {eps : List Endpoint}
    → validate_relay a known own_port r ≡ ok (spec, eps)
    → Passed own_port r spec eps
unfolding validate_relay
validate_relay-Passed a known own_port r {spec} {eps} h = record {
  name = ground arith;
  spec_name = ground arith;
  downstreams = ground arith;
  own_ports = ground arith;
}

-- The endpoint comes from a relay of the configuration that has passed its checks and whose name
-- no other relay has.
pub record IsAccepted (cfg : Config) (e : Endpoint) : Type 0 where
  pub relay : Relay
  pub spec : RelaySpec
  pub eps : List Endpoint
  pub listed : Memᴰ relay cfg.relays
  pub unique : ltb 1 (name_count relay.name cfg.relays) ≡ false
  pub passed : Passed (listen_port cfg.listen) relay spec eps
  pub mine : Memᴰ e eps

pub not-empty_of_name : (name : Str) → check_relay_name name ≡ none → is_empty name ≡ false
unfolding check_relay_name
not-empty_of_name name h = ground arith

module _ (a : Adapter) (cfg : Config) where
  check_relay-IsAccepted :
      (i : ℕ) (r : Relay) (c : Checked)
      → Memᴰ r cfg.relays
      → ((e : Endpoint) → Memᴰ e c.endpoints → IsAccepted cfg e)
      → (e : Endpoint) → Memᴰ e (check_relay a cfg i r c).endpoints
      → IsAccepted cfg e
  unfolding check_relay
  check_relay-IsAccepted i r c mr old e m =
      elim (Bool-cases (not (is_empty r.name) && ltb 1 (name_count r.name cfg.relays))) [
        | inl repeated ↦ old e (rw repeated at m)
        | inr single ↦
            elim (Result-cases
              (validate_relay a (fetched_sub_names cfg) (listen_port cfg.listen) r)) [
                | inr (x, bad) ↦ old e (rw (single, bad, check_relay) at m)
                | inl ((spec, eps), good) ↦
                    elim (Memᴰ.append_cases c.endpoints (rw (single, good, check_relay) at m)) [
                      | inl before ↦ old e before
                      | inr new ↦
                          let p = validate_relay-Passed a _ _ r good in
                          record {
                            relay = r;
                            spec = spec;
                            eps = eps;
                            listed = mr;
                            unique = ground (arith, not-empty_of_name r.name p.name);
                            passed = p;
                            mine = new;
                          }
                    ]
              ]
      ]

  check_relays-IsAccepted :
      (i : ℕ) (rs : List Relay) (c : Checked)
      → ((r : Relay) → Memᴰ r rs → Memᴰ r cfg.relays)
      → ((e : Endpoint) → Memᴰ e c.endpoints → IsAccepted cfg e)
      → (e : Endpoint) → Memᴰ e (check_relays a cfg i rs c).endpoints
      → IsAccepted cfg e
  unfolding check_relays
  check_relays-IsAccepted i [] c sub old = old
  check_relays-IsAccepted i (r ∷ rs) c sub old =
      check_relays-IsAccepted (suc i) rs (check_relay a cfg i r c) (λ r' m. sub r' (Memᴰ.tail m))
        (check_relay-IsAccepted i r c (sub r (Memᴰ.head refl)) old)

  -- Every endpoint of the first loop of `NewPlan` is accepted.
  pub checked-IsAccepted :
      (e : Endpoint) → Memᴰ e (check_relays a cfg 0 cfg.relays start).endpoints → IsAccepted cfg e
  checked-IsAccepted = check_relays-IsAccepted 0 cfg.relays start (λ r m. m) (λ e m. elim m [ ])

relay_of_name :
    (rs : List Relay) {r r' : Relay}
    → ltb 1 (name_count r.name rs) ≡ false
    → Memᴰ r rs
    → Memᴰ r' rs
    → r'.name ≡ r.name
    → r ≡ r'
unfolding name_count
relay_of_name rs {r} {r'} single m m' q =
    eq_of_short (filter (λ x. x.name == r.name) rs) (ground arith)
      (mem-filter_of (λ x. x.name == r.name) rs m (beq_refl r.name))
      (mem-filter_of (λ x. x.name == r.name) rs m' (beq_of_eq r'.name r.name q))

pub IsAccepted-relay : {cfg : Config} {e : Endpoint} (h : IsAccepted cfg e) → e.relay ≡ h.relay.name
IsAccepted-relay h =
    let (d, e', m, good, q) =
      check_downstreams-endpoint h.relay.name _ 0 h.relay.downstream h.passed.downstreams h.mine in
    ap (λ (e : Endpoint). e.relay) (sym q)

-- The endpoints of one relay can share their ports.
pub checked-OwnShare :
    (a : Adapter) (cfg : Config) → OwnShare (check_relays a cfg 0 cfg.relays start).endpoints
checked-OwnShare a cfg d e md me same =
    let hd = checked-IsAccepted a cfg d md in
    let he = checked-IsAccepted a cfg e me in
    let one_relay =
      relay_of_name cfg.relays hd.unique hd.listed he.listed
        (sym (IsAccepted-relay he) ∙ (sym same ∙ IsAccepted-relay hd)) in
    let own = listen_port cfg.listen in
    let one_list = ok_inj (
      sym hd.passed.downstreams
      ∙ (ap (λ (r : Relay). check_downstreams r.name own 0 r.downstream) one_relay
          ∙ he.passed.downstreams)) in
    CanShare-mem he.eps {d = d} {e = e} ((check_own_ports_iff he.eps).0 he.passed.own_ports)
      (rw (← one_list) hd.mine) he.mine
