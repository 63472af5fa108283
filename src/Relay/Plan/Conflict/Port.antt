-- ===== src/Relay/Plan/Conflict/Port.antt =====
-- One port of `findConflicts` rejects exactly the relays that clash on it.
use proxy_proxy.Prelude.{
  ℕ, ◌<◌, List, [], ◌∷◌, map, true, ◌≡◌, ◌≢◌, refl, Memᴰ, ◌⊎◌, ◌↔◌, inl, inr, arith,
}
use proxy_proxy.Prelude.Tests.{ltb, nat_eq, Bool-cases}
use proxy_proxy.Prelude.Lists.{length}
use proxy_proxy.Prelude.Dict.{Dict, lookup}
use proxy_proxy.Prelude.Member.{
  uniques, uniques_from-IsDistinct, mem-uniques_from, mem-uniques_from_seen, mem-uniques_from_of,
  eq_of_short, other_of_long,
}
use proxy_proxy.Prelude.Text.{Str, str_eq}
use proxy_proxy.Relay.Types.{Endpoint, Reason}
use proxy_proxy.Relay.Plan.Group.{slice_of}
use proxy_proxy.Relay.Plan.Conflict.{Verdict, reject, judge_users}
use mathlib.Core.List.Memᴰ

abbrev pub relays_of : List Endpoint → List Str
relays_of eps = uniques (map (λ e. e.relay) eps)

module _ (f : Endpoint → Str) (eps : List Endpoint) where
  pub mem-field : {e : Endpoint} → Memᴰ e eps → Memᴰ (f e) (uniques (map f eps))
  mem-field m = mem-uniques_from_of [] (map f eps) (Memᴰ.map f m)

  pub field_of_mem :
      {s : Str} → Memᴰ s (uniques (map f eps)) → (e : Endpoint) × Memᴰ e eps × (f e ≡ s)
  field_of_mem m = elim (mem-uniques_from [] (map f eps) m) [
    | inl bad ↦ elim bad [ ]
    | inr found ↦ Memᴰ.of_map f eps found
  ]

  -- If the field takes two values, some endpoint differs from any given value.
  pub field_differs :
      (s : Str)
      → ltb 1 (length (uniques (map f eps))) ≡ true
      → (e : Endpoint) × Memᴰ e eps × (f e ≢ s)
  field_differs s long =
      let (b, m, ne) =
        other_of_long (uniques (map f eps)) s (uniques_from-IsDistinct [] (map f eps) tt)
          (ground arith) in
      let (e, me, q) = field_of_mem m in (e, me, rw q ne)

  -- If it takes only one, all endpoints agree.
  pub field_agrees :
      {d e : Endpoint} → length (uniques (map f eps)) < 2 → Memᴰ d eps → Memᴰ e eps → f d ≡ f e
  field_agrees short m n = eq_of_short (uniques (map f eps)) short (mem-field m) (mem-field n)

pub mem-reject :
    (port : ℕ) (why : Reason) (relays : List Str) (v : Verdict) {r : Str}
    → Memᴰ r (reject port why relays v).rejected ↔ (Memᴰ r v.rejected ⊎ Memᴰ r relays)
unfolding reject
mem-reject port why relays v = (
  mem-uniques_from v.rejected relays,
  λ m. elim m [
    | inl old ↦ mem-uniques_from_seen v.rejected relays old
    | inr new ↦ mem-uniques_from_of v.rejected relays new
  ],
)

-- Some username of the list is used by two relays, one of them `r`.
abbrev pub SharedUser : Dict Str (List Str) → List Str → Str → Type 0
SharedUser owners us r =
    (u : Str) × Memᴰ u us
    × (ltb 1 (length (slice_of (lookup u owners))) ≡ true)
    × Memᴰ r (slice_of (lookup u owners))

pub mem-judge_users :
    (port : ℕ) (owners : Dict Str (List Str)) (us : List Str) (v : Verdict) {r : Str}
    → Memᴰ r (judge_users port owners us v).rejected
    → Memᴰ r v.rejected ⊎ SharedUser owners us r
unfolding judge_users
mem-judge_users port owners [] v m = inl m
mem-judge_users port owners (u ∷ us) v m = elim (mem-judge_users port owners us _ m) [
  | inr (u', mu, long, mr) ↦ inr (u', Memᴰ.tail mu, long, mr)
  | inl m' ↦ elim (Bool-cases (ltb 1 (length (slice_of (lookup u owners))))) [
    | inr short ↦ inl (rw short at m')
    | inl long ↦ elim ((mem-reject port _ _ v).0 (rw long at m')) [
      | inl old ↦ inl old
      | inr new ↦ inr (u, Memᴰ.head refl, long, new)
    ]
  ]
]

pub judge_users-keeps :
    (port : ℕ) (owners : Dict Str (List Str)) (us : List Str) (v : Verdict) {r : Str}
    → Memᴰ r v.rejected
    → Memᴰ r (judge_users port owners us v).rejected
unfolding judge_users
judge_users-keeps port owners [] v m = m
judge_users-keeps port owners (u ∷ us) v m =
    judge_users-keeps port owners us _
      (elim (Bool-cases (ltb 1 (length (slice_of (lookup u owners))))) [
        | inr short ↦ rw short m
        | inl long ↦ rw long ((mem-reject port _ _ v).1 (inl m))
      ])

pub judge_users-rejects :
    (port : ℕ) (owners : Dict Str (List Str)) (us : List Str) (v : Verdict) {r : Str}
    → SharedUser owners us r
    → Memᴰ r (judge_users port owners us v).rejected
unfolding judge_users
judge_users-rejects port owners [] v (u, m, long, mr) = elim m [ ]
judge_users-rejects port owners (u ∷ us) v (u', Memᴰ.tail m, long, mr) =
    judge_users-rejects port owners us _ (u', m, long, mr)
judge_users-rejects port owners (u ∷ us) v (u', Memᴰ.head same, long, mr) =
    let long' : ltb 1 (length (slice_of (lookup u owners))) ≡ true = rw (← same) long in
    judge_users-keeps port owners us _ (rw long' ((mem-reject port _ _ v).1 (inr (rw (← same) mr))))
