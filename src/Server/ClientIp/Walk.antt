-- ===== src/Server/ClientIp/Walk.antt =====
-- The walk over the hops past the trusted proxies.
use proxy_proxy.Prelude.{
  ℕ, suc, ◌+◌, List, [], ◌∷◌, ◌++◌, reverse, none, some, true, false, ◌≡◌, ◌⊎◌, inl, inr, refl, sym,
  ap, ◌∙◌, arith, Memᴰ,
}
use proxy_proxy.Prelude.Tests.{Bool-cases, Option-cases, Result, ok, err}
use proxy_proxy.Prelude.Lists.{length}
use proxy_proxy.Prelude.Dict.{Dict}
use proxy_proxy.Prelude.Member.{All}
use proxy_proxy.Prelude.Text.{Str}
use proxy_proxy.Server.ClientIp.{
  ResolveError, bad_hop_address, header_values, hops_of, forwarded_addr, trusts_proxy, walk_hops,
  parse_direct_addr, resolve_trusted,
}
use proxy_proxy.Server.IpSource.{Netip, Trusted, xff_header}
use proxy_proxy.Server.ClientIp.Hops.{hops_of-append}
use mathlib.Core.List.{reverse-append}
use mathlib.Core.List.Memᴰ
use mathlib.Core.Path.{subst}

module _ (N : Netip) (t : Trusted N) where
  -- A hop that is the address of a trusted proxy.
  abbrev pub IsProxy : Str → Type 0
  IsProxy h = (a : N.Addr) × (forwarded_addr N h ≡ some a) × (trusts_proxy N t a ≡ true)

  -- A hop where the walk ends: it is no address, or one that is not trusted.
  abbrev pub Ends : ℕ → Str → Result ResolveError Str → Type 0
  Ends i h r =
      ((forwarded_addr N h ≡ none) × (r ≡ err (bad_hop_address i h)))
      ⊎ ((a : N.Addr) × (forwarded_addr N h ≡ some a)
          × (trusts_proxy N t a ≡ false)
          × (r ≡ ok (N.addr_string a)))

  -- The address at the end of a chain of proxies.
  unfoldable pub last_addr : N.Addr → List Str → N.Addr
  last_addr origin [] = origin
  last_addr origin (h ∷ hops) =
      last_addr (elim (forwarded_addr N h) [ none ↦ origin | some a ↦ a ]) hops

  -- How the walk over the hops, from the right, ends: at the first hop that is no trusted proxy, or
  -- past the leftmost one.
  abbrev pub IsWalk : ℕ → N.Addr → List Str → Result ResolveError Str → Type 0
  IsWalk i origin hops r =
      ((proxies : List Str) × (h : Str) × (rest : List Str) × (hops ≡ proxies ++ h ∷ rest)
        × All IsProxy proxies
        × Ends (i + length proxies) h r)
      ⊎ (All IsProxy hops × (r ≡ ok (N.addr_string (last_addr origin hops))))

  IsWalk-step :
      (i : ℕ) (origin a : N.Addr) (h : Str) (hops : List Str) (r : Result ResolveError Str)
      → forwarded_addr N h ≡ some a
      → trusts_proxy N t a ≡ true
      → IsWalk (suc i) a hops r
      → IsWalk i origin (h ∷ hops) r
  unfolding last_addr
  IsWalk-step i origin a h hops r addr trusted (inl (proxies, k, rest, eq, all, ends)) =
      let shift : suc i + length proxies ≡ i + suc (length proxies) = omega arith in
      inl (h ∷ proxies, k, rest, ap (◌∷◌ h) eq, ((a, addr, trusted), all), rw (← shift) ends)
  IsWalk-step i origin a h hops r addr trusted (inr (all, eq)) =
      inr (((a, addr, trusted), all), eq ∙ (rw addr refl))

  walk_hops-IsWalk :
      (i : ℕ) (origin : N.Addr) (hops : List Str)
      → IsWalk i origin hops (walk_hops N t i origin hops)
  unfolding walk_hops last_addr
  walk_hops-IsWalk i origin [] = inr (tt, refl)
  walk_hops-IsWalk i origin (h ∷ hops) =
      let here : i ≡ i + 0 = omega arith in
      elim (Option-cases (forwarded_addr N h)) [
        | inl bad ↦
            rw (bad, walk_hops)
              (inl ([], h, hops, refl, tt, inl (bad, ap (λ n. err (bad_hop_address n h)) here)))
        | inr (a, addr) ↦ elim (Bool-cases (trusts_proxy N t a)) [
          | inr client ↦
              rw (addr, client, walk_hops)
                (inl ([], h, hops, refl, tt, inr (a, addr, client, refl)))
          | inl proxy ↦
              let eq : walk_hops N t i origin (h ∷ hops) ≡ walk_hops N t (suc i) a hops =
                rw (addr, proxy, walk_hops) refl in
              subst (IsWalk i origin (h ∷ hops)) (sym eq) (
                IsWalk-step i origin a h hops (walk_hops N t (suc i) a hops) addr proxy
                  (walk_hops-IsWalk (suc i) a hops))
        ]
      ]

  -- What stands to the left of a hop that is no trusted proxy has no effect.
  walk_hops-append :
      (i : ℕ) (origin : N.Addr) (hops left : List Str) (h : Str)
      → Memᴰ h hops
      → ¬ IsProxy h
      → walk_hops N t i origin (hops ++ left) ≡ walk_hops N t i origin hops
  unfolding walk_hops
  walk_hops-append i origin [] left h m not_proxy = elim m [ ]
  walk_hops-append i origin (k ∷ hops) left h m not_proxy =
      elim (Option-cases (forwarded_addr N k)) [
        | inl bad ↦ rw (bad, walk_hops) refl
        | inr (a, addr) ↦ elim (Bool-cases (trusts_proxy N t a)) [
          | inr client ↦ rw (addr, client, walk_hops) refl
          | inl proxy ↦ elim (Memᴰ.cases_cons m) [
            | inl same ↦ absurd (not_proxy (rw same (a, addr, proxy)))
            | inr later ↦
                rw (addr, proxy, walk_hops) (walk_hops-append (suc i) a hops left h later not_proxy)
          ]
        ]
      ]

  -- Which client `resolveTrustedXFFIP` finds behind a trusted peer: the hops are read from the right,
  -- and the first that is no trusted proxy is the client, or an error with its number if it is no
  -- address; where all hops are trusted proxies it is the leftmost one.
  pub resolve_trusted-IsWalk :
      (headers : Dict Str (List Str)) (remote : Str) (origin : N.Addr) (v : Str) (vs : List Str)
      → parse_direct_addr N remote ≡ ok origin
      → trusts_proxy N t origin ≡ true
      → header_values N xff_header headers ≡ v ∷ vs
      → IsWalk 1 origin (reverse (hops_of (v ∷ vs))) (resolve_trusted N t headers remote)
  unfolding resolve_trusted
  resolve_trusted-IsWalk headers remote origin v vs peer trusted values =
      rw (peer, trusted, values, resolve_trusted)
        (walk_hops-IsWalk 1 origin (reverse (hops_of (v ∷ vs))))

  resolve_trusted-walk :
      (headers : Dict Str (List Str)) (remote : Str) (origin : N.Addr) (v : Str) (vs : List Str)
      → parse_direct_addr N remote ≡ ok origin
      → trusts_proxy N t origin ≡ true
      → header_values N xff_header headers ≡ v ∷ vs
      → resolve_trusted N t headers remote ≡ walk_hops N t 1 origin (reverse (hops_of (v ∷ vs)))
  unfolding resolve_trusted
  resolve_trusted-walk headers remote origin v vs peer trusted values =
      rw (peer, trusted, values, resolve_trusted) refl

  -- A caller cannot choose the client that `resolveTrustedXFFIP` finds behind a trusted peer: values
  -- that it puts in front of those of the proxies change nothing, as long as the proxies' values have
  -- a hop that is no trusted proxy.
  pub resolve_trusted-forged :
      (headers forged : Dict Str (List Str)) (remote : Str) (origin : N.Addr) (u : Str)
      (us : List Str) (v : Str) (vs : List Str) (h : Str)
      → parse_direct_addr N remote ≡ ok origin
      → trusts_proxy N t origin ≡ true
      → header_values N xff_header headers ≡ v ∷ vs
      → header_values N xff_header forged ≡ (u ∷ us) ++ v ∷ vs
      → Memᴰ h (reverse (hops_of (v ∷ vs)))
      → ¬ IsProxy h
      → resolve_trusted N t forged remote ≡ resolve_trusted N t headers remote
  resolve_trusted-forged headers forged remote origin u us v vs h peer trusted real longer m ne =
      let more =
        ap reverse (hops_of-append u us v vs)
        ∙ reverse-append (hops_of (u ∷ us)) (hops_of (v ∷ vs)) in
      resolve_trusted-walk forged remote origin u (us ++ v ∷ vs) peer trusted longer
      ∙ (ap (walk_hops N t 1 origin) more
          ∙ (walk_hops-append 1 origin (reverse (hops_of (v ∷ vs))) (reverse (hops_of (u ∷ us))) h m
                ne
              ∙ sym (resolve_trusted-walk headers remote origin v vs peer trusted real)))
