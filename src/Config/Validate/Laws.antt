-- ===== src/Config/Validate/Laws.antt =====
-- What `validate` guarantees of a configuration to everything that uses it.
use proxy_proxy.Prelude.{List, [], map, ◌≡◌, ◌≢◌}
use proxy_proxy.Prelude.Member.{All, IsDistinct}
use proxy_proxy.Prelude.Int.{pos, ◌≤ℤ◌}
use proxy_proxy.Prelude.Text.{Str, str_eq}
use proxy_proxy.Config.Types.{Key, Config, sub_names, fetched_sub_names}
use proxy_proxy.Config.Source.{Platform}
use proxy_proxy.Config.RelaySubs.Lists.{urls_of}
use proxy_proxy.Config.RelaySubs.Invariant.{AreSlow, IsResolved}
use proxy_proxy.Config.RelaySubs.Asked.{AreAsked}
use proxy_proxy.Config.RelaySubs.Laws.{upstreams_of, unresolved_relay}
use proxy_proxy.Config.Validate.Subs.{Pairwise, IsValidated}
use proxy_proxy.Config.Validate.Keys.{AreKeys, allowed}

abbrev pub IsResolvedKey : List Str → Key → Key → Type 0
IsResolvedKey names k k' =
    (k'.key ≡ k.key) × (k'.allowed_subs ≡ k.allowed_subs) × (k'.resolved ≡ allowed names k)

-- What the program relies on.
pub record IsValid (p : Platform) (c c' : Config) : Type 0 where
  pub some_sub : c'.subs ≢ []
  pub subs_validated : Pairwise (IsValidated p) c.subs c'.subs
  pub names_distinct : IsDistinct (fetched_sub_names c')
  pub urls_distinct : IsDistinct (urls_of c'.relay_subs)
  pub relay_subs_slow : AreSlow c'.relay_subs
  pub relay_subs_asked : AreAsked (upstreams_of c.relays) c'.relay_subs
  pub keys_valid : AreKeys (sub_names c') [] c.keys
  pub keys_resolved : Pairwise (IsResolvedKey (sub_names c')) c.keys c'.keys
  pub upstreams_resolved : All (IsResolved p c'.relay_subs) (upstreams_of c'.relays)
  pub listen_kept : c.listen ≢ [] → c'.listen ≡ c.listen
  pub user_agent_kept : c.user_agent ≢ [] → c'.user_agent ≡ c.user_agent
  pub timeout_kept : pos 1 ≤ℤ c.timeout → c'.timeout ≡ c.timeout
  pub relays_kept : map unresolved_relay c'.relays ≡ map unresolved_relay c.relays
