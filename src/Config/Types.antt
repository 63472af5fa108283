-- ===== src/Config/Types.antt =====
-- internal/config/config.go: the types of the configuration. A duration is in nanoseconds.
use proxy_proxy.Prelude.{List, Option, map, ◌++◌}
use proxy_proxy.Prelude.Int.{ℤ}
use proxy_proxy.Prelude.Text.{Str, lit, has_prefix, to_lower}
use proxy_proxy.Prelude.{Bool, ◌||◌}
use proxy_proxy.Node.Value.{Object}

pub record Sub : Type 0 where
  pub name : Str
  pub url : Str
  pub file : Str
  pub typ : Str
  pub interval : ℤ

pub record Key : Type 0 where
  pub key : Str
  pub allowed_subs : List Str
  pub resolved : List Str

pub record Upstream : Type 0 where
  pub sub : Str
  pub interval : ℤ
  pub proxy : Option Object
  pub sub_name : Str

pub record Downstream : Type 0 where
  pub typ : Str
  pub listen : Str
  pub port : ℤ
  pub username : Str
  pub password : Str

pub record Relay : Type 0 where
  pub name : Str
  pub strategy : Str
  pub upstream : List Upstream
  pub downstream : List Downstream

pub record Config : Type 0 where
  pub listen : Str
  pub user_agent : Str
  pub timeout : ℤ
  pub subs : List Sub
  pub keys : List Key
  pub relays : List Relay
  pub relay_subs : List Sub

unfoldable pub sub_names : Config → List Str
sub_names c = map (λ s. s.name) c.subs

unfoldable pub fetched_subs : Config → List Sub
fetched_subs c = c.subs ++ c.relay_subs

unfoldable pub fetched_sub_names : Config → List Str
unfolding sub_names
fetched_sub_names c = sub_names c ++ map (λ s. s.name) c.relay_subs

unfoldable pub is_sub_url : Str → Bool
is_sub_url s =
    let lower = to_lower s in has_prefix lower (lit "http://") || has_prefix lower (lit "https://")
