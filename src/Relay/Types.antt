-- ===== src/Relay/Types.antt =====
-- internal/relay/plan.go: the types of a plan, its tables, and the errors of its validation.
use proxy_proxy.Prelude.{ℕ, List, [], ◌∷◌, Option}
use proxy_proxy.Prelude.Tests.{Result}
use proxy_proxy.Prelude.Dict.{Dict}
use proxy_proxy.Prelude.Int.{ℤ}
use proxy_proxy.Prelude.Text.{Str, lit, str_eq}
use proxy_proxy.Node.Value.{Object}

-- `load_balance` is empty unless `group_type` is load-balance.
pub record Strategy : Type 0 where
  pub group_type : Str
  pub load_balance : Str

unfoldable pub strategies : Dict Str Strategy
unfolding lit
strategies =
    (lit "url-test", record { group_type = lit "url-test"; load_balance = [] })
    ∷ (lit "fallback", record { group_type = lit "fallback"; load_balance = [] })
    ∷ (
      lit "round-robin",
      record { group_type = lit "load-balance"; load_balance = lit "round-robin" },
    )
    ∷ (
      lit "consistent-hashing",
      record { group_type = lit "load-balance"; load_balance = lit "consistent-hashing" },
    )
    ∷ (
      lit "sticky-sessions",
      record { group_type = lit "load-balance"; load_balance = lit "sticky-sessions" },
    )
    ∷ []

-- From a downstream type to the listener type of mihomo.
unfoldable pub listener_types : Dict Str Str
unfolding lit
listener_types =
    (lit "http", lit "http") ∷ (lit "socks5", lit "socks") ∷ (lit "mixed", lit "mixed") ∷ []

unfoldable pub builtin_proxies : List Str
unfolding lit
builtin_proxies =
    lit "DIRECT"
    ∷ lit "REJECT"
    ∷ lit "REJECT-DROP"
    ∷ lit "PASS"
    ∷ lit "PASS-RULE"
    ∷ lit "COMPATIBLE"
    ∷ lit "GLOBAL"
    ∷ []

-- Exactly one of an inline proxy and the store name of a sub.
pub record UpstreamSpec : Type 0 where
  pub proxy : Option Object
  pub sub : Str

pub record RelaySpec : Type 0 where
  pub name : Str
  pub strategy : Str
  pub upstreams : List UpstreamSpec

-- A validated downstream entry; its port lies between 1 and 65535.
pub record Endpoint : Type 0 where
  pub relay : Str
  pub typ : Str
  pub listen : Str
  pub port : ℕ
  pub username : Str
  pub password : Str

pub record ListenerSpec : Type 0 where
  pub name : Str
  pub typ : Str
  pub listen : Str
  pub port : ℕ
  pub relay : Str
  pub users : List Endpoint

pub record Plan : Type 0 where
  pub relays : List RelaySpec
  pub listeners : List ListenerSpec

pub data NameError : Type 0 where
  name_required : NameError
  bad_name reserved_name : Str → NameError

pub data DownstreamError : Type 0 where
  unknown_type : Str → DownstreamError
  port_required : DownstreamError
  port_out_of_range own_listen_port : ℤ → DownstreamError
  password_without_username username_without_password : DownstreamError
  bad_username : Str → DownstreamError

pub data OwnPortError : Type 0 where
  listens_differ : ℕ → Str → Str → OwnPortError
  mixed_auth : ℕ → OwnPortError
  two_passwords : ℕ → Str → OwnPortError

-- The number is the index of the upstream or downstream entry.
pub data RelayError : Type 0 where
  name_error : NameError → RelayError
  unknown_strategy : Str → RelayError
  no_upstream : RelayError
  invalid_sub_url unknown_sub interval_on_name : ℕ → Str → RelayError
  bad_proxy : ℕ → Str → RelayError
  no_downstream : RelayError
  downstream_error : ℕ → DownstreamError → RelayError
  own_port_error : OwnPortError → RelayError

pub data Reason : Type 0 where
  different_listens no_username : Reason
  shared_username : Str → Reason

-- A rejected relay is named, or given by its index where the name is empty.
pub data PlanError : Type 0 where
  duplicate_name : Str → PlanError
  relay_error : ℕ → Str → RelayError → PlanError
  conflict : ℕ → Reason → List Str → PlanError

-- mihomo's `adapter.ParseProxy`, and `Close` of the proxy that it returns.
pub record Adapter : Type 1 where
  pub Proxy : Type 0
  pub parse_proxy : Object → Result Str Proxy
  pub close : Proxy → Option Str
