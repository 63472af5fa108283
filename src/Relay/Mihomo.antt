-- ===== src/Relay/Mihomo.antt =====
-- internal/relay/core.go: the parts of mihomo that the core calls, and the state of the core.
use proxy_proxy.Prelude.{ℕ, ◌*◌, List, [], Option, none, Bool, false}
use proxy_proxy.Prelude.Tests.{Eq, Result}
use proxy_proxy.Prelude.Dict.{Dict}
use proxy_proxy.Prelude.Text.{Str, lit, str_eq}
use proxy_proxy.Node.Value.{object, Object, get}
use proxy_proxy.Node.Sprint.{str, sprint}
use proxy_proxy.Relay.Render.{route_eq, Desired}

-- In nanoseconds, five minutes.
abbrev pub drain_timeout : ℕ
drain_timeout = 5 * 60 * 1000000000

-- The part of mihomo that builds objects. Each call that builds one changes the heap; `proxy_eq`
-- tells whether two are the same object. A group fills in its provider; a missing one is `no_provider`.
-- `parse_general` parses the general configuration, and answers its built-in proxies.
pub record Mihomo : Type 1 where
  pub Heap : Type 0
  pub Proxy : Type 0
  pub Group : Type 0
  pub Provider : Type 0
  pub Rule : Type 0
  pub Listener : Type 0
  pub proxy_eq : Eq Proxy
  pub no_provider : Provider
  pub parse_general : Heap → Result Str (Dict Str Proxy) × Heap
  pub parse_proxy : Object → Heap → Result Str Proxy × Heap
  pub parse_group :
      Object
      → Dict Str Proxy
      → Dict Str Provider
      → Heap
      → Result Str (Group × Dict Str Provider) × Heap
  pub new_proxy : Group → Heap → Proxy × Heap
  pub parse_rule : Str → Result Str Rule
  pub parse_listener : Object → Result Str Listener
  pub listener_name : Listener → Str

-- `key` is the mihomo config that the proxy was built from.
pub record LiveProxy (M : Mihomo) : Type 0 where
  pub key : Str
  pub proxy : M.Proxy

pub record LiveGroup (M : Mihomo) : Type 0 where
  pub key : Str
  pub proxy : M.Proxy
  pub provider : M.Provider

pub record Core (M : Mihomo) : Type 0 where
  pub started : Bool
  pub builtins : Dict Str M.Proxy
  pub current : Option Desired
  pub proxies : Dict Str (LiveProxy M)
  pub groups : Dict Str (LiveGroup M)
  pub draining : Dict Str ℕ

-- `newCore`
abbrev pub new_core : (M : Mihomo) → Core M
new_core M = record {
  started = false;
  builtins = [];
  current = none;
  proxies = [];
  groups = [];
  draining = [];
}

pub record ApplyStats : Type 0 where
  pub reused : ℕ
  pub built : ℕ
  pub draining : ℕ

pub data ApplyError : Type 0 where
  proxy_error group_error rule_error listener_error : Str → Str → ApplyError

-- The calls that change mihomo, in the order in which they are made.
pub data Command (M : Mihomo) : Type 0 where
  apply_general : Command M
  initial : M.Provider → Command M
  update_proxies : Dict Str M.Proxy → Dict Str M.Provider → Command M
  update_rules : List M.Rule → Command M
  patch_listeners : Dict Str M.Listener → Command M
  close_provider : M.Provider → Command M
  shut_down : Command M

-- An open connection, as mihomo tracks it.
pub record Tracker : Type 0 where
  pub id : Str
  pub in_name : Str
  pub in_user : Str
  pub chain : List Str

-- What `apply` has when it fails.
pub record Failed (M : Mihomo) : Type 0 where
  pub error : ApplyError
  pub stats : ApplyStats
  pub heap : M.Heap

-- The variables of `apply` after the loop over the proxies.
pub record Proxies (M : Mihomo) : Type 0 where
  pub proxies : Dict Str (LiveProxy M)
  pub all : Dict Str M.Proxy
  pub stats : ApplyStats
  pub heap : M.Heap

-- The variables of the loop over the groups.
pub record Groups (M : Mihomo) : Type 0 where
  pub groups : Dict Str (LiveGroup M)
  pub providers : Dict Str M.Provider
  pub fresh : List M.Provider
  pub all : Dict Str M.Proxy
  pub heap : M.Heap

-- `m["name"].(string)`: a config of a state holds a text there, which `str` gives back.
abbrev pub name_of : Object → Str
name_of m = str (get (lit "name") m)

abbrev pub key_of : Object → Str
key_of m = sprint (object m)
