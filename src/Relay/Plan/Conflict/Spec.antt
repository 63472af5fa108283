-- ===== src/Relay/Plan/Conflict/Spec.antt =====
-- When callers of different relays cannot be told apart: a description without the loops.
use proxy_proxy.Prelude.{ℕ, List, [], ◌≡◌, ◌≢◌, Memᴰ}
use proxy_proxy.Prelude.Text.{Str}
use proxy_proxy.Relay.Types.{Endpoint}
use proxy_proxy.Relay.Plan.Group.Laws.{on_port}

-- Why two endpoints of different relays cannot share the port whose endpoints are `eps`.
pub data Clash (eps : List Endpoint) (mine other : Endpoint) : Type 0 where
  by_listen :
      (e f : Endpoint) → Memᴰ e eps → Memᴰ f eps → e.listen ≢ f.listen → Clash eps mine other
  by_no_user : (e : Endpoint) → Memᴰ e eps → e.username ≡ [] → Clash eps mine other
  by_user : mine.username ≡ other.username → Clash eps mine other

-- Among the endpoints on one port, `relay` clashes with another relay.
pub record ClashesAmong (eps : List Endpoint) (relay : Str) : Type 0 where
  pub mine : Endpoint
  pub other : Endpoint
  pub mine_in : Memᴰ mine eps
  pub other_in : Memᴰ other eps
  pub mine_relay : mine.relay ≡ relay
  pub other_relay : other.relay ≢ relay
  pub clash : Clash eps mine other

-- The relay clashes with another one on some port.
abbrev pub Clashes : List Endpoint → Str → Type 0
Clashes eps relay = (port : ℕ) × ClashesAmong (on_port port eps) relay
