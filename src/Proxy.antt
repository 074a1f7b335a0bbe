-- ===== src/Proxy.antt =====
-- internal/proxy: how a Connect's target becomes a client. The groups and nodes are rows of the
-- storage, behind the interface that the source names for them.
pub mod Balancer
pub mod Fairness
pub mod Selecting
pub mod Resolving
pub mod Health
pub mod Tables
pub mod Small
pub mod LeastConn
pub mod Consistent
pub mod Outage
pub mod RelayChain
mod Tests
use message_boy.Base.{ℕ, Bool, List, Option, Bytes, codes}

-- `LoadBalanceMethod` is a string.
abbrev pub load_balance_round_robin : Bytes
load_balance_round_robin = codes "round_robin"

abbrev pub load_balance_random : Bytes
load_balance_random = codes "random"

abbrev pub load_balance_least_conn : Bytes
load_balance_least_conn = codes "least_conn"

abbrev pub load_balance_ip_hash : Bytes
load_balance_ip_hash = codes "ip_hash"

-- Time stamps and the joined rows are left out. The counts, the priorities, the weights and the
-- intervals are not negative.
pub record ProxyGroup : Type 0 where
  pub id : Bytes
  pub name : Bytes
  pub description : Bytes
  pub load_balance_method : Bytes
  pub health_check_enabled : Bool
  pub health_check_interval : ℕ
  pub health_check_timeout : ℕ
  pub health_check_retries : ℕ

pub record ProxyGroupNode : Type 0 where
  pub id : Bytes
  pub group_id : Bytes
  pub client_id : Bytes
  pub priority : ℕ
  pub weight : ℕ
  pub status : Bytes
  pub last_check_ok : Bool
  pub fail_count : ℕ
  pub active_conns : ℕ

abbrev pub node_status_healthy : Bytes
node_status_healthy = codes "healthy"

abbrev pub node_status_unhealthy : Bytes
node_status_unhealthy = codes "unhealthy"

abbrev pub node_status_unknown : Bytes
node_status_unknown = codes "unknown"

-- `ProxyGroupReader` over a store of its own; `none` and `false` stand for an error, of which the
-- balancer only asks whether there was one. `intn` is what the generator of `rand.Intn` answers.
pub record ProxyGroupReader : Type 1 where
  pub Store : Type 0
  pub get_by_id : Bytes → Store → Option ProxyGroup
  pub get_by_name : Bytes → Store → Option ProxyGroup
  pub get_healthy_nodes_by_group_id : Bytes → Store → Option (List ProxyGroupNode)
  pub increment_node_conns : Bytes → Store → Store × Bool
  pub decrement_node_conns : Bytes → Store → Store × Bool
  pub Seed : Type 0
  pub intn : ℕ → Seed → Seed × ℕ

-- `ProxyGroupStore`, in the same way. The checker ignores what `MarkNodeUnhealthy` returns.
pub record ProxyGroupStore : Type 1 where
  pub Store : Type 0
  pub list : Store → Option (List ProxyGroup)
  pub get_nodes_by_group_id : Bytes → Store → Option (List ProxyGroupNode)
  pub get_node : Bytes → Store → Option ProxyGroupNode
  pub get_by_id : Bytes → Store → Option ProxyGroup
  pub update_node_health : Bytes → Bool → Store → Store × Bool
  pub mark_node_unhealthy : Bytes → Store → Store
