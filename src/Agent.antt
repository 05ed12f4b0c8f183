-- ===== src/Agent.antt =====
-- puffin/src/agent.rs: agent names, roles and the blueprints that agents are spawned from.
use tlspuffin.Base.{ℕ, Bool, true, false, ◌&&◌}

pub data AgentType : Type 0 where
  server client : AgentType

pub data TlsVersion : Type 0 where
  v1_3 v1_2 : TlsVersion

-- An agent's name is its u8.
abbrev pub AgentName : Type 0
AgentName = ℕ

pub record AgentDescriptor : Type 0 where
  pub name : AgentName
  pub tls_version : TlsVersion
  pub typ : AgentType
  pub try_reuse : Bool
  pub client_authentication : Bool
  pub server_authentication : Bool

unfoldable pub agent_type_eq : AgentType → AgentType → Bool
agent_type_eq server server = true
agent_type_eq client client = true
agent_type_eq _ _ = false

unfoldable pub tls_version_eq : TlsVersion → TlsVersion → Bool
tls_version_eq v1_3 v1_3 = true
tls_version_eq v1_2 v1_2 = true
tls_version_eq _ _ = false

unfoldable pub first : AgentName
first = 0

unfoldable pub default_descriptor : AgentDescriptor
unfolding first
default_descriptor = record {
  name = first;
  tls_version = v1_3;
  typ = server;
  try_reuse = false;
  client_authentication = false;
  server_authentication = true;
}

unfoldable pub new_reusable_server : AgentName → TlsVersion → AgentDescriptor
unfolding default_descriptor
new_reusable_server name tls_version = record default_descriptor {
  name = name;
  tls_version = tls_version;
  typ = server;
  try_reuse = true;
}

unfoldable pub new_reusable_client : AgentName → TlsVersion → AgentDescriptor
unfolding default_descriptor
new_reusable_client name tls_version = record default_descriptor {
  name = name;
  tls_version = tls_version;
  typ = client;
  try_reuse = true;
}

unfoldable pub new_server : AgentName → TlsVersion → AgentDescriptor
unfolding default_descriptor
new_server name tls_version = record default_descriptor {
  name = name;
  tls_version = tls_version;
  typ = server;
}

unfoldable pub new_client : AgentName → TlsVersion → AgentDescriptor
unfolding default_descriptor
new_client name tls_version = record default_descriptor {
  name = name;
  tls_version = tls_version;
  typ = client;
}

-- The default method of the trait `Put`, puffin/src/put.rs, on the descriptor of a PUT.
unfoldable pub is_reusable_with : AgentDescriptor → AgentDescriptor → Bool
unfolding agent_type_eq tls_version_eq
is_reusable_with agent_descriptor other =
    agent_type_eq agent_descriptor.typ other.typ
    && tls_version_eq agent_descriptor.tls_version other.tls_version
