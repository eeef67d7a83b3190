-- ===== src/Tunnel/Runtime.antt =====
-- crates/gaterust-tunnel/src/runtime.rs: the sessions that are online, the tunnels that are
-- configured and the owner of each tunnel. Each function is one critical section of the source's
-- lock. A connection is a value of the type parameter `C` (the QUIC library's); a shutdown token
-- is a number, taken in turn from `next_token`; the state also records the tokens that were
-- cancelled and the connections that were closed, with their close code.
pub mod Operations
pub mod Claims
pub mod Tokens
pub mod Consistent
pub mod Preserved
pub mod SessionChanges
pub mod Credentials
pub mod Offline
pub mod Reach
pub mod Ownership
pub mod Answers
pub mod Tests
use gate_rust.Common.{
  ℕ, ◌+◌, ◌%◌, ◌^◌, Bool, not, ◌&&◌, Option, none, some, List, [], ◌∷◌, map, is_some_and, ◌==◌,
  list_eq, option_eq, ℕ_eq,
}
use gate_rust.Common.Text.{Text}
use gate_rust.Common.Net.{SocketAddr}
use gate_rust.HashMap
use gate_rust.HashMap.{HashMap}
use gate_rust.Tunnel.Config.{TunnelKind, kind_eq}

abbrev pub max_online_clients : ℕ
max_online_clients = 128

pub record TunnelOwner : Type 0 where
  pub session_id : ℕ
  pub shutdown : ℕ

-- `D` is the type of credential digests, `[u8; 32]` in the source.
pub record SessionEntry (C D : Type 0) : Type 0 where
  pub connection : C
  pub device_id : Text
  pub group : Text
  pub credential_digest : D
  pub remote_address : SocketAddr
  pub connected_at : ℕ
  pub services : HashMap Text TunnelKind

pub record TunnelSpec : Type 0 where
  pub group : Text
  pub kind : TunnelKind
  pub bind : SocketAddr
  pub local_ip : Option Text
  pub local_port : Option ℕ

-- The codes of `ApplicationCloseCode` that the runtime closes with.
pub data CloseCode : Type 0 where
  administrator_disconnect credentials_revoked : CloseCode

pub record RuntimeState (C D : Type 0) : Type 0 where
  pub credentials : HashMap Text D
  pub sessions : HashMap ℕ (SessionEntry C D)
  pub tunnels : HashMap Text TunnelSpec
  pub owners : HashMap Text TunnelOwner
  pub revision : ℕ
  pub next_token : ℕ
  pub cancelled : List ℕ
  pub closed : List (C × CloseCode)

pub data RegisterError : Type 0 where
  device_id_conflict capacity credentials_changed : RegisterError

pub data TunnelDisconnectError : Type 0 where
  session_not_found tunnel_not_found not_owned_by_session : TunnelDisconnectError

pub data Outcome {ℓ} (E : Type ℓ) : Type ℓ where
  done : Outcome E
  failed : E → Outcome E

pub record ServiceDeclaration : Type 0 where
  pub name : Text
  pub kind : TunnelKind

unfoldable pub service_map : List ServiceDeclaration → HashMap Text TunnelKind
unfolding HashMap.collect
service_map services = HashMap.collect (map (λ (s : ServiceDeclaration). (s.name, s.kind)) services)

module _ {C D : Type 0} where
  -- `TunnelRuntime::new`
  unfoldable pub new_runtime : RuntimeState C D
  unfolding HashMap.empty
  new_runtime = record {
    credentials = HashMap.empty;
    sessions = HashMap.empty;
    tunnels = HashMap.empty;
    owners = HashMap.empty;
    revision = 0;
    next_token = 0;
    cancelled = [];
    closed = [];
  }

  -- `TunnelRuntime::notify`
  unfoldable pub notify : RuntimeState C D → RuntimeState C D
  notify st = record st { revision = (st.revision + 1) % 2 ^ 64 }

  unfoldable pub eligible : SessionEntry C D → Text → TunnelSpec → Bool
  unfolding HashMap.get
  eligible session tunnel spec =
      session.group == spec.group && HashMap.get tunnel session.services == some spec.kind

  -- The test of `retain_valid_owners`.
  unfoldable pub is_valid_owner : RuntimeState C D → Text → TunnelOwner → Bool
  unfolding eligible
  is_valid_owner st name owner =
      is_some_and
        (λ spec.
          is_some_and (λ session. eligible session name spec)
            (HashMap.get owner.session_id st.sessions))
        (HashMap.get name st.tunnels)

  unfoldable pub retain_valid_owners : RuntimeState C D → RuntimeState C D
  unfolding is_valid_owner HashMap.retain
  retain_valid_owners st = record st { owners = HashMap.retain (is_valid_owner st) st.owners }

  unfoldable pub release_session : ℕ → RuntimeState C D → RuntimeState C D
  unfolding HashMap.retain
  release_session id st = record st {
    owners = HashMap.retain (λ _ owner. not (owner.session_id == id)) st.owners;
  }

  unfoldable pub owned_tunnels : RuntimeState C D → ℕ → List Text
  unfolding HashMap.keys_of
  owned_tunnels st id = HashMap.keys_of (λ _ owner. owner.session_id == id) st.owners

  -- One round of the loop of `claim_available`, with a new token, and the loop.
  unfoldable pub claim_one : ℕ → Text → RuntimeState C D → RuntimeState C D
  unfolding HashMap.insert
  claim_one id name st = record st {
    owners = HashMap.insert name (record { session_id = id; shutdown = st.next_token }) st.owners;
    next_token = st.next_token + 1;
  }

  unfoldable pub claim_all : ℕ → List Text → RuntimeState C D → RuntimeState C D
  unfolding claim_one
  claim_all id [] st = st
  claim_all id (name ∷ names) st = claim_all id names (claim_one id name st)

  unfoldable pub is_available : RuntimeState C D → SessionEntry C D → Text → TunnelSpec → Bool
  unfolding HashMap.get eligible
  is_available st session name spec =
      not (HashMap.contains_key name st.owners) && eligible session name spec

  unfoldable pub claim_available : ℕ → RuntimeState C D → RuntimeState C D
  unfolding claim_all is_available HashMap.get HashMap.keys_of
  claim_available id st = elim (HashMap.get id st.sessions) [
    | none ↦ st
    | some session ↦ claim_all id (HashMap.keys_of (is_available st session) st.tunnels) st
  ]
