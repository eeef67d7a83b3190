-- ===== src/Control/Store.antt =====
-- `ConfigStore` of crates/gaterust-control/src/store.rs: the two files, the snapshot of what they hold,
-- the dashboard, and the operations. The TOML printers, the readers of the files' texts, the
-- operating system's answers and the running services' are arguments.
pub mod TunnelMutations
pub mod ProxyMutations
pub mod Refines
pub mod Sound
pub mod Reach
use Prim.Native.Nat.{◌+◌, ◌%◌, ◌^◌}
use gate_rust.Common.{
  ℕ, Bool, Option, none, some, List, [], ◌∷◌, length, if◌then◌else◌, find_first, list_eq, ℕ_eq,
  ◌==◌,
}
use gate_rust.Common.Text.{Text}
use gate_rust.Common.Result.{Result, ok, err, ◌>>=◌, ◌>>◌}
use gate_rust.Tunnel.Config.{ServerConfig}
use gate_rust.Proxy.Config.{ProxyConfig, DnsAccountConfig}
use gate_rust.Control.Errors.{
  ControlError, ApplyCause, no_fingerprint, timed_out, apply_failed, tunnel_runtime_apply,
  proxy_runtime_apply, a_dns_account, resource_not_found,
}
use gate_rust.Control.Files.{Files, Answers, load_optional, edit_file}
use gate_rust.Control.TunnelEdits.{default_tunnel, TunnelChange, change_tunnel}
use gate_rust.Control.ProxyEdits.{default_proxy, ProxyChange, test_first, change_proxy}
use gate_rust.Control.View.{ProxyConfigView, view}

pub record ConfigSnapshot : Type 0 where
  pub tunnel : Option ServerConfig
  pub proxy : Option ProxyConfigView

pub record Dashboard : Type 0 where
  pub revision : ℕ
  pub tunnel_enabled : Bool
  pub proxy_enabled : Bool
  pub groups : ℕ
  pub tunnels : ℕ
  pub certificates : ℕ
  pub routes : ℕ

pub data ConfigKind : Type 0 where
  tunnel_kind proxy_kind : ConfigKind

pub record Store : Type 0 where
  pub tunnel_files : Files
  pub proxy_files : Files
  pub snapshot : ConfigSnapshot
  pub revision : ℕ
  pub dashboard : Dashboard
  pub tunnel_enabled : Bool
  pub proxy_enabled : Bool

abbrev pub count_in {ℓ} : {A : Type ℓ} → (A → ℕ) → Option A → ℕ
count_in size none = 0
count_in size (some a) = size a

unfoldable pub dashboard_for : ConfigSnapshot → ℕ → Bool → Bool → Dashboard
dashboard_for snapshot revision tunnel_enabled proxy_enabled = record {
  revision = revision;
  tunnel_enabled = tunnel_enabled;
  proxy_enabled = proxy_enabled;
  groups = count_in (λ (c : ServerConfig). length c.groups) snapshot.tunnel;
  tunnels = count_in (λ (c : ServerConfig). length c.tunnels) snapshot.tunnel;
  certificates = count_in (λ (c : ProxyConfigView). length c.certificates) snapshot.proxy;
  routes = count_in (λ (c : ProxyConfigView). length c.routes) snapshot.proxy;
}

-- The revision is a `u64`; `fetch_add` wraps around.
unfoldable pub publish : Store → Store
unfolding dashboard_for
publish store =
    let revision = (store.revision + 1) % 2 ^ 64 in
    record store {
      revision = revision;
      dashboard = dashboard_for store.snapshot revision store.tunnel_enabled store.proxy_enabled;
    }

unfoldable pub update_tunnel : Option ServerConfig → Store → Store
unfolding publish
update_tunnel config store =
    publish (record store { snapshot = record store.snapshot { tunnel = config } })

unfoldable pub viewed : Option ProxyConfig → Option ProxyConfigView
unfolding view
viewed none = none
viewed (some config) = some (view config)

unfoldable pub update_proxy : Option ProxyConfig → Store → Store
unfolding publish viewed
update_proxy config store =
    publish (record store { snapshot = record store.snapshot { proxy = viewed config } })

-- What waiting for a running service gives: no fingerprint of the configuration, no answer in five
-- seconds, or the status, with the error of applying it.
pub data Waited : Type 0 where
  fingerprint_failed no_answer : Waited
  answered : Option Text → Waited

-- What the mutation returns once the service has answered; without a service, at once.
abbrev pub applied :
    {A : Type 0} → (ApplyCause → ControlError) → Option Waited → A → Result ControlError A
applied failure none stored = ok stored
applied failure (some fingerprint_failed) stored = err (failure no_fingerprint)
applied failure (some no_answer) stored = err (failure timed_out)
applied failure (some (answered none)) stored = ok stored
applied failure (some (answered (some error))) stored = err (failure (apply_failed error))

-- `resolve_path` of crates/gaterust-tunnel/src/config.rs: `join` joins a path to the directory of the
-- configuration file.
unfoldable pub resolve_path : (Text → Bool) → (Text → Text) → Text → Text
resolve_path is_relative join path = if is_relative path then join path else path

-- What `ServerConfig::load` and `ProxyConfig::load` do after reading.
unfoldable pub resolve_tunnel : (Text → Text) → ServerConfig → ServerConfig
resolve_tunnel resolve config = record config {
  quic = record config.quic {
    certificate = resolve config.quic.certificate;
    private_key = resolve config.quic.private_key;
  };
}

unfoldable pub resolve_proxy : (Text → Text) → ProxyConfig → ProxyConfig
resolve_proxy resolve config = record config {
  proxy = record config.proxy { cache_dir = resolve config.proxy.cache_dir };
}

-- The parts outside of the crate, and `ServerConfig::read` and `ProxyConfig::read` of a text.
module _ {E F : Type 0} (print_tunnel : ServerConfig → Option Text)
    (read_tunnel : Text → Result E ServerConfig) (print_proxy : ProxyConfig → Option Text)
    (read_proxy : Text → Result F ProxyConfig) (is_relative : Text → Bool)
    (join_tunnel join_proxy : Text → Text) where
  unfoldable pub after_tunnel :
      (ServerConfig → Option Waited)
      → Result ControlError (ServerConfig × ServerConfig) × Files
      → Store
      → Result ControlError ServerConfig × Store
  unfolding update_tunnel
  after_tunnel wait (err e, files) store = (err e, record store { tunnel_files = files })
  after_tunnel wait (ok (stored, runtime), files) store = (
    applied tunnel_runtime_apply (wait runtime) stored,
    update_tunnel (some stored) (record store { tunnel_files = files }),
  )

  unfoldable pub mutate_tunnel :
      Answers
      → (ServerConfig → Option Waited)
      → (ServerConfig → Result ControlError ServerConfig)
      → Store
      → Result ControlError ServerConfig × Store
  unfolding edit_file default_tunnel after_tunnel resolve_tunnel resolve_path
  mutate_tunnel answers wait mutate store =
      after_tunnel wait
        (edit_file print_tunnel read_tunnel default_tunnel
          (resolve_tunnel (resolve_path is_relative join_tunnel)) answers mutate store.tunnel_files)
        store

  -- A method that changes the tunnel configuration.
  unfoldable pub run_tunnel :
      Answers
      → (ServerConfig → Option Waited)
      → TunnelChange
      → Store
      → Result ControlError ServerConfig × Store
  unfolding mutate_tunnel change_tunnel
  run_tunnel answers wait change store = mutate_tunnel answers wait (change_tunnel change) store

  unfoldable pub after_proxy :
      (ProxyConfig → Option Waited)
      → Result ControlError (ProxyConfig × ProxyConfig) × Files
      → Store
      → Result ControlError ProxyConfigView × Store
  unfolding update_proxy view
  after_proxy wait (err e, files) store = (err e, record store { proxy_files = files })
  after_proxy wait (ok (stored, runtime), files) store = (
    applied proxy_runtime_apply (wait runtime) (view stored),
    update_proxy (some stored) (record store { proxy_files = files }),
  )

  unfoldable pub mutate_proxy :
      Answers
      → (ProxyConfig → Option Waited)
      → (ProxyConfig → Result ControlError ProxyConfig)
      → Store
      → Result ControlError ProxyConfigView × Store
  unfolding edit_file default_proxy after_proxy resolve_proxy resolve_path
  mutate_proxy answers wait mutate store =
      after_proxy wait
        (edit_file print_proxy read_proxy default_proxy
          (resolve_proxy (resolve_path is_relative join_proxy)) answers mutate store.proxy_files)
        store

  -- A method that changes the proxy configuration.
  unfoldable pub run_proxy :
      Answers
      → (ProxyConfig → Option Waited)
      → ProxyChange
      → Store
      → Result ControlError ProxyConfigView × Store
  unfolding mutate_proxy test_first change_proxy
  run_proxy answers wait change store = elim (test_first change) [
    | err e ↦ (err e, store)
    | ok done ↦ mutate_proxy answers wait (change_proxy change) store
  ]

  -- The task that reloads a file fails without a change of the store.
  abbrev pub reloaded {ℓ} : {A : Type ℓ} → Result ControlError A → (A → Store) → Store → Store
  reloaded (ok config) update store = update config
  reloaded (err e) update store = store

  unfoldable pub reload : ConfigKind → Answers → Store → Store
  unfolding load_optional update_tunnel update_proxy
  reload tunnel_kind answers store =
      reloaded (load_optional print_tunnel read_tunnel answers store.tunnel_files)
        (λ config. update_tunnel config store) store
  reload proxy_kind answers store =
      reloaded (load_optional print_proxy read_proxy answers store.proxy_files)
        (λ config. update_proxy config store) store

  abbrev pub find_account : Text → Option ProxyConfig → Result ControlError DnsAccountConfig
  find_account id none = err (resource_not_found a_dns_account id)
  find_account id (some config) =
      elim (find_first (λ (a : DnsAccountConfig). a.id == id) config.dns_accounts) [
        | none ↦ err (resource_not_found a_dns_account id)
        | some account ↦ ok account
      ]

  -- `ConfigStore::dns_account`
  unfoldable pub dns_account : Text → Answers → Store → Result ControlError DnsAccountConfig
  unfolding load_optional
  dns_account id answers store =
      load_optional print_proxy read_proxy answers store.proxy_files >>= find_account id

  -- `ConfigStore::new`
  unfoldable pub open_store :
      Answers → Answers → Bool → Bool → Files → Files → Result ControlError Store
  unfolding load_optional dashboard_for viewed
  open_store tunnel_answers proxy_answers tunnel_enabled proxy_enabled tunnel_files proxy_files =
      load_optional print_tunnel read_tunnel tunnel_answers tunnel_files >>= (λ config.
        load_optional print_proxy read_proxy proxy_answers proxy_files >>= (λ proxy.
          let snapshot : ConfigSnapshot = record { tunnel = config; proxy = viewed proxy } in
          ok (record {
            tunnel_files = tunnel_files;
            proxy_files = proxy_files;
            snapshot = snapshot;
            revision = 1;
            dashboard = dashboard_for snapshot 1 tunnel_enabled proxy_enabled;
            tunnel_enabled = tunnel_enabled;
            proxy_enabled = proxy_enabled;
          })))
