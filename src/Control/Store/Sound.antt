-- ===== src/Control/Store/Sound.antt =====
-- What is known of every store of crates/gaterust-control/src/store.rs, and how each operation keeps it.
use gate_rust.Common.{◌≡◌, refl, inl, inr, Bool, Option, none, some, arith}
use gate_rust.Common.Text.{Text}
use gate_rust.Common.Net.{IpAddr}
use gate_rust.Common.Result.{Result, ok, err, Result-cases, bind-eq-ok}
use gate_rust.Tunnel.Config.{ServerConfig}
use gate_rust.Tunnel.Reading
use gate_rust.Tunnel.Reading.{read_sound}
use gate_rust.Tunnel.Validation.Accepted.{ConfigIsValid, validate-ConfigIsValid}
use gate_rust.Proxy.Config.{ProxyConfig}
use gate_rust.Proxy.Fields.{UriParts}
use gate_rust.Proxy.Migration
use gate_rust.Proxy.Migration.{LegacyProxyConfig}
use gate_rust.Proxy.Reading.{read-ProxyIsValid}
use gate_rust.Proxy.Validation.Accepted.{ProxyIsValid}
use gate_rust.Control.Errors.{ControlError}
use gate_rust.Control.Files.{Files, Answers, load_optional}
use gate_rust.Control.View.{ProxyConfigView, view}
use gate_rust.Control.Store.{
  Store, ConfigSnapshot, ConfigKind, tunnel_kind, proxy_kind, dashboard_for, publish, update_tunnel,
  update_proxy, viewed, reload, open_store,
}
use gate_rust.Control.Store.TunnelMutations.{IsTunnelOutcome, TunnelIsStored}
use gate_rust.Control.Store.ProxyMutations.{IsProxyOutcome, ProxyIsStored}
use gate_rust.Control.Files.Edits.{load_optional_sound, decode_present}

-- A snapshot's configuration, where there is one.
abbrev pub Where {ℓ} : {A : Type ℓ} → (A → Type 0) → Option A → Type 0
Where P none = Unit
Where P (some a) = P a

abbrev pub IsValidView : ProxyConfigView → Type 0
IsValidView shown = (config : ProxyConfig) × (shown ≡ view config) × ProxyIsValid config

pub record StoreIsSound (parse_ip : Text → Option IpAddr) (store : Store) : Type 0 where
  pub tunnel : Where (ConfigIsValid parse_ip) store.snapshot.tunnel
  pub proxy : Where IsValidView store.snapshot.proxy
  pub dashboard :
      store.dashboard
      ≡ dashboard_for store.snapshot store.revision store.tunnel_enabled store.proxy_enabled

abbrev pub tunnel_reader :
    (Text → Option ServerConfig)
    → (Text → Option IpAddr)
    → Text
    → Result Reading.ReadError ServerConfig
tunnel_reader = Reading.read

abbrev pub proxy_reader :
    (Text → Option ProxyConfig)
    → (Text → Option LegacyProxyConfig)
    → (Text → Option UriParts)
    → Text
    → Result Migration.ReadError ProxyConfig
proxy_reader = Migration.read

-- A change of the snapshot is published with it.
pub updated_tunnel_sound :
    (parse_ip : Text → Option IpAddr) (config : Option ServerConfig) (store : Store)
    → Where (ConfigIsValid parse_ip) config
    → StoreIsSound parse_ip store
    → StoreIsSound parse_ip (update_tunnel config store)
unfolding update_tunnel publish
updated_tunnel_sound parse_ip config store valid h = record {
  tunnel = valid;
  proxy = h.proxy;
  dashboard = refl;
}

pub Where-viewed :
    (config : Option ProxyConfig) → Where ProxyIsValid config → Where IsValidView (viewed config)
unfolding viewed
Where-viewed none h = tt
Where-viewed (some config) h = (config, refl, h)

pub updated_proxy_sound :
    (parse_ip : Text → Option IpAddr) (config : Option ProxyConfig) (store : Store)
    → Where ProxyIsValid config
    → StoreIsSound parse_ip store
    → StoreIsSound parse_ip (update_proxy config store)
unfolding update_proxy publish
updated_proxy_sound parse_ip config store valid h = record {
  tunnel = h.tunnel;
  proxy = Where-viewed config valid;
  dashboard = refl;
}

pub with_files :
    (parse_ip : Text → Option IpAddr) (store : Store) (tunnel_files proxy_files : Files)
    → StoreIsSound parse_ip store
    → StoreIsSound parse_ip
        (record store { tunnel_files = tunnel_files; proxy_files = proxy_files })
with_files parse_ip store tunnel_files proxy_files h = record {
  tunnel = h.tunnel;
  proxy = h.proxy;
  dashboard = h.dashboard;
}

module _ (print_tunnel : ServerConfig → Option Text) (parse_tunnel : Text → Option ServerConfig)
    (parse_ip : Text → Option IpAddr) (print_proxy : ProxyConfig → Option Text)
    (parse_proxy : Text → Option ProxyConfig) (parse_legacy : Text → Option LegacyProxyConfig)
    (parse_uri : Text → Option UriParts) (is_relative : Text → Bool)
    (join_tunnel join_proxy : Text → Text) where
  pub tunnel_read_valid :
      (answers : Answers) (files : Files) (config : Option ServerConfig)
      → load_optional print_tunnel (tunnel_reader parse_tunnel parse_ip) answers files ≡ ok config
      → Where (ConfigIsValid parse_ip) config
  tunnel_read_valid answers files none h = tt
  tunnel_read_valid answers files (some config) h =
      let read = tunnel_reader parse_tunnel parse_ip in
      let decoded = load_optional_sound print_tunnel read answers files (some config) h in
      let (content, accepted) = decode_present print_tunnel read files.target config decoded in
      let (_, valid) = read_sound parse_tunnel parse_ip content config accepted in
      validate-ConfigIsValid parse_ip config valid

  pub proxy_read_valid :
      (answers : Answers) (files : Files) (config : Option ProxyConfig)
      → load_optional print_proxy (proxy_reader parse_proxy parse_legacy parse_uri) answers files
        ≡ ok config
      → Where ProxyIsValid config
  proxy_read_valid answers files none h = tt
  proxy_read_valid answers files (some config) h =
      let read = proxy_reader parse_proxy parse_legacy parse_uri in
      let decoded = load_optional_sound print_proxy read answers files (some config) h in
      let (content, accepted) = decode_present print_proxy read files.target config decoded in
      read-ProxyIsValid parse_proxy parse_legacy parse_uri content config accepted

  pub opened_sound :
      (tunnel_answers proxy_answers : Answers) (tunnel_enabled proxy_enabled : Bool)
      (tunnel_files proxy_files : Files) (store : Store)
      → open_store print_tunnel
          (tunnel_reader parse_tunnel parse_ip)
          print_proxy
          (proxy_reader parse_proxy parse_legacy parse_uri)
          is_relative
          join_tunnel
          join_proxy
          tunnel_answers
          proxy_answers
          tunnel_enabled
          proxy_enabled
          tunnel_files
          proxy_files
        ≡ ok store
      → StoreIsSound parse_ip store
  unfolding open_store
  opened_sound ta pa te pe tf pf store h =
      let (config, h1, rest) =
        bind-eq-ok (load_optional print_tunnel (tunnel_reader parse_tunnel parse_ip) ta tf) _ h in
      let (proxy, h2, last) =
        bind-eq-ok
          (load_optional print_proxy (proxy_reader parse_proxy parse_legacy parse_uri) pa pf) _
          rest in
      let snapshot : ConfigSnapshot = record { tunnel = config; proxy = viewed proxy } in
      let made : Store = record {
        tunnel_files = tf;
        proxy_files = pf;
        snapshot = snapshot;
        revision = 1;
        dashboard = dashboard_for snapshot 1 te pe;
        tunnel_enabled = te;
        proxy_enabled = pe;
      } in
      let same : made ≡ store = ground arith in
      rw (← same) (record {
        tunnel = tunnel_read_valid ta tf config h1;
        proxy = Where-viewed proxy (proxy_read_valid pa pf proxy h2);
        dashboard = refl;
      })

  -- The readers, printers and joins of the operations.
  abbrev OfTunnel :
      (ServerConfig → Result ControlError ServerConfig)
      → Store
      → Result ControlError ServerConfig × Store
      → Type 0
  OfTunnel =
      IsTunnelOutcome print_tunnel (tunnel_reader parse_tunnel parse_ip) print_proxy
        (proxy_reader parse_proxy parse_legacy parse_uri) is_relative join_tunnel join_proxy

  abbrev OfProxy :
      (ProxyConfig → Result ControlError ProxyConfig)
      → Store
      → Result ControlError ProxyConfigView × Store
      → Type 0
  OfProxy =
      IsProxyOutcome print_tunnel (tunnel_reader parse_tunnel parse_ip) print_proxy
        (proxy_reader parse_proxy parse_legacy parse_uri) is_relative join_tunnel join_proxy

  pub tunnel_stored_sound :
      (mutate : ServerConfig → Result ControlError ServerConfig) (store after : Store)
      (stored : ServerConfig)
      → TunnelIsStored print_tunnel
          (tunnel_reader parse_tunnel parse_ip)
          print_proxy
          (proxy_reader parse_proxy parse_legacy parse_uri)
          is_relative
          join_tunnel
          join_proxy
          mutate
          store
          after
          stored
      → StoreIsSound parse_ip store
      → StoreIsSound parse_ip after
  tunnel_stored_sound mutate store after stored s h =
      let e = s.edited in
      let (_, valid) = read_sound parse_tunnel parse_ip e.content stored e.installed.readable in
      rw s.updated (
        updated_tunnel_sound parse_ip (some stored) (record store { tunnel_files = s.files })
          (validate-ConfigIsValid parse_ip stored valid)
          (with_files parse_ip store s.files store.proxy_files h))

  pub tunnel_outcome_sound :
      (mutate : ServerConfig → Result ControlError ServerConfig) (store : Store)
      (outcome : Result ControlError ServerConfig × Store)
      → OfTunnel mutate store outcome
      → StoreIsSound parse_ip store
      → StoreIsSound parse_ip outcome.1
  tunnel_outcome_sound mutate store (ok stored, after) s h =
      tunnel_stored_sound mutate store after stored s h
  tunnel_outcome_sound mutate store (err e, after) (inl kept) h =
      rw kept.rest (with_files parse_ip store kept.files store.proxy_files h)
  tunnel_outcome_sound mutate store (err e, after) (inr (inl unseen)) h =
      rw unseen.rest (with_files parse_ip store unseen.files store.proxy_files h)
  tunnel_outcome_sound mutate store (err e, after) (inr (inr (stored, s))) h =
      tunnel_stored_sound mutate store after stored s h

  pub proxy_stored_sound :
      (mutate : ProxyConfig → Result ControlError ProxyConfig) (store after : Store)
      (stored : ProxyConfig)
      → ProxyIsStored print_tunnel
          (tunnel_reader parse_tunnel parse_ip)
          print_proxy
          (proxy_reader parse_proxy parse_legacy parse_uri)
          is_relative
          join_tunnel
          join_proxy
          mutate
          store
          after
          stored
      → StoreIsSound parse_ip store
      → StoreIsSound parse_ip after
  proxy_stored_sound mutate store after stored s h =
      let e = s.edited in
      rw s.updated (
        updated_proxy_sound parse_ip (some stored) (record store { proxy_files = s.files })
          (read-ProxyIsValid parse_proxy parse_legacy parse_uri e.content stored
            e.installed.readable)
          (with_files parse_ip store store.tunnel_files s.files h))

  pub proxy_outcome_sound :
      (mutate : ProxyConfig → Result ControlError ProxyConfig) (store : Store)
      (outcome : Result ControlError ProxyConfigView × Store)
      → OfProxy mutate store outcome
      → StoreIsSound parse_ip store
      → StoreIsSound parse_ip outcome.1
  proxy_outcome_sound mutate store (ok shown, after) (stored, same, s) h =
      proxy_stored_sound mutate store after stored s h
  proxy_outcome_sound mutate store (err e, after) (inl kept) h =
      rw kept.rest (with_files parse_ip store store.tunnel_files kept.files h)
  proxy_outcome_sound mutate store (err e, after) (inr (inl unseen)) h =
      rw unseen.rest (with_files parse_ip store store.tunnel_files unseen.files h)
  proxy_outcome_sound mutate store (err e, after) (inr (inr (stored, s))) h =
      proxy_stored_sound mutate store after stored s h

  pub reload_sound :
      (kind : ConfigKind) (answers : Answers) (store : Store)
      → StoreIsSound parse_ip store
      → StoreIsSound parse_ip (
          reload print_tunnel
            (tunnel_reader parse_tunnel parse_ip)
            print_proxy
            (proxy_reader parse_proxy parse_legacy parse_uri)
            is_relative
            join_tunnel
            join_proxy
            kind
            answers
            store)
  unfolding reload
  reload_sound tunnel_kind answers store h =
      elim (Result-cases (
        load_optional print_tunnel (tunnel_reader parse_tunnel parse_ip) answers
          store.tunnel_files)) [
            | inr (e, failed) ↦ rw (failed, reload) h
            | inl (config, loaded) ↦
                rw (loaded, reload)
                  (updated_tunnel_sound parse_ip config store
                    (tunnel_read_valid answers store.tunnel_files config loaded) h)
          ]
  reload_sound proxy_kind answers store h =
      elim (Result-cases (
        load_optional print_proxy (proxy_reader parse_proxy parse_legacy parse_uri) answers
          store.proxy_files)) [
            | inr (e, failed) ↦ rw (failed, reload) h
            | inl (config, loaded) ↦
                rw (loaded, reload)
                  (updated_proxy_sound parse_ip config store
                    (proxy_read_valid answers store.proxy_files config loaded) h)
          ]
