-- ===== src/Control/Store/Refines.antt =====
-- What a successful change through `ConfigStore` of crates/gaterust-control/src/store.rs means for the
-- configuration that the file stands for.
use Prim.Native.Nat.{◌+◌, ◌%◌, ◌^◌}
use gate_rust.Common.{◌≡◌, refl, inl, inr, Bool, Option, some, arith}
use gate_rust.Common.Text.{Text}
use gate_rust.Common.Net.{IpAddr}
use gate_rust.Common.Result.{Result, ok, Result-cases}
use gate_rust.Tunnel.Config.{ServerConfig}
use gate_rust.Tunnel.Reading
use gate_rust.Tunnel.Validation.Accepted.{ConfigIsValid, validate-ConfigIsValid}
use gate_rust.Proxy.Config.{ProxyConfig}
use gate_rust.Proxy.Fields.{UriParts}
use gate_rust.Proxy.Migration
use gate_rust.Proxy.Migration.{LegacyProxyConfig}
use gate_rust.Proxy.Reading.{read_current}
use gate_rust.Proxy.Validation
use gate_rust.Proxy.Validation.Accepted.{ProxyIsValid, validate-ProxyIsValid}
use gate_rust.Control.Files.{Answers, decode, loaded_or}
use gate_rust.Control.TunnelEdits.{default_tunnel, TunnelChange, change_tunnel}
use gate_rust.Control.ProxyEdits.{default_proxy, ProxyChange, change_proxy, test_first}
use gate_rust.Control.View.{ProxyConfigView, view}
use gate_rust.Control.Store.{
  Store, Waited, dashboard_for, publish, update_tunnel, update_proxy, run_tunnel, run_proxy,
}
use gate_rust.Control.Store.TunnelMutations.{mutate_tunnel-IsTunnelOutcome, TunnelIsStored}
use gate_rust.Control.Store.ProxyMutations.{mutate_proxy-IsProxyOutcome, ProxyIsStored}

-- The dashboard is the snapshot's, with the revision after this one.
abbrev pub IsPublished : Store → Store → Type 0
IsPublished store after =
    (after.revision ≡ (store.revision + 1) % 2 ^ 64)
    × (after.dashboard
        ≡ dashboard_for after.snapshot after.revision store.tunnel_enabled store.proxy_enabled)

module _ (print_tunnel : ServerConfig → Option Text) (parse_tunnel : Text → Option ServerConfig)
    (parse_ip : Text → Option IpAddr) (print_proxy : ProxyConfig → Option Text)
    (parse_proxy : Text → Option ProxyConfig) (parse_legacy : Text → Option LegacyProxyConfig)
    (parse_uri : Text → Option UriParts) (is_relative : Text → Bool)
    (join_tunnel join_proxy : Text → Text) where
  abbrev pub read_tunnel : Text → Result Reading.ReadError ServerConfig
  read_tunnel = Reading.read parse_tunnel parse_ip

  abbrev pub read_proxy : Text → Result Migration.ReadError ProxyConfig
  read_proxy = Migration.read parse_proxy parse_legacy parse_uri

  -- The configurations that the files stand for.
  abbrev pub TunnelHolds : Store → Option ServerConfig → Type 0
  TunnelHolds store config = decode print_tunnel read_tunnel store.tunnel_files.target ≡ ok config

  abbrev pub ProxyHolds : Store → Option ProxyConfig → Type 0
  ProxyHolds store config = decode print_proxy read_proxy store.proxy_files.target ≡ ok config

  pub record TunnelChanges (change : TunnelChange) (store after : Store) (stored : ServerConfig)
      : Type 0 where
    pub before : Option ServerConfig
    pub held : TunnelHolds store before
    pub changed :
        change_tunnel change (loaded_or print_tunnel read_tunnel default_tunnel before) ≡ ok stored
    pub valid : ConfigIsValid parse_ip stored
    pub holds : TunnelHolds after (some stored)
    pub beside : after.tunnel_files.temporaries ≡ store.tunnel_files.temporaries
    pub shown : after.snapshot.tunnel ≡ some stored
    pub published : IsPublished store after
    pub proxy_files : after.proxy_files ≡ store.proxy_files
    pub proxy_shown : after.snapshot.proxy ≡ store.snapshot.proxy

  tunnel_changes :
      (change : TunnelChange) (store after : Store) (stored : ServerConfig)
      → ((config : ServerConfig) (content : Text)
          → print_tunnel config ≡ some content
          → parse_tunnel content ≡ some config)
      → TunnelIsStored print_tunnel read_tunnel print_proxy read_proxy is_relative join_tunnel
          join_proxy
          (change_tunnel change)
          store
          after
          stored
      → TunnelChanges change store after stored
  unfolding update_tunnel publish
  tunnel_changes change store after stored round_trip s =
      let e = s.edited in
      let (parsed, valid) =
        Reading.read_sound parse_tunnel parse_ip e.content stored e.installed.readable in
      let printed = round_trip e.config e.content e.printed in
      let same : e.config ≡ stored = ground arith in
      rw s.updated (record {
        before = e.found;
        held = e.loaded;
        changed = rw same at e.mutated;
        valid = validate-ConfigIsValid parse_ip stored valid;
        holds = rw (e.installed.target, e.installed.readable) refl;
        beside = e.installed.beside;
        shown = refl;
        published = (refl, refl);
        proxy_files = refl;
        proxy_shown = refl;
      })

  -- Where TOML reads back what it prints, a method that changes the tunnel configuration and succeeds
  -- returns the change of what the file stood for, or of the default for a missing file; that is a
  -- valid configuration, the file stands for it, the temporary files are as before, the snapshot shows
  -- it, and the dashboard is the snapshot's with the next revision; the proxy's file and view are untouched.
  pub run_tunnel-TunnelChanges :
      (answers : Answers) (wait : ServerConfig → Option Waited) (change : TunnelChange)
      (store after : Store) (stored : ServerConfig)
      → ((config : ServerConfig) (content : Text)
          → print_tunnel config ≡ some content
          → parse_tunnel content ≡ some config)
      → run_tunnel print_tunnel read_tunnel print_proxy read_proxy is_relative join_tunnel
          join_proxy answers wait change store
        ≡ (ok stored, after)
      → TunnelChanges change store after stored
  unfolding run_tunnel
  run_tunnel-TunnelChanges answers wait change store after stored round_trip h =
      let outcome =
        mutate_tunnel-IsTunnelOutcome print_tunnel read_tunnel print_proxy read_proxy is_relative
          join_tunnel join_proxy answers wait (change_tunnel change) store in
      tunnel_changes change store after stored round_trip (rw h at outcome)

  pub record ProxyChanges (change : ProxyChange) (store after : Store) (shown : ProxyConfigView)
      : Type 0 where
    pub before : Option ProxyConfig
    pub held : ProxyHolds store before
    pub config : ProxyConfig
    pub tested : test_first change ≡ ok tt
    pub changed :
        change_proxy change (loaded_or print_proxy read_proxy default_proxy before) ≡ ok config
    pub stored : ProxyConfig
    pub normalised : Validation.validate parse_uri config ≡ ok stored
    pub valid : ProxyIsValid stored
    pub holds : ProxyHolds after (some stored)
    pub beside : after.proxy_files.temporaries ≡ store.proxy_files.temporaries
    pub answered : shown ≡ view stored
    pub displayed : after.snapshot.proxy ≡ some (view stored)
    pub published : IsPublished store after
    pub tunnel_files : after.tunnel_files ≡ store.tunnel_files
    pub tunnel_shown : after.snapshot.tunnel ≡ store.snapshot.tunnel

  proxy_changes :
      (change : ProxyChange) (store after : Store) (shown : ProxyConfigView) (stored : ProxyConfig)
      → ((config : ProxyConfig) (content : Text)
          → print_proxy config ≡ some content
          → parse_proxy content ≡ some config)
      → test_first change ≡ ok tt
      → shown ≡ view stored
      → ProxyIsStored print_tunnel read_tunnel print_proxy read_proxy is_relative join_tunnel
          join_proxy
          (change_proxy change)
          store
          after
          stored
      → ProxyChanges change store after shown
  unfolding update_proxy publish
  proxy_changes change store after shown stored round_trip tested same s =
      let e = s.edited in
      let printed = round_trip e.config e.content e.printed in
      let valid =
        read_current parse_proxy parse_legacy parse_uri e.content e.config stored
          e.installed.readable printed in
      rw s.updated (record {
        before = e.found;
        held = e.loaded;
        config = e.config;
        tested = tested;
        changed = e.mutated;
        stored = stored;
        normalised = valid;
        valid = validate-ProxyIsValid parse_uri e.config stored valid;
        holds = rw (e.installed.target, e.installed.readable) refl;
        beside = e.installed.beside;
        answered = same;
        displayed = refl;
        published = (refl, refl);
        tunnel_files = refl;
        tunnel_shown = refl;
      })

  -- Where TOML reads back what it prints, a method that changes the proxy configuration and succeeds
  -- has normalised the change of what the file stood for, or of the default for a missing file; that is
  -- a valid configuration, the file stands for it, the temporary files are as before, the answer
  -- and the snapshot are its view, and the dashboard is the snapshot's with the next revision; the tunnels'
  -- file and configuration are untouched.
  pub run_proxy-ProxyChanges :
      (answers : Answers) (wait : ProxyConfig → Option Waited) (change : ProxyChange)
      (store after : Store) (shown : ProxyConfigView)
      → ((config : ProxyConfig) (content : Text)
          → print_proxy config ≡ some content
          → parse_proxy content ≡ some config)
      → run_proxy print_tunnel read_tunnel print_proxy read_proxy is_relative join_tunnel join_proxy
          answers wait change store
        ≡ (ok shown, after)
      → ProxyChanges change store after shown
  unfolding run_proxy
  run_proxy-ProxyChanges answers wait change store after shown round_trip h =
      elim (Result-cases (test_first change)) [
        | inr (e, refused) ↦ absurd (ground arith)
        | inl (done, tested) ↦
            let outcome =
              mutate_proxy-IsProxyOutcome print_tunnel read_tunnel print_proxy read_proxy
                is_relative join_tunnel join_proxy answers wait (change_proxy change) store in
            let ran = rw (tested, run_proxy) at h in
            let (stored, same, s) = rw ran at outcome in
            proxy_changes change store after shown stored round_trip tested same s
      ]
