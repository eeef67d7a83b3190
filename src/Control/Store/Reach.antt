-- ===== src/Control/Store/Reach.antt =====
-- The stores that the operations of crates/gaterust-control/src/store.rs lead to, in any order, with
-- any failures, and with edits of the files from outside between them.
use gate_rust.Common.{◌≡◌, inl, inr, Bool, Option}
use gate_rust.Common.Text.{Text}
use gate_rust.Common.Net.{IpAddr}
use gate_rust.Common.Result.{ok, Result-cases}
use gate_rust.Tunnel.Config.{ServerConfig}
use gate_rust.Proxy.Config.{ProxyConfig}
use gate_rust.Proxy.Fields.{UriParts}
use gate_rust.Proxy.Migration.{LegacyProxyConfig}
use gate_rust.Control.Files.{Files, Answers}
use gate_rust.Control.TunnelEdits.{TunnelChange, change_tunnel}
use gate_rust.Control.ProxyEdits.{ProxyChange, change_proxy, test_first}
use gate_rust.Control.Store.{Store, Waited, ConfigKind, run_tunnel, run_proxy, reload, open_store}
use gate_rust.Control.Store.TunnelMutations.{mutate_tunnel-IsTunnelOutcome}
use gate_rust.Control.Store.ProxyMutations.{mutate_proxy-IsProxyOutcome}
use gate_rust.Control.Store.Sound.{
  StoreIsSound, tunnel_reader, proxy_reader, with_files, opened_sound, tunnel_outcome_sound,
  proxy_outcome_sound, reload_sound,
}

module _ (print_tunnel : ServerConfig → Option Text) (parse_tunnel : Text → Option ServerConfig)
    (parse_ip : Text → Option IpAddr) (print_proxy : ProxyConfig → Option Text)
    (parse_proxy : Text → Option ProxyConfig) (parse_legacy : Text → Option LegacyProxyConfig)
    (parse_uri : Text → Option UriParts) (is_relative : Text → Bool)
    (join_tunnel join_proxy : Text → Text) where
  pub data Step : Store → Store → Type 0 where
    tunnel_ran :
        (store : Store) (answers : Answers) (wait : ServerConfig → Option Waited)
        (change : TunnelChange)
        → Step store
            (run_tunnel print_tunnel
              (tunnel_reader parse_tunnel parse_ip)
              print_proxy
              (proxy_reader parse_proxy parse_legacy parse_uri)
              is_relative
              join_tunnel
              join_proxy
              answers
              wait
              change
              store).1
    proxy_ran :
        (store : Store) (answers : Answers) (wait : ProxyConfig → Option Waited)
        (change : ProxyChange)
        → Step store
            (run_proxy print_tunnel
              (tunnel_reader parse_tunnel parse_ip)
              print_proxy
              (proxy_reader parse_proxy parse_legacy parse_uri)
              is_relative
              join_tunnel
              join_proxy
              answers
              wait
              change
              store).1
    reloaded :
        (store : Store) (kind : ConfigKind) (answers : Answers)
        → Step store (
            reload print_tunnel
              (tunnel_reader parse_tunnel parse_ip)
              print_proxy
              (proxy_reader parse_proxy parse_legacy parse_uri)
              is_relative
              join_tunnel
              join_proxy
              kind
              answers
              store)
    -- Someone else writes the files.
    edited :
        (store : Store) (tunnel_files proxy_files : Files)
        → Step store (record store { tunnel_files = tunnel_files; proxy_files = proxy_files })

  pub data Reach : Store → Type 0 where
    opened :
        (tunnel_answers proxy_answers : Answers) (tunnel_enabled proxy_enabled : Bool)
        (tunnel_files proxy_files : Files) (store : Store)
        → open_store print_tunnel
            (tunnel_reader parse_tunnel parse_ip)
            print_proxy
            (proxy_reader parse_proxy parse_legacy parse_uri)
            is_relative
            join_tunnel
            join_proxy
            tunnel_answers
            proxy_answers
            tunnel_enabled
            proxy_enabled
            tunnel_files
            proxy_files
          ≡ ok store
        → Reach store
    stepped : (store after : Store) → Reach store → Step store after → Reach after

  pub Step-StoreIsSound :
      (store after : Store)
      → Step store after
      → StoreIsSound parse_ip store
      → StoreIsSound parse_ip after
  unfolding run_tunnel run_proxy
  Step-StoreIsSound _ _ (tunnel_ran store answers wait change) h =
      tunnel_outcome_sound print_tunnel parse_tunnel parse_ip print_proxy parse_proxy parse_legacy
        parse_uri is_relative join_tunnel join_proxy (change_tunnel change) store _
        (mutate_tunnel-IsTunnelOutcome print_tunnel (tunnel_reader parse_tunnel parse_ip)
          print_proxy (proxy_reader parse_proxy parse_legacy parse_uri) is_relative join_tunnel
          join_proxy answers wait (change_tunnel change) store)
        h
  Step-StoreIsSound _ _ (proxy_ran store answers wait change) h =
      elim (Result-cases (test_first change)) [
        | inr (e, refused) ↦ rw (refused, run_proxy) h
        | inl (done, tested) ↦
            rw (tested, run_proxy)
              (proxy_outcome_sound print_tunnel parse_tunnel parse_ip print_proxy parse_proxy
                parse_legacy parse_uri is_relative join_tunnel join_proxy (change_proxy change)
                store _
                (mutate_proxy-IsProxyOutcome print_tunnel (tunnel_reader parse_tunnel parse_ip)
                  print_proxy (proxy_reader parse_proxy parse_legacy parse_uri) is_relative
                  join_tunnel join_proxy answers wait (change_proxy change) store)
                h)
      ]
  Step-StoreIsSound _ _ (reloaded store kind answers) h =
      reload_sound print_tunnel parse_tunnel parse_ip print_proxy parse_proxy parse_legacy parse_uri
        is_relative join_tunnel join_proxy kind answers store h
  Step-StoreIsSound _ _ (edited store tunnel_files proxy_files) h =
      with_files parse_ip store tunnel_files proxy_files h

  -- After any operations, failures and edits from outside, in any order, the tunnel configuration of the
  -- snapshot is valid, the proxy's view is the view of a valid configuration, and the dashboard counts
  -- what the snapshot has.
  pub Reach-StoreIsSound : (store : Store) → Reach store → StoreIsSound parse_ip store
  Reach-StoreIsSound _ (opened ta pa te pe tf pf store h) =
      opened_sound print_tunnel parse_tunnel parse_ip print_proxy parse_proxy parse_legacy parse_uri
        is_relative join_tunnel join_proxy ta pa te pe tf pf store h
  Reach-StoreIsSound _ (stepped store after r step) =
      Step-StoreIsSound store after step (Reach-StoreIsSound store r)
