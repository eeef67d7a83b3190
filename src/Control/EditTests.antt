-- ===== src/Control/EditTests.antt =====
-- The changes of crates/gaterust-control/src/store.rs on concrete configurations.
use gate_rust.Common.{◌≡◌, refl, true, none, some, [], ◌∷◌, arith, ==_iff, ℕ_eq, list_eq}
use gate_rust.Common.Text.{Text, ascii}
use gate_rust.Common.Net.{ipv4_socket}
use gate_rust.Common.Result.{err}
use gate_rust.Tunnel.Config.{tcp, GroupConfig, ServerTunnelConfig, ServerConfig}
use gate_rust.Proxy.Config.{
  AcmeAccountConfig, google_cloud, production, ec256, DnsAccountConfig, cloudflare, dns_account,
  RouteConfig, ProxyConfig,
}
use gate_rust.Control.Errors.{acme_in_use, resource_conflict}
use gate_rust.Control.TunnelEdits.{update_group, delete_group}
use gate_rust.Control.TunnelEdits.Membership.{
  GroupsAreKnown, GroupIsUpdated, update_group-GroupIsUpdated, GroupIsDeleted,
  delete_group-GroupIsDeleted,
}
use gate_rust.Control.ProxyEdits.{
  AcmeAccountRequest, DnsAccountRequest, update_acme_account, update_dns_account, change_proxy,
  acme_deleted,
}
use gate_rust.Control.ProxyEdits.References.{
  ReferencesAreKnown, of_route, change_proxy-ReferencesAreKnown,
}
use gate_rust.Control.ProxyEdits.Secrets.{dns_account_of, acme_account_of}
use gate_rust.Control.ProxyEdits.DnsSecrets.{DnsIsUpdated, update_dns_account-DnsIsUpdated}
use gate_rust.Control.ProxyEdits.AcmeSecrets.{AcmeIsUpdated, update_acme_account-AcmeIsUpdated}
use gate_rust.Control.View.{view}
use gate_rust.Control.View.Secrets.{IsShown, view-IsShown}

abbrev group : Text → GroupConfig
group name = record { name = name; key = name }

abbrev tunnel_in : Text → ServerTunnelConfig
tunnel_in group = record {
  name = ascii "web";
  group = group;
  kind = tcp;
  bind = ipv4_socket 0 80;
  local_ip = ascii "localhost";
  local_port = none;
  limit_bps = none;
  max_connections = 1;
  max_udp_sessions = 1;
  udp_idle_seconds = 1;
}

abbrev two_groups : ServerConfig
two_groups = record {
  quic = record { bind = ipv4_socket 0 1; certificate = []; private_key = [] };
  groups = group (ascii "a") ∷ group (ascii "b") ∷ [];
  tunnels = tunnel_in (ascii "a") ∷ tunnel_in (ascii "b") ∷ [];
}

abbrev renamed : ServerConfig
renamed = record two_groups {
  groups = group (ascii "c") ∷ group (ascii "b") ∷ [];
  tunnels = tunnel_in (ascii "c") ∷ tunnel_in (ascii "b") ∷ [];
}

update_group-GroupIsUpdated_example :
    GroupIsUpdated (ascii "a") (group (ascii "c")) two_groups renamed
    × GroupsAreKnown renamed.groups renamed.tunnels
unfolding update_group
update_group-GroupIsUpdated_example =
    update_group-GroupIsUpdated (ascii "a") (group (ascii "c")) two_groups renamed refl
      (refl, (refl, tt))

abbrev deleted : ServerConfig
deleted = record two_groups {
  groups = group (ascii "b") ∷ [];
  tunnels = tunnel_in (ascii "b") ∷ [];
}

delete_group-GroupIsDeleted_example : GroupIsDeleted (ascii "a") two_groups deleted
unfolding delete_group
delete_group-GroupIsDeleted_example =
    delete_group-GroupIsDeleted (ascii "a") two_groups deleted refl (refl, (refl, tt))

abbrev account : AcmeAccountConfig
account = record {
  id = ascii "g";
  name = ascii "google";
  provider = google_cloud;
  environment = production;
  email = ascii "a@b.c";
  key_algorithm = ec256;
  eab_key_id = some (ascii "k");
  eab_hmac_key = some (ascii "secret");
}

abbrev zone : DnsAccountConfig
zone = record {
  id = ascii "cf";
  name = ascii "zone";
  provider = cloudflare;
  api_token = some (ascii "token");
  access_key = none;
  secret_key = none;
}

abbrev route : RouteConfig
route = record {
  name = ascii "web";
  host = ascii "a.de";
  path_prefix = ascii "/";
  upstream = ascii "http://localhost";
  certificate_id = some (ascii "c1");
}

abbrev proxied : ProxyConfig
proxied = record {
  proxy = record {
    http_bind = ipv4_socket 0 80;
    https_bind = ipv4_socket 0 443;
    cache_dir = ascii "/acme";
    max_connections = 2048;
  };
  acme_accounts = account ∷ [];
  dns_accounts = zone ∷ [];
  certificates =
      record {
        id = ascii "c1";
        name = ascii "main";
        domains = ascii "a.de" ∷ [];
        acme_account_id = ascii "g";
        validation = some (dns_account (ascii "cf"));
        auto_renew = true;
        migration_error = none;
      }
      ∷ [];
  routes = route ∷ [];
}

acme_is_in_use :
    change_proxy (acme_deleted (ascii "g")) proxied ≡ err (resource_conflict acme_in_use)
unfolding change_proxy
acme_is_in_use = refl

change_proxy-ReferencesAreKnown_example : ReferencesAreKnown (record proxied { routes = [] })
unfolding change_proxy
change_proxy-ReferencesAreKnown_example =
    change_proxy-ReferencesAreKnown (of_route (ascii "web")) proxied
      (record proxied { routes = [] }) refl
      (record { accounts = (refl, tt); dns = (refl, tt); routes = (refl, tt) })

-- A request that leaves the secrets out.
abbrev dns_request : DnsAccountRequest
dns_request = record {
  id = ascii "cf";
  name = ascii "other";
  provider = cloudflare;
  api_token = none;
  access_key = none;
  secret_key = none;
}

update_dns_account-DnsIsUpdated_example :
    DnsIsUpdated
      (ascii "cf")
      dns_request
      proxied
      (record proxied { dns_accounts = record zone { name = ascii "other" } ∷ [] })
    × (dns_account_of
          (ascii "go")
          (record proxied { dns_accounts = record zone { name = ascii "other" } ∷ [] })
        ≡ dns_account_of (ascii "go") proxied)
unfolding update_dns_account
update_dns_account-DnsIsUpdated_example =
    update_dns_account-DnsIsUpdated (ascii "cf") dns_request proxied
      (record proxied { dns_accounts = record zone { name = ascii "other" } ∷ [] }) (ascii "go")
      refl (λ same. ground (arith, ==_iff (ascii "go") (ascii "cf")))

abbrev acme_request : AcmeAccountRequest
acme_request = record {
  id = ascii "g";
  name = ascii "google";
  provider = google_cloud;
  environment = production;
  email = ascii "d@e.f";
  key_algorithm = ec256;
  eab_key_id = some (ascii "k");
  eab_hmac_key = none;
}

update_acme_account-AcmeIsUpdated_example :
    AcmeIsUpdated
      (ascii "g")
      acme_request
      proxied
      (record proxied { acme_accounts = record account { email = ascii "d@e.f" } ∷ [] })
    × (acme_account_of
          (ascii "le")
          (record proxied { acme_accounts = record account { email = ascii "d@e.f" } ∷ [] })
        ≡ acme_account_of (ascii "le") proxied)
unfolding update_acme_account
update_acme_account-AcmeIsUpdated_example =
    update_acme_account-AcmeIsUpdated (ascii "g") acme_request proxied
      (record proxied { acme_accounts = record account { email = ascii "d@e.f" } ∷ [] })
      (ascii "le") refl (λ same. ground (arith, ==_iff (ascii "le") (ascii "g")))

view-IsShown_example : IsShown proxied (view proxied)
view-IsShown_example = view-IsShown proxied
