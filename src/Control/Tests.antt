-- ===== src/Control/Tests.antt =====
-- The operations of crates/gaterust-control/src/store.rs on concrete stores. The printers and parsers here
-- know one configuration each.
use gate_rust.Common.{
  not, ap, sym, ◌++◌, &&-eq-true, ◌≡◌, refl, Bool, true, false, ◌&&◌, Option, none, some, List, [],
  ◌∷◌, if◌then◌else◌, arith, ◌==◌, ==_iff, ℕ_eq, list_eq, Bool-cases, inl, inr,
}
use gate_rust.Common.Text.{Text, ascii, starts_with_byte}
use gate_rust.Common.Net.{IpAddr, ipv4_socket, addr_eq}
use gate_rust.Common.Result.{ok, err}
use gate_rust.Tunnel.Config.{GroupConfig, ServerConfig}
use gate_rust.Proxy.Config.{ProxyConfig, ProxyListenerConfig}
use gate_rust.HashMap
use gate_rust.Tunnel.Reading
use gate_rust.Proxy.Fields.{UriParts}
use gate_rust.Proxy.Migration
use gate_rust.Proxy.Migration.{LegacyProxyConfig}
use gate_rust.Control.Errors.{write_runtime_config, write_failed}
use gate_rust.Control.Files.{Files, Answers, edit_file}
use gate_rust.Control.Files.Edits.{IsEdited, edit_file-IsEditOutcome}
use gate_rust.Control.Store.Sound.{StoreIsSound}
use gate_rust.Control.Store.Reach.{Reach, opened, stepped, tunnel_ran, Reach-StoreIsSound}
use gate_rust.Control.Store.{Store, Waited, answered, open_store, run_tunnel, run_proxy}
use gate_rust.Control.View.{ProxyConfigView}
use gate_rust.Control.Store.Refines.{
  TunnelChanges, ProxyChanges, run_tunnel-TunnelChanges, run_proxy-ProxyChanges,
}
use gate_rust.Control.TunnelEdits.{group_created, quic_set, change_tunnel}
use gate_rust.Control.ProxyEdits.{listener_set}

abbrev fine : Answers
fine = record {
  random = 7;
  reads = true;
  makes_directory = true;
  opens = true;
  fails_after = none;
  syncs = true;
  reads_back = true;
  renames = true;
  syncs_directory = true;
  removes = true;
  reloads = true;
}

abbrev home : GroupConfig
home = record { name = ascii "home"; key = ascii "0123456789abcdef0123456789abcdef" }

abbrev with_home : ServerConfig
with_home = record {
  quic = record {
    bind = ipv4_socket 0 2333;
    certificate = ascii "/etc/gaterust/tunnel/server.pem";
    private_key = ascii "/etc/gaterust/tunnel/server-key.pem";
  };
  groups = home ∷ [];
  tunnels = [];
}

abbrev is_home : List GroupConfig → Bool
is_home [] = false
is_home (g ∷ []) = g.name == home.name && g.key == home.key
is_home (g ∷ h ∷ groups) = false

abbrev none_of : {A : Type 0} → List A → Bool
none_of [] = true
none_of (x ∷ xs) = false

abbrev is_with_home : ServerConfig → Bool
is_with_home c =
    c.quic.bind == with_home.quic.bind
    && (c.quic.certificate == with_home.quic.certificate
        && (c.quic.private_key == with_home.quic.private_key
            && (is_home c.groups && none_of c.tunnels)))

is_home_sound : (groups : List GroupConfig) → is_home groups ≡ true → groups ≡ home ∷ []
is_home_sound [] h = absurd (ground arith)
is_home_sound (g ∷ []) h = ground (arith, ==_iff g.name home.name, ==_iff g.key home.key)
is_home_sound (g ∷ k ∷ groups) h = absurd (ground arith)

none_of_sound : {A : Type 0} (xs : List A) → none_of xs ≡ true → xs ≡ []
none_of_sound [] h = refl
none_of_sound (x ∷ xs) h = absurd (ground arith)

is_with_home_sound : (c : ServerConfig) → is_with_home c ≡ true → c ≡ with_home
is_with_home_sound c h =
    let (b, h1) = &&-eq-true _ _ h in
    let (k, h2) = &&-eq-true _ _ h1 in
    let (p, h3) = &&-eq-true _ _ h2 in
    let (g, t) = &&-eq-true _ _ h3 in
    λ i. record {
      quic = record {
        bind = (==_iff c.quic.bind with_home.quic.bind).0 b i;
        certificate = (==_iff c.quic.certificate with_home.quic.certificate).0 k i;
        private_key = (==_iff c.quic.private_key with_home.quic.private_key).0 p i;
      };
      groups = is_home_sound c.groups g i;
      tunnels = none_of_sound c.tunnels t i;
    }

abbrev print_tunnel : ServerConfig → Option Text
print_tunnel c = if is_with_home c then some (ascii "home") else none

abbrev parse_tunnel : Text → Option ServerConfig
parse_tunnel content = if content == ascii "home" then some with_home else none

print_tunnel_back :
    (c : ServerConfig) (content : Text)
    → print_tunnel c ≡ some content
    → parse_tunnel content ≡ some c
print_tunnel_back c content h = elim (Bool-cases (is_with_home c)) [
  | inl same ↦
      let text : ascii "home" ≡ content = ground arith in
      rw (← text) (ap some (sym (is_with_home_sound c same)))
  | inr other ↦ absurd (ground arith)
]

abbrev local : ProxyListenerConfig
local = record {
  http_bind = ipv4_socket 2130706433 8080;
  https_bind = ipv4_socket 2130706433 8443;
  cache_dir = ascii "acme";
  max_connections = 16;
}

abbrev locally : ProxyConfig
locally = record {
  proxy = local;
  acme_accounts = [];
  dns_accounts = [];
  certificates = [];
  routes = [];
}

abbrev is_locally : ProxyConfig → Bool
is_locally c =
    c.proxy.http_bind == local.http_bind
    && (c.proxy.https_bind == local.https_bind
        && (c.proxy.cache_dir == local.cache_dir
            && (c.proxy.max_connections == local.max_connections
                && (none_of c.acme_accounts
                    && (none_of c.dns_accounts && (none_of c.certificates && none_of c.routes))))))

is_locally_sound : (c : ProxyConfig) → is_locally c ≡ true → c ≡ locally
is_locally_sound c h =
    let (b, h1) = &&-eq-true _ _ h in
    let (s, h2) = &&-eq-true _ _ h1 in
    let (d, h3) = &&-eq-true _ _ h2 in
    let (m, h4) = &&-eq-true _ _ h3 in
    let (a, h5) = &&-eq-true _ _ h4 in
    let (n, h6) = &&-eq-true _ _ h5 in
    let (k, r) = &&-eq-true _ _ h6 in
    λ i. record {
      proxy = record {
        http_bind = (==_iff c.proxy.http_bind local.http_bind).0 b i;
        https_bind = (==_iff c.proxy.https_bind local.https_bind).0 s i;
        cache_dir = (==_iff c.proxy.cache_dir local.cache_dir).0 d i;
        max_connections = (==_iff c.proxy.max_connections local.max_connections).0 m i;
      };
      acme_accounts = none_of_sound c.acme_accounts a i;
      dns_accounts = none_of_sound c.dns_accounts n i;
      certificates = none_of_sound c.certificates k i;
      routes = none_of_sound c.routes r i;
    }

abbrev print_proxy : ProxyConfig → Option Text
print_proxy c = if is_locally c then some (ascii "local") else none

abbrev parse_proxy : Text → Option ProxyConfig
parse_proxy content = if content == ascii "local" then some locally else none

print_proxy_back :
    (c : ProxyConfig) (content : Text) → print_proxy c ≡ some content → parse_proxy content ≡ some c
print_proxy_back c content h = elim (Bool-cases (is_locally c)) [
  | inl same ↦
      let text : ascii "local" ≡ content = ground arith in
      rw (← text) (ap some (sym (is_locally_sound c same)))
  | inr other ↦ absurd (ground arith)
]

abbrev no_file : Files
no_file = record { target = none; temporaries = [] }

abbrev no_legacy : Text → Option LegacyProxyConfig
no_legacy content = none

abbrev no_ip : Text → Option IpAddr
no_ip value = none

abbrev no_uri : Text → Option UriParts
no_uri value = none

abbrev relative : Text → Bool
relative path = not (starts_with_byte b'/' path)

abbrev in_etc : Text → Text
in_etc path = ascii "/etc/" ++ path

abbrev empty_store : Store
empty_store = record {
  tunnel_files = no_file;
  proxy_files = no_file;
  snapshot = record { tunnel = none; proxy = none };
  revision = 1;
  dashboard = record {
    revision = 1;
    tunnel_enabled = true;
    proxy_enabled = true;
    groups = 0;
    tunnels = 0;
    certificates = 0;
    routes = 0;
  };
  tunnel_enabled = true;
  proxy_enabled = true;
}

abbrev confirmed : {A : Type 0} → A → Option Waited
confirmed config = some (answered none)

store_opens :
    open_store print_tunnel
      (Reading.read parse_tunnel no_ip)
      print_proxy
      (Migration.read parse_proxy no_legacy no_uri)
      relative
      in_etc
      in_etc
      fine
      fine
      true
      true
      no_file
      no_file
    ≡ ok empty_store
unfolding open_store
store_opens = refl

-- The group is stored, shown and counted.
abbrev home_store : Store
home_store = record empty_store {
  tunnel_files = record { target = some (ascii "home"); temporaries = [] };
  snapshot = record { tunnel = some with_home; proxy = none };
  revision = 2;
  dashboard = record {
    revision = 2;
    tunnel_enabled = true;
    proxy_enabled = true;
    groups = 1;
    tunnels = 0;
    certificates = 0;
    routes = 0;
  };
}

group_is_created :
    run_tunnel print_tunnel
      (Reading.read parse_tunnel no_ip)
      print_proxy
      (Migration.read parse_proxy no_legacy no_uri)
      relative
      in_etc
      in_etc
      fine
      confirmed
      (group_created home)
      empty_store
    ≡ (ok with_home, home_store)
unfolding run_tunnel Reading.read HashMap.empty HashMap.get HashMap.insert
group_is_created = refl

run_tunnel-TunnelChanges_example :
    TunnelChanges print_tunnel parse_tunnel no_ip print_proxy parse_proxy no_legacy no_uri relative
      in_etc in_etc
      (group_created home)
      empty_store
      home_store
      with_home
run_tunnel-TunnelChanges_example =
    run_tunnel-TunnelChanges print_tunnel parse_tunnel no_ip print_proxy parse_proxy no_legacy
      no_uri relative in_etc in_etc fine confirmed (group_created home) empty_store home_store
      with_home print_tunnel_back group_is_created

abbrev local_store : Store
local_store = record home_store {
  proxy_files = record { target = some (ascii "local"); temporaries = [] };
  snapshot = record {
    tunnel = some with_home;
    proxy = some (record {
      proxy = local;
      acme_accounts = [];
      dns_accounts = [];
      certificates = [];
      routes = [];
    });
  };
  revision = 3;
  dashboard = record {
    revision = 3;
    tunnel_enabled = true;
    proxy_enabled = true;
    groups = 1;
    tunnels = 0;
    certificates = 0;
    routes = 0;
  };
}

abbrev local_view : ProxyConfigView
local_view = record {
  proxy = local;
  acme_accounts = [];
  dns_accounts = [];
  certificates = [];
  routes = [];
}

listener_is_set :
    run_proxy print_tunnel
      (Reading.read parse_tunnel no_ip)
      print_proxy
      (Migration.read parse_proxy no_legacy no_uri)
      relative
      in_etc
      in_etc
      fine
      confirmed
      (listener_set local)
      home_store
    ≡ (ok local_view, local_store)
unfolding run_proxy Migration.read HashMap.empty HashMap.get HashMap.insert
listener_is_set = refl

run_proxy-ProxyChanges_example :
    ProxyChanges print_tunnel parse_tunnel no_ip print_proxy parse_proxy no_legacy no_uri relative
      in_etc in_etc
      (listener_set local)
      home_store
      local_store
      local_view
run_proxy-ProxyChanges_example =
    run_proxy-ProxyChanges print_tunnel parse_tunnel no_ip print_proxy parse_proxy no_legacy no_uri
      relative in_etc in_etc fine confirmed (listener_set local) home_store local_store local_view
      print_proxy_back listener_is_set

-- A write that fails half way leaves the old file.
abbrev failing : Answers
failing = record fine { fails_after = some 2; removes = false }

write_fails :
    run_tunnel print_tunnel
      (Reading.read parse_tunnel no_ip)
      print_proxy
      (Migration.read parse_proxy no_legacy no_uri)
      relative
      in_etc
      in_etc
      failing
      confirmed
      (group_created home)
      empty_store
    ≡ (
      err (write_runtime_config write_failed),
      record empty_store {
        tunnel_files = record { target = none; temporaries = (7, ascii "ho") ∷ [] };
      },
    )
unfolding run_tunnel
write_fails = refl

-- The paths are joined to the directory of the file.
abbrev in_directory : ServerConfig → ServerConfig
in_directory config = record config {
  quic = record config.quic { certificate = in_etc config.quic.certificate };
}

-- A temporary file that an earlier write left stays.
abbrev littered : Files
littered = record { target = none; temporaries = (5, ascii "ho") ∷ [] }

edit_file-IsEditOutcome_example :
    IsEdited print_tunnel
      (Reading.read parse_tunnel no_ip)
      with_home
      (change_tunnel (quic_set with_home.quic))
      littered
      (record littered { target = some (ascii "home") })
      with_home
    × (in_directory with_home ≡ in_directory with_home)
unfolding edit_file change_tunnel Reading.read HashMap.empty HashMap.get HashMap.insert
edit_file-IsEditOutcome_example =
    edit_file-IsEditOutcome print_tunnel (Reading.read parse_tunnel no_ip) with_home in_directory
      fine (change_tunnel (quic_set with_home.quic)) littered

home_reached :
    Reach print_tunnel parse_tunnel no_ip print_proxy parse_proxy no_legacy no_uri relative in_etc
      in_etc home_store
unfolding run_tunnel Reading.read HashMap.empty HashMap.get HashMap.insert
home_reached =
    stepped empty_store home_store
      (opened fine fine true true no_file no_file empty_store store_opens)
      (tunnel_ran empty_store fine confirmed (group_created home))

Reach-StoreIsSound_example : StoreIsSound no_ip home_store
Reach-StoreIsSound_example =
    Reach-StoreIsSound print_tunnel parse_tunnel no_ip print_proxy parse_proxy no_legacy no_uri
      relative in_etc in_etc home_store home_reached
