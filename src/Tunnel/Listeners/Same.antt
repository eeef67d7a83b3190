-- ===== src/Tunnel/Listeners/Same.antt =====
-- `same_listener` of crates/gaterust-tunnel/src/server/mod.rs is an equivalence.
use gate_rust.Common.{
  ◌≡◌, refl, ◌∙◌, true, arith, ◌==◌, ==_iff, ==_self, ℕ_eq, list_eq, option_eq, &&-eq-true,
}
use gate_rust.Common.Net.{addr_eq}
use gate_rust.Tunnel.Config.{TunnelKind, tcp, udp, socks5, kind_eq, ServerTunnelConfig}
use gate_rust.Tunnel.Listeners.{same_limits, same_listener}

same_limits_trans :
    (kind : TunnelKind) (a b c : ServerTunnelConfig)
    → same_limits kind a b ≡ true
    → same_limits kind b c ≡ true
    → same_limits kind a c ≡ true
same_limits_trans tcp a b c h g = (==_iff a.max_connections c.max_connections).1 (
    (==_iff a.max_connections b.max_connections).0 h
    ∙ (==_iff b.max_connections c.max_connections).0 g)
same_limits_trans socks5 a b c h g = (==_iff a.max_connections c.max_connections).1 (
    (==_iff a.max_connections b.max_connections).0 h
    ∙ (==_iff b.max_connections c.max_connections).0 g)
same_limits_trans udp a b c h g = ground arith

same_limits_self : (kind : TunnelKind) (c : ServerTunnelConfig) → same_limits kind c c ≡ true
same_limits_self tcp c = ==_self c.max_connections
same_limits_self socks5 c = ==_self c.max_connections
same_limits_self udp c = ground arith

pub record SameListener (a b : ServerTunnelConfig) : Type 0 where
  pub name : a.name ≡ b.name
  pub kind : a.kind ≡ b.kind
  pub bind : a.bind ≡ b.bind
  pub limit : a.limit_bps ≡ b.limit_bps
  pub limits : same_limits a.kind a b ≡ true

pub same_listener_sound : (a b : ServerTunnelConfig) → same_listener a b ≡ true → SameListener a b
unfolding same_listener
same_listener_sound a b h =
    let (name, h1) = &&-eq-true (a.name == b.name) _ h in
    let (kind, h2) = &&-eq-true (a.kind == b.kind) _ h1 in
    let (bind, h3) = &&-eq-true (a.bind == b.bind) _ h2 in
    let (limit, limits) = &&-eq-true (a.limit_bps == b.limit_bps) _ h3 in
    record {
      name = (==_iff a.name b.name).0 name;
      kind = (==_iff a.kind b.kind).0 kind;
      bind = (==_iff a.bind b.bind).0 bind;
      limit = (==_iff a.limit_bps b.limit_bps).0 limit;
      limits = limits;
    }

pub same_listener_complete :
    (a b : ServerTunnelConfig) → SameListener a b → same_listener a b ≡ true
unfolding same_listener
same_listener_complete a b s =
    rw
      (
        (==_iff a.name b.name).1 s.name,
        (==_iff a.kind b.kind).1 s.kind,
        (==_iff a.bind b.bind).1 s.bind,
        (==_iff a.limit_bps b.limit_bps).1 s.limit,
        same_listener,
      )
      s.limits

pub same_listener_trans :
    (a b c : ServerTunnelConfig)
    → same_listener a b ≡ true
    → same_listener b c ≡ true
    → same_listener a c ≡ true
same_listener_trans a b c h g =
    let s = same_listener_sound a b h in
    let t = same_listener_sound b c g in
    same_listener_complete a c (record {
      name = s.name ∙ t.name;
      kind = s.kind ∙ t.kind;
      bind = s.bind ∙ t.bind;
      limit = s.limit ∙ t.limit;
      limits = same_limits_trans a.kind a b c s.limits (rw s.kind t.limits);
    })

pub same_listener_self : (c : ServerTunnelConfig) → same_listener c c ≡ true
same_listener_self c = same_listener_complete c c (record {
  name = refl;
  kind = refl;
  bind = refl;
  limit = refl;
  limits = same_limits_self c.kind c;
})
