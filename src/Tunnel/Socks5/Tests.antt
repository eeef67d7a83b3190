-- ===== src/Tunnel/Socks5/Tests.antt =====
-- Runs of crates/gaterust-tunnel/src/server/socks5.rs. The texts of addresses here are fixed, and
-- every list of bytes is UTF-8.
use gate_rust.Common.{ℕ, ◌≡◌, refl, true, List, [], ◌∷◌, ◌++◌, arith, length, contains, ℕ_eq}
use gate_rust.Common.Text.{ascii}
use gate_rust.Common.Result.{ok, err}
use gate_rust.Tunnel.Socks5.{Formats, handshake, reply, command_not_supported}
use gate_rust.Tunnel.Socks5.Handshake.{domain_request, handshake-domain_request, handshake_sound}

socks : Unit {0}
unfolding handshake
socks = tt

abbrev formats : Formats
formats = record {
  show_ipv4 = λ _. ascii "4";
  show_ipv6 = λ _. ascii "6";
  show_port = λ _. ascii "443";
  is_utf8 = λ _. true;
}

abbrev sent : List ℕ
sent = domain_request (2 ∷ 0 ∷ []) (ascii "e.com") 443 (1 ∷ [])

connected : handshake formats sent ≡ (5 ∷ 0 ∷ [], ok (ascii "e.com:443", 1 ∷ []))
unfolding socks
connected = refl

abbrev granted : List ℕ
granted = 5 ∷ 0 ∷ []

-- A request to bind.
bind_refused :
    handshake formats (5 ∷ 1 ∷ 0 ∷ 5 ∷ 2 ∷ 0 ∷ 1 ∷ [])
    ≡ (5 ∷ 0 ∷ reply 7, err command_not_supported)
unfolding socks
bind_refused = refl

handshake-domain_request_example :
    handshake formats sent ≡ (5 ∷ 0 ∷ [], ok (ascii "e.com:443", 1 ∷ []))
handshake-domain_request_example =
    handshake-domain_request formats (2 ∷ 0 ∷ []) (ascii "e.com") 443 (1 ∷ []) refl (omega arith)
      refl

handshake_sound_example :
    (methods : List ℕ) × (kind : ℕ) × (address : List ℕ) × (sent
      ≡ 5 ∷ length methods ∷ (methods ++ (5 ∷ 1 ∷ 0 ∷ kind ∷ address)))
    × (contains methods 0 ≡ true)
    × (granted ≡ 5 ∷ 0 ∷ [])
handshake_sound_example =
    handshake_sound formats sent (ascii "e.com:443") (1 ∷ []) granted connected
