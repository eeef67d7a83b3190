-- ===== src/Tunnel/Protocol/Tests.antt =====
-- Runs of crates/gaterust-tunnel/src/protocol.rs. The codec here takes a payload for its own value.
use gate_rust.Common.{ℕ, ◌≤◌, ◌≡◌, refl, ◌↔◌, List, [], ◌∷◌, ◌++◌, Option, some, arith, All, length}
use gate_rust.Common.Text.{ascii}
use gate_rust.Common.Result.{ok, err}
use gate_rust.Tunnel.Config.{tcp, udp, max_client_services}
use gate_rust.Tunnel.Runtime.{ServiceDeclaration}
use gate_rust.Tunnel.Protocol.{
  unexpected_eof, invalid_service_name, be_bytes32, read_frame, write_frame, validate_declarations,
  max_control_frame,
}
use gate_rust.Tunnel.Protocol.Framing.{
  read_frame-write_frame, read_frame_truncated, read_frame_sound, read_datagrams, write_datagrams,
  read_datagrams-write_datagrams,
}
use gate_rust.Tunnel.Protocol.Declarations.{
  IsName, AreDistinct, names_of, validate_declarations_iff,
}

abbrev raw : List ℕ → Option (List ℕ)
raw payload = some payload

protocol : Unit {0}
unfolding read_frame write_frame read_datagrams write_datagrams validate_declarations
protocol = tt

abbrev hello : List ℕ
hello = ascii "{}"

abbrev hello_frame : List ℕ
hello_frame = 0 ∷ 0 ∷ 0 ∷ 2 ∷ hello

hello_written : write_frame raw hello [] ≡ ok hello_frame
unfolding protocol
hello_written = refl

read_frame-write_frame_example :
    (frame : List ℕ) × (write_frame raw hello (9 ∷ []) ≡ ok ((9 ∷ []) ++ frame))
    × (read_frame raw (frame ++ 7 ∷ []) ≡ ok (hello, 7 ∷ []))
read_frame-write_frame_example =
    read_frame-write_frame raw raw hello hello (9 ∷ []) (7 ∷ []) refl refl (omega arith)

read_frame_truncated_example : read_frame raw (0 ∷ 0 ∷ 0 ∷ 2 ∷ 123 ∷ []) ≡ err unexpected_eof
read_frame_truncated_example =
    read_frame_truncated raw raw hello hello hello_frame 5 refl hello_written (omega arith)

hello_read : read_frame raw (hello_frame ++ 7 ∷ []) ≡ ok (hello, 7 ∷ [])
unfolding protocol
hello_read = refl

read_frame_sound_example :
    (payload : List ℕ) × (hello_frame ++ 7 ∷ []
      ≡ be_bytes32 (length payload) ++ (payload ++ 7 ∷ []))
    × (length payload ≤ max_control_frame)
    × (raw payload ≡ some hello)
read_frame_sound_example =
    read_frame_sound raw raw (hello_frame ++ 7 ∷ []) (7 ∷ []) hello (omega arith) hello_read

abbrev packets : List (List ℕ)
packets = (1 ∷ 2 ∷ []) ∷ [] ∷ (3 ∷ []) ∷ []

read_datagrams-write_datagrams_example :
    (stream : List ℕ) × (write_datagrams packets [] ≡ ok stream)
    × (read_datagrams (length packets) (stream ++ 9 ∷ []) ≡ ok (packets, 9 ∷ []))
read_datagrams-write_datagrams_example =
    read_datagrams-write_datagrams packets (9 ∷ []) (omega arith)

abbrev declared : List ServiceDeclaration
declared =
    record { name = ascii "ssh"; kind = tcp } ∷ record { name = ascii "game_1"; kind = udp } ∷ []

validate_declarations_iff_example : (validate_declarations declared ≡ ok tt) ↔ (
    (length declared ≤ max_client_services)
    × All IsName (names_of declared)
    × AreDistinct (names_of declared))
validate_declarations_iff_example = validate_declarations_iff declared

rejected_names :
    (validate_declarations declared ≡ ok tt)
    × (validate_declarations (record { name = ascii "a b"; kind = tcp } ∷ [])
        ≡ err invalid_service_name)
    × (validate_declarations (record { name = ascii "ssh"; kind = udp } ∷ declared)
        ≡ err invalid_service_name)
unfolding protocol
rejected_names = (refl, refl, refl)
