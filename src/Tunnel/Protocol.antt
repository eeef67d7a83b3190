-- ===== src/Tunnel/Protocol.antt =====
-- crates/gaterust-tunnel/src/protocol.rs: the frames of the control channel and the datagrams of
-- a UDP relay. A reader is the list of the bytes that are still to arrive before the stream ends;
-- a writer is the list of the bytes that were written. The JSON codec is a parameter.
pub mod Framing
pub mod Declarations
pub mod Tests
use Prim.Native.Nat.{ℕ, suc, ◌+◌, ◌*◌, ◌/◌, ◌%◌, ◌-◌, ◌^◌}
use gate_rust.Common.{
  Bool, true, false, not, ◌&&◌, ◌||◌, Option, none, some, List, [], ◌∷◌, ◌++◌, ltb, leb,
  if◌then◌else◌, length, take, drop, all, contains, ◌==◌, ℕ_eq, list_eq,
}
use gate_rust.Common.Text.{Text, is_empty, is_ascii_alphanumeric}
use gate_rust.Common.Result.{Result, ok, err, ◌>>=◌, ◌>>◌, require}
use gate_rust.Tunnel.Config.{TunnelKind, max_client_services}
use gate_rust.Tunnel.Runtime.{ServiceDeclaration}

abbrev pub max_control_frame : ℕ
max_control_frame = 256 * 1024

abbrev pub max_datagram : ℕ
max_datagram = 65535

-- The errors of the channel: what the stream reports, and `TunnelError::Protocol` by its cause.
pub data ProtocolError : Type 0 where
  unexpected_eof serialize_failed frame_too_large length_overflow parse_failed : ProtocolError
  datagram_too_large too_many_services invalid_service_name : ProtocolError

-- `read_exact` of `n` bytes: the bytes and what is left, or the end of the stream.
unfoldable pub read_exact : ℕ → List ℕ → Result ProtocolError (List ℕ × List ℕ)
read_exact n input =
    if leb n (length input) then ok (take n input, drop n input) else err unexpected_eof

-- `u32::to_be_bytes` and `u16::to_be_bytes`
unfoldable pub be_bytes32 : ℕ → List ℕ
be_bytes32 n = n / 2 ^ 24 % 256 ∷ n / 2 ^ 16 % 256 ∷ n / 2 ^ 8 % 256 ∷ n % 256 ∷ []

unfoldable pub be_bytes16 : ℕ → List ℕ
be_bytes16 n = n / 256 % 256 ∷ n % 256 ∷ []

-- `read_u32` and `read_u16`
unfoldable pub read_u32 : List ℕ → Result ProtocolError (ℕ × List ℕ)
read_u32 (a ∷ b ∷ c ∷ d ∷ input) = ok (a * 2 ^ 24 + b * 2 ^ 16 + c * 2 ^ 8 + d, input)
read_u32 _ = err unexpected_eof

unfoldable pub read_u16 : List ℕ → Result ProtocolError (ℕ × List ℕ)
read_u16 (a ∷ b ∷ input) = ok (a * 256 + b, input)
read_u16 _ = err unexpected_eof

module _ {T : Type 0} where
  -- `serde_json::to_vec`
  unfoldable pub write_frame : (T → Option (List ℕ)) → T → List ℕ → Result ProtocolError (List ℕ)
  unfolding be_bytes32
  write_frame encode value written = elim (encode value) [
    | none ↦ err serialize_failed
    | some payload ↦
        if ltb max_control_frame (length payload)
        then err frame_too_large
        else if not (ltb (length payload) (2 ^ 32))
        then err length_overflow
        else ok (written ++ (be_bytes32 (length payload) ++ payload))
  ]

  parse_payload : (List ℕ → Option T) → List ℕ × List ℕ → Result ProtocolError (T × List ℕ)
  parse_payload decode (payload, input) = elim (decode payload) [
    | none ↦ err parse_failed
    | some value ↦ ok (value, input)
  ]

  read_payload : (List ℕ → Option T) → ℕ × List ℕ → Result ProtocolError (T × List ℕ)
  unfolding read_exact parse_payload
  read_payload decode (size, input) =
      if ltb max_control_frame size
      then err frame_too_large
      else read_exact size input >>= parse_payload decode

  -- `serde_json::from_slice`
  unfoldable pub read_frame : (List ℕ → Option T) → List ℕ → Result ProtocolError (T × List ℕ)
  unfolding read_u32 read_payload
  read_frame decode input = read_u32 input >>= read_payload decode

unfoldable pub write_datagram : List ℕ → List ℕ → Result ProtocolError (List ℕ)
unfolding be_bytes16
write_datagram payload written =
    if not (ltb (length payload) (2 ^ 16))
    then err datagram_too_large
    else ok (written ++ (be_bytes16 (length payload) ++ payload))

datagram_payload : ℕ × List ℕ → Result ProtocolError (List ℕ × List ℕ)
unfolding read_exact
datagram_payload (size, input) =
    if ltb max_datagram size then err datagram_too_large else read_exact size input

-- The buffer after the call, which has the datagram's length.
unfoldable pub read_datagram : List ℕ → Result ProtocolError (List ℕ × List ℕ)
unfolding read_u16 datagram_payload
read_datagram input = read_u16 input >>= datagram_payload

-- The test of `validate_declarations` on one byte of a name.
unfoldable pub is_name_byte : ℕ → Bool
is_name_byte b = is_ascii_alphanumeric b || (b == b'-' || b == b'_')

unfoldable pub is_valid_name : Text → Bool
unfolding is_name_byte
is_valid_name name = not (is_empty name) && (leb (length name) 64 && all is_name_byte name)

-- The loop of `validate_declarations`, with the names seen so far.
unfoldable pub check_declarations :
    List Text → List ServiceDeclaration → Result ProtocolError (Unit {0})
unfolding is_valid_name
check_declarations names [] = ok tt
check_declarations names (service ∷ services) =
    let rest = check_declarations (service.name ∷ names) services in
    if is_valid_name service.name && not (contains names service.name)
    then rest
    else err invalid_service_name

unfoldable pub validate_declarations : List ServiceDeclaration → Result ProtocolError (Unit {0})
unfolding check_declarations
validate_declarations services =
    if ltb max_client_services (length services)
    then err too_many_services
    else check_declarations [] services
