-- ===== src/Tunnel/Socks5.antt =====
-- crates/gaterust-tunnel/src/server/socks5.rs: the SOCKS5 handshake. The input is the list of the
-- bytes that are still to arrive before the stream ends; the answer is what was written, and the
-- destination with the bytes behind the request, or the error. The texts of addresses and numbers
-- and the test of UTF-8 are parameters.
pub mod Handshake
pub mod Tests
use Prim.Native.Nat.{ℕ, ◌+◌, ◌*◌, ◌^◌}
use gate_rust.Common.{
  Bool, true, false, not, ◌&&◌, ◌||◌, List, [], ◌∷◌, ◌++◌, ◌==◌, ℕ_eq, contains, leb, if◌then◌else◌,
  length, take, drop,
}
use gate_rust.Common.Text.{Text}
use gate_rust.Common.Result.{Result, ok, err}

-- The ends of a handshake without a destination: the stream's, and `TunnelError::Protocol`'s by its
-- cause.
pub data SocksError : Type 0 where
  unexpected_eof invalid_greeting no_acceptable_method command_not_supported : SocksError
  empty_domain invalid_utf8 address_type_not_supported : SocksError

abbrev pub Outcome : Type 0
Outcome = List ℕ × Result SocksError (Text × List ℕ)

-- What `send_reply` writes.
abbrev pub reply : ℕ → List ℕ
reply status = 5 ∷ status ∷ 0 ∷ 1 ∷ 0 ∷ 0 ∷ 0 ∷ 0 ∷ 0 ∷ 0 ∷ []

abbrev pub after_write : List ℕ → Outcome → Outcome
after_write bytes (written, result) = (bytes ++ written, result)

pub record Formats : Type 0 where
  pub show_ipv4 : ℕ → Text
  pub show_ipv6 : List ℕ → Text
  pub show_port : ℕ → Text
  pub is_utf8 : List ℕ → Bool

module _ (formats : Formats) where
  -- The port, and the destination.
  unfoldable pub read_port : Text → List ℕ → Outcome
  read_port host (a ∷ b ∷ input) =
      ([], ok (host ++ (b':' ∷ formats.show_port (a * 256 + b)), input))
  read_port host _ = ([], err unexpected_eof)

  unfoldable pub read_domain : List ℕ → Outcome
  unfolding read_port
  read_domain [] = ([], err unexpected_eof)
  read_domain (size ∷ input) =
      if size == 0
      then (reply 8, err empty_domain)
      else if not (leb size (length input))
      then ([], err unexpected_eof)
      else if formats.is_utf8 (take size input)
      then read_port (take size input) (drop size input)
      else ([], err invalid_utf8)

  unfoldable pub read_ipv4 : List ℕ → Outcome
  unfolding read_port
  read_ipv4 (a ∷ b ∷ c ∷ d ∷ input) =
      read_port (formats.show_ipv4 (a * 2 ^ 24 + b * 2 ^ 16 + c * 2 ^ 8 + d)) input
  read_ipv4 _ = ([], err unexpected_eof)

  unfoldable pub read_ipv6 : List ℕ → Outcome
  unfolding read_port
  read_ipv6 input =
      if leb 16 (length input)
      then read_port (b'[' ∷ (formats.show_ipv6 (take 16 input) ++ (b']' ∷ []))) (drop 16 input)
      else ([], err unexpected_eof)

  unfoldable pub read_address : ℕ → List ℕ → Outcome
  unfolding read_ipv4 read_domain read_ipv6
  read_address kind input =
      if kind == 1
      then read_ipv4 input
      else if kind == 3
      then read_domain input
      else if kind == 4
      then read_ipv6 input
      else (reply 8, err address_type_not_supported)

  unfoldable pub read_request : List ℕ → Outcome
  unfolding read_address
  read_request (version ∷ command ∷ reserved ∷ kind ∷ input) =
      if not (version == 5) || (not (command == 1) || not (reserved == 0))
      then (reply 7, err command_not_supported)
      else read_address kind input
  read_request _ = ([], err unexpected_eof)

  unfoldable pub negotiate : List ℕ → List ℕ → Outcome
  unfolding read_request
  negotiate methods input =
      if contains methods 0
      then after_write (5 ∷ 0 ∷ []) (read_request input)
      else (5 ∷ 255 ∷ [], err no_acceptable_method)

  unfoldable pub handshake : List ℕ → Outcome
  unfolding negotiate
  handshake (version ∷ count ∷ input) =
      if not (version == 5) || count == 0
      then ([], err invalid_greeting)
      else if leb count (length input)
      then negotiate (take count input) (drop count input)
      else ([], err unexpected_eof)
  handshake _ = ([], err unexpected_eof)
