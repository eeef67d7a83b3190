-- ===== src/Tunnel/Protocol/Framing.antt =====
-- What is written is read back (crates/gaterust-tunnel/src/protocol.rs), whatever follows.
use Prim.Native.Nat.{ℕ, zero, suc, ◌+◌, ◌*◌, ◌^◌, ◌≤◌, ◌<◌}
use mathlib.Core.List.{append_assoc, append-nil}
use gate_rust.Common.{
  length-take_exact, take-append-drop, Option, some, List, [], ◌∷◌, ◌++◌, length, take, drop, ◌≡◌,
  refl, ap, arith, length-append, take-append_left, drop-append_left, le→leb, All,
}
use gate_rust.Common.Result.{Result, ok, err, ◌>>=◌}
use gate_rust.Tunnel.Protocol.{
  ProtocolError, unexpected_eof, max_control_frame, max_datagram, read_exact, be_bytes32,
  be_bytes16, read_u32, read_u16, write_frame, parse_payload, read_payload, read_frame,
  write_datagram, datagram_payload, read_datagram,
}

read_u32-be_bytes32 :
    (n : ℕ) (input : List ℕ) → n < 2 ^ 32 → read_u32 (be_bytes32 n ++ input) ≡ ok (n, input)
unfolding read_u32 be_bytes32
read_u32-be_bytes32 n input h = ground arith

read_u16-be_bytes16 :
    (n : ℕ) (input : List ℕ) → n < 2 ^ 16 → read_u16 (be_bytes16 n ++ input) ≡ ok (n, input)
unfolding read_u16 be_bytes16
read_u16-be_bytes16 n input h = ground arith

read_exact-append :
    (payload input : List ℕ) → read_exact (length payload) (payload ++ input) ≡ ok (payload, input)
unfolding read_exact
read_exact-append payload input = rw (
  le→leb (length payload) (length (payload ++ input)) (omega (arith, length-append payload input)),
  take-append_left payload input,
  drop-append_left payload input,
)

length-take_short : (k : ℕ) (l : List ℕ) → k < length l → length (take k l) ≡ k
length-take_short zero l h = refl
length-take_short (suc k) [] h = absurd (omega arith)
length-take_short (suc k) (x ∷ l) h = ap suc (length-take_short k l (omega arith))

be_bytes32_of :
    (a b c d : ℕ)
    → a < 256
    → b < 256
    → c < 256
    → d < 256
    → be_bytes32 (a * 2 ^ 24 + b * 2 ^ 16 + c * 2 ^ 8 + d) ≡ a ∷ b ∷ c ∷ d ∷ []
unfolding be_bytes32
be_bytes32_of a b c d ha hb hc hd = ground arith

write_datagram_lem :
    (payload written : List ℕ)
    → length payload ≤ max_datagram
    → write_datagram payload written ≡ ok (written ++ (be_bytes16 (length payload) ++ payload))
unfolding write_datagram
write_datagram_lem payload written fit = ground arith

module _ {T : Type 0} (encode : T → Option (List ℕ)) (decode : List ℕ → Option T) where
  framed :
      (value : T) (payload written : List ℕ) {out : List ℕ}
      → encode value ≡ some payload
      → write_frame encode value written ≡ ok out
      → (length payload ≤ max_control_frame)
        × (out ≡ written ++ (be_bytes32 (length payload) ++ payload))
  unfolding write_frame
  framed value payload written e h = ground arith

  written_frame :
      (value : T) (payload written : List ℕ)
      → encode value ≡ some payload
      → length payload ≤ max_control_frame
      → write_frame encode value written ≡ ok (written ++ (be_bytes32 (length payload) ++ payload))
  unfolding write_frame
  written_frame value payload written e fits = ground arith

  frame_read :
      (value : T) (payload input : List ℕ)
      → decode payload ≡ some value
      → length payload ≤ max_control_frame
      → read_frame decode ((be_bytes32 (length payload) ++ payload) ++ input) ≡ ok (value, input)
  unfolding read_frame read_payload parse_payload
  frame_read value payload input d fits =
      let header = be_bytes32 (length payload) in
      rw
        (
          append_assoc header payload input,
          read_u32-be_bytes32 (length payload) (payload ++ input) (omega arith),
        )
        (ground (arith, read_exact-append payload input))

  -- A value whose payload has at most 256 KiB can be written behind what was written before, and
  -- if the codec reads the payload back, reading the frame gives the value and leaves what follows.
  pub read_frame-write_frame :
      (value : T) (payload written input : List ℕ)
      → encode value ≡ some payload
      → decode payload ≡ some value
      → length payload ≤ max_control_frame
      → (frame : List ℕ) × (write_frame encode value written ≡ ok (written ++ frame))
        × (read_frame decode (frame ++ input) ≡ ok (value, input))
  read_frame-write_frame value payload written input e d fits = (
    be_bytes32 (length payload) ++ payload,
    written_frame value payload written e fits,
    frame_read value payload input d fits,
  )

  truncated :
      (payload : List ℕ) (k : ℕ)
      → length payload ≤ max_control_frame
      → k < length (be_bytes32 (length payload) ++ payload)
      → read_frame decode (take k (be_bytes32 (length payload) ++ payload)) ≡ err unexpected_eof
  unfolding read_frame read_u32 be_bytes32 read_payload read_exact
  truncated payload zero fits short = refl
  truncated payload (suc zero) fits short = refl
  truncated payload (suc (suc zero)) fits short = refl
  truncated payload (suc (suc (suc zero))) fits short = refl
  truncated payload (suc (suc (suc (suc k)))) fits short =
      ground (arith, length-take_short k payload)

  -- Cutting a frame anywhere before its end is reported as the end of the stream; no shorter frame
  -- is read in its place.
  pub read_frame_truncated :
      (value : T) (payload frame : List ℕ) (k : ℕ)
      → encode value ≡ some payload
      → write_frame encode value [] ≡ ok frame
      → k < length frame
      → read_frame decode (take k frame) ≡ err unexpected_eof
  read_frame_truncated value payload frame k e h short =
      let (fits, shape) = framed value payload [] e h in
      rw shape (truncated payload k fits (rw shape at short))

  abbrev AreBytes : List ℕ → Type 0
  AreBytes = All (λ b. b < 256)

  -- Whatever is read was framed: the bytes that were read are the four bytes of a length of at most
  -- 256 KiB and a payload of that length that parses to the value, and what follows is left.
  pub read_frame_sound :
      (input rest : List ℕ) (value : T)
      → AreBytes input
      → read_frame decode input ≡ ok (value, rest)
      → (payload : List ℕ) × (input ≡ be_bytes32 (length payload) ++ (payload ++ rest))
        × (length payload ≤ max_control_frame)
        × (decode payload ≡ some value)
  unfolding read_frame read_u32 read_payload parse_payload read_exact
  read_frame_sound (a ∷ b ∷ c ∷ d ∷ input) rest value (ha, (hb, (hc, (hd, _)))) h =
      let size = a * 2 ^ 24 + b * 2 ^ 16 + c * 2 ^ 8 + d in
      let payload = take size input in
      let cut : drop size input ≡ rest = ground arith in
      let long : size ≤ length input = ground arith in
      let full : length payload ≡ size = length-take_exact size input long in
      (
        payload,
        rw (full, be_bytes32_of a b c d ha hb hc hd, ← cut, take-append-drop size input),
        rw full (ground arith),
        ground arith,
      )
  read_frame_sound [] rest value bytes h = cc
  read_frame_sound (a ∷ []) rest value bytes h = cc
  read_frame_sound (a ∷ b ∷ []) rest value bytes h = cc
  read_frame_sound (a ∷ b ∷ c ∷ []) rest value bytes h = cc

-- The datagrams of a relay, written one behind another, and as many reads of the stream.
unfoldable pub write_datagrams : List (List ℕ) → List ℕ → Result ProtocolError (List ℕ)
unfolding write_datagram
write_datagrams [] written = ok written
write_datagrams (payload ∷ payloads) written =
    write_datagram payload written >>= write_datagrams payloads

unfoldable pub read_datagrams : ℕ → List ℕ → Result ProtocolError (List (List ℕ) × List ℕ)
unfolding read_datagram
read_datagrams zero input = ok ([], input)
read_datagrams (suc n) input = do
  (payload, rest) ← read_datagram input
  (payloads, left) ← read_datagrams n rest
  ok (payload ∷ payloads, left)

abbrev datagram : List ℕ → List ℕ
datagram payload = be_bytes16 (length payload) ++ payload

abbrev datagram_stream : List (List ℕ) → List ℕ
datagram_stream [] = []
datagram_stream (payload ∷ payloads) = datagram payload ++ datagram_stream payloads

abbrev pub FitDatagrams : List (List ℕ) → Type 0
FitDatagrams = All (λ payload. length payload ≤ max_datagram)

write_datagrams_lem :
    (payloads : List (List ℕ)) (written : List ℕ)
    → FitDatagrams payloads
    → write_datagrams payloads written ≡ ok (written ++ datagram_stream payloads)
unfolding write_datagrams
write_datagrams_lem [] written fits = rw append-nil
write_datagrams_lem (payload ∷ payloads) written (fit, fits) =
    rw (write_datagram_lem payload written fit)
      (rw (write_datagrams_lem payloads (written ++ datagram payload) fits) (rw append_assoc))

read_datagram_lem :
    (payload input : List ℕ)
    → length payload ≤ max_datagram
    → read_datagram (datagram payload ++ input) ≡ ok (payload, input)
unfolding read_datagram datagram_payload
read_datagram_lem payload input fit =
    rw
      (
        append_assoc (be_bytes16 (length payload)) payload input,
        read_u16-be_bytes16 (length payload) (payload ++ input) (omega arith),
      )
      (ground (arith, read_exact-append payload input))

read_datagrams_lem :
    (payloads : List (List ℕ)) (input : List ℕ)
    → FitDatagrams payloads
    → read_datagrams (length payloads) (datagram_stream payloads ++ input) ≡ ok (payloads, input)
unfolding read_datagrams
read_datagrams_lem [] input fits = refl
read_datagrams_lem (payload ∷ payloads) input (fit, fits) =
    rw
      (
        append_assoc (datagram payload) (datagram_stream payloads) input,
        read_datagram_lem payload (datagram_stream payloads ++ input) fit,
      )
      (rw (read_datagrams_lem payloads input fits))

-- Datagrams of at most 65535 bytes can all be written, and reading as many from the stream gives
-- them back in their order, with their boundaries, and what follows is left.
pub read_datagrams-write_datagrams :
    (payloads : List (List ℕ)) (input : List ℕ)
    → FitDatagrams payloads
    → (stream : List ℕ) × (write_datagrams payloads [] ≡ ok stream)
      × (read_datagrams (length payloads) (stream ++ input) ≡ ok (payloads, input))
read_datagrams-write_datagrams payloads input fits = (
  datagram_stream payloads,
  write_datagrams_lem payloads [] fits,
  read_datagrams_lem payloads input fits,
)
