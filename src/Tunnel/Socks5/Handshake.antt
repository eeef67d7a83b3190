-- ===== src/Tunnel/Socks5/Handshake.antt =====
-- What the handshake of crates/gaterust-tunnel/src/server/socks5.rs accepts and answers.
use Prim.Native.Nat.{ℕ, ◌+◌, ◌*◌, ◌/◌, ◌%◌, ◌≤◌}
use gate_rust.Common.{
  length-take_exact, take-append-drop, ◌≡◌, refl, ap, sym, ◌∙◌, true, List, [], ◌∷◌, ◌++◌, arith,
  ℕ_eq, contains, leb, le→leb, length, take, drop, length-append, take-append_left,
  drop-append_left,
}
use gate_rust.Common.Text.{Text}
use gate_rust.Common.Result.{ok}
use gate_rust.Tunnel.Socks5.{
  Formats, read_port, read_domain, read_ipv4, read_ipv6, read_address, read_request, negotiate,
  handshake,
}

-- What a client sends that asks for a domain and a port.
abbrev pub domain_request : List ℕ → List ℕ → ℕ → List ℕ → List ℕ
domain_request methods domain port rest =
    5
    ∷ length methods
    ∷ (methods ++ (5 ∷ 1 ∷ 0 ∷ 3 ∷ length domain ∷ (domain ++ (port / 256 ∷ port % 256 ∷ rest))))

module _ (formats : Formats) where
  -- A read of a list and what follows it.
  whole : (xs ys : List ℕ) → leb (length xs) (length (xs ++ ys)) ≡ true
  whole xs ys = le→leb (length xs) (length (xs ++ ys)) (omega (arith, length-append xs ys))

  read_domain-append :
      (domain rest : List ℕ)
      → 1 ≤ length domain
      → formats.is_utf8 domain ≡ true
      → read_domain formats (length domain ∷ (domain ++ rest)) ≡ read_port formats domain rest
  unfolding read_domain
  read_domain-append domain rest some_bytes utf8 =
      ground (arith, whole domain rest, take-append_left domain rest, drop-append_left domain rest)

  offers_some : (methods : List ℕ) → contains methods 0 ≡ true → 1 ≤ length methods
  offers_some [] offered = absurd (ground arith)
  offers_some (m ∷ methods) offered = omega arith

  handshake-greeting :
      (methods input : List ℕ)
      → contains methods 0 ≡ true
      → handshake formats (5 ∷ length methods ∷ (methods ++ input))
        ≡ negotiate formats methods input
  unfolding handshake
  handshake-greeting methods input offered = ground (
    arith,
    offers_some methods offered,
    whole methods input,
    take-append_left methods input,
    drop-append_left methods input,
  )

  read_port_lem :
      (host : Text) (port : ℕ) (rest : List ℕ)
      → read_port formats host (port / 256 ∷ port % 256 ∷ rest)
        ≡ ([], ok (host ++ (b':' ∷ formats.show_port port), rest))
  unfolding read_port
  read_port_lem host port rest =
      let split : port / 256 * 256 + port % 256 ≡ port = omega arith in rw split refl

  -- A client that offers to go without authentication and asks to connect to a domain of at least
  -- one byte in UTF-8 and a port is answered that no authentication is needed, the destination is the
  -- domain and the port, and what it sends behind the request is left.
  pub handshake-domain_request :
      (methods domain : List ℕ) (port : ℕ) (rest : List ℕ)
      → contains methods 0 ≡ true
      → 1 ≤ length domain
      → formats.is_utf8 domain ≡ true
      → handshake formats (domain_request methods domain port rest)
        ≡ (5 ∷ 0 ∷ [], ok (domain ++ (b':' ∷ formats.show_port port), rest))
  unfolding negotiate read_request read_address
  handshake-domain_request methods domain port rest offered some_bytes utf8 =
      let tail = port / 256 ∷ port % 256 ∷ rest in
      let input = 5 ∷ 1 ∷ 0 ∷ 3 ∷ length domain ∷ (domain ++ tail) in
      let greeted = handshake-greeting methods input offered in
      let named = read_domain-append domain tail some_bytes utf8 ∙ read_port_lem domain port rest in
      rw (greeted, negotiate, offered, read_request, read_address, named) refl

  read_port_silent :
      (host : Text) (input : List ℕ) {target rest written : List ℕ}
      → read_port formats host input ≡ (written, ok (target, rest))
      → written ≡ []
  unfolding read_port
  read_port_silent host [] h = ground arith
  read_port_silent host (a ∷ []) h = ground arith
  read_port_silent host (a ∷ b ∷ input) h = ground arith

  read_ipv4_silent :
      (input : List ℕ) {target rest written : List ℕ}
      → read_ipv4 formats input ≡ (written, ok (target, rest))
      → written ≡ []
  unfolding read_ipv4
  read_ipv4_silent [] h = ground arith
  read_ipv4_silent (a ∷ []) h = ground arith
  read_ipv4_silent (a ∷ b ∷ []) h = ground arith
  read_ipv4_silent (a ∷ b ∷ c ∷ []) h = ground arith
  read_ipv4_silent (a ∷ b ∷ c ∷ d ∷ input) h = read_port_silent _ input h

  read_domain_silent :
      (input : List ℕ) {target rest written : List ℕ}
      → read_domain formats input ≡ (written, ok (target, rest))
      → written ≡ []
  unfolding read_domain
  read_domain_silent [] h = ground arith
  read_domain_silent (size ∷ input) h =
      ground (arith, read_port_silent (take size input) (drop size input))

  read_ipv6_silent :
      (input : List ℕ) {target rest written : List ℕ}
      → read_ipv6 formats input ≡ (written, ok (target, rest))
      → written ≡ []
  unfolding read_ipv6
  read_ipv6_silent input h = ground (
    arith,
    read_port_silent (b'[' ∷ (formats.show_ipv6 (take 16 input) ++ (b']' ∷ []))) (drop 16 input),
  )

  read_address_silent :
      (kind : ℕ) (input : List ℕ) {target rest written : List ℕ}
      → read_address formats kind input ≡ (written, ok (target, rest))
      → written ≡ []
  unfolding read_address
  read_address_silent kind input h =
      ground (arith, read_ipv4_silent input, read_domain_silent input, read_ipv6_silent input)

  read_request_sound :
      (input target rest written : List ℕ)
      → read_request formats input ≡ (written, ok (target, rest))
      → (kind : ℕ) × (address : List ℕ) × (input ≡ 5 ∷ 1 ∷ 0 ∷ kind ∷ address) × (written ≡ [])
  unfolding read_request
  read_request_sound [] target rest written h = absurd (ground arith)
  read_request_sound (a ∷ []) target rest written h = absurd (ground arith)
  read_request_sound (a ∷ b ∷ []) target rest written h = absurd (ground arith)
  read_request_sound (a ∷ b ∷ c ∷ []) target rest written h = absurd (ground arith)
  read_request_sound (a ∷ b ∷ c ∷ kind ∷ address) target rest written h =
      (kind, address, ground arith, ground (arith, read_address_silent kind address))

  negotiate_offered :
      (methods input target rest written : List ℕ)
      → negotiate formats methods input ≡ (written, ok (target, rest))
      → contains methods 0 ≡ true
  unfolding negotiate
  negotiate_offered methods input target rest written h = ground arith

  negotiate_sound :
      (methods input target rest written : List ℕ)
      → negotiate formats methods input ≡ (written, ok (target, rest))
      → (kind : ℕ) × (address : List ℕ) × (input ≡ 5 ∷ 1 ∷ 0 ∷ kind ∷ address)
        × (written ≡ 5 ∷ 0 ∷ [])
  unfolding negotiate
  negotiate_sound methods input target rest written h =
      let offered = negotiate_offered methods input target rest written h in
      let (kind, address, shape, silent) =
        read_request_sound input target rest (read_request formats input).0 (ground arith) in
      (kind, address, shape, ground arith)

  accepted :
      (version count : ℕ) (input target rest written : List ℕ)
      → handshake formats (version ∷ count ∷ input) ≡ (written, ok (target, rest))
      → (version ≡ 5)
        × (count ≤ length input)
        × (negotiate formats (take count input) (drop count input) ≡ (written, ok (target, rest)))
  unfolding handshake
  accepted version count input target rest written h = (ground arith, ground arith, ground arith)

  -- A destination comes only from a client that speaks SOCKS5, offers to go without authentication
  -- and asks to connect; nothing but the choice of that method has been written then.
  pub handshake_sound :
      (input target rest written : List ℕ)
      → handshake formats input ≡ (written, ok (target, rest))
      → (methods : List ℕ) × (kind : ℕ) × (address : List ℕ) × (input
          ≡ 5 ∷ length methods ∷ (methods ++ (5 ∷ 1 ∷ 0 ∷ kind ∷ address)))
        × (contains methods 0 ≡ true)
        × (written ≡ 5 ∷ 0 ∷ [])
  unfolding handshake
  handshake_sound [] target rest written h = absurd (ground arith)
  handshake_sound (v ∷ []) target rest written h = absurd (ground arith)
  handshake_sound (v ∷ count ∷ input) target rest written h =
      let (version, long, agreed) = accepted v count input target rest written h in
      let methods = take count input in
      let (kind, address, shape, answer) =
        negotiate_sound methods (drop count input) target rest written agreed in
      let split : methods ++ (5 ∷ 1 ∷ 0 ∷ kind ∷ address) ≡ input =
        ap (◌++◌ methods) (sym shape) ∙ take-append-drop count input in
      (
        methods,
        kind,
        address,
        rw (version, split, length-take_exact count input long) refl,
        negotiate_offered methods (drop count input) target rest written agreed,
        answer,
      )
