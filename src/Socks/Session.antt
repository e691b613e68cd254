-- ===== src/Socks/Session.antt =====
-- client/socks5.go: a client of the SOCKS5 server that follows RFC 1928 is understood.
use mathlib.Core.List.{append_assoc}
use nexus_proxy_server.Common.{
  ℕ, ◌+◌, ◌*◌, ◌/◌, ◌%◌, ◌<◌, ◌≡◌, refl, sym, ap, ◌∙◌, Bool, true, false, not, if◌then◌else◌, ltb,
  ◌==◌, nat_eq, Bytes, [], ◌∷◌, ◌++◌, length, length-append, arith, Bool-cases, inl, inr,
}
use nexus_proxy_server.Hostnames.{contains}
use nexus_proxy_server.Hostnames.Wildcard.{take-append, drop-append}
use nexus_proxy_server.Socks.Defs.{
  Conn, failed, done, chain, ◌>>=◌, pure, fail, read_full, byte_at, uint16, choose_method,
  socks5_handshake, socks5_send_reply, read_host, socks5_read_connect, no_supported_method,
  socks5_version, socks5_auth_none, socks5_auth_no_accpt, socks5_cmd_connect, socks5_atyp_ipv4,
  socks5_atyp_domain, socks5_atyp_ipv6, bad_version, no_methods, empty_domain, bad_command,
  socks5_rep_cmd_not_supported,
}

-- A target as RFC 1928 has it.
pub data Target : Type 0 where
  ipv4 : Bytes → Target
  domain : Bytes → Target
  ipv6 : Bytes → Target

unfoldable pub is_target : Target → Bool
is_target (ipv4 a) = length a == 4
is_target (domain name) = ltb 0 (length name)
is_target (ipv6 a) = length a == 16

-- The address type and the address on the wire.
unfoldable pub kind_of : Target → ℕ
kind_of (ipv4 a) = socks5_atyp_ipv4
kind_of (domain name) = socks5_atyp_domain
kind_of (ipv6 a) = socks5_atyp_ipv6

unfoldable pub address : Target → Bytes
address (ipv4 a) = a
address (domain name) = length name ∷ name
address (ipv6 a) = a

unfoldable pub port_bytes : ℕ → Bytes
port_bytes port = (port / 256) ∷ (port % 256) ∷ []

-- A CONNECT request, with the reserved byte.
unfoldable pub request : ℕ → Target → ℕ → Bytes
unfolding kind_of address port_bytes
request rsv target port =
    socks5_version ∷ socks5_cmd_connect ∷ rsv ∷ kind_of target ∷ (address target ++ port_bytes port)

-- The offer of methods.
unfoldable pub offer : Bytes → Bytes
offer methods = socks5_version ∷ length methods ∷ methods

pub read_full-append :
    (xs rest : Bytes)
    → read_full (length xs) (xs ++ rest) ≡ record { sent = []; result = done xs rest }
unfolding read_full
read_full-append xs rest =
    ground (arith, length-append xs rest, take-append xs rest, drop-append xs rest)

-- The host as the server has it.
unfoldable pub host_of : (Bytes → Bytes) → Target → Bytes
host_of ip_text (ipv4 a) = ip_text a
host_of ip_text (domain name) = name
host_of ip_text (ipv6 a) = ip_text a

bind-done :
    {A B : Type 0} (op : Conn A) (next : A → Conn B) (input rest : Bytes) (a : A)
    → op input ≡ record { sent = []; result = done a rest }
    → (op >>= next) input ≡ next a rest
bind-done op next input rest a e = ap (λ o. chain o.sent o.result next) e

full : (xs : Bytes) → 0 < length xs → (length xs == 0) ≡ false
full [] h = absurd (omega arith)
full (x ∷ xs) h = ground arith

after_header : Bool → Bytes → Conn Bytes
unfolding read_full choose_method
after_header ok header =
    if not (byte_at 0 header == socks5_version)
    then fail (bad_version (byte_at 0 header))
    else if byte_at 1 header == 0
    then fail no_methods
    else (read_full (byte_at 1 header) >>= choose_method ok)

-- The handshake of an offer that is not empty comes to the choice of a method.
handshake-offer :
    (ok : Bool) (methods rest : Bytes)
    → 0 < length methods
    → socks5_handshake ok (offer methods ++ rest) ≡ choose_method ok methods rest
unfolding socks5_handshake offer after_header
handshake-offer ok methods rest h =
    let header = socks5_version ∷ length methods ∷ [] in
    bind-done (read_full 2) (after_header ok) (offer methods ++ rest) (methods ++ rest) header
      (read_full-append header (methods ++ rest))
    ∙ ap
        (λ b.
          (if b then fail no_methods else (read_full (length methods) >>= choose_method ok))
            (methods ++ rest))
        (full methods h)
    ∙ bind-done (read_full (length methods)) (choose_method ok) (methods ++ rest) rest methods
        (read_full-append methods rest)

module _ (ip_text : Bytes → Bytes) where
  read_host-address :
      (target : Target) (rest : Bytes)
      → is_target target ≡ true
      → read_host ip_text (kind_of target) (address target ++ rest)
        ≡ record { sent = []; result = done (host_of ip_text target) rest }
  unfolding is_target address kind_of read_host host_of
  read_host-address (ipv4 a) rest h =
      let four : length a ≡ 4 = ground (arith, h) in
      bind-done (read_full 4) (λ addr. pure (ip_text addr)) (a ++ rest) rest a
        (ap (λ n. read_full n (a ++ rest)) (sym four) ∙ read_full-append a rest)
  read_host-address (ipv6 a) rest h =
      let sixteen : length a ≡ 16 = ground (arith, h) in
      bind-done (read_full 16) (λ addr. pure (ip_text addr)) (a ++ rest) rest a
        (ap (λ n. read_full n (a ++ rest)) (sym sixteen) ∙ read_full-append a rest)
  read_host-address (domain name) rest h =
      let some_name : 0 < length name = ground (arith, h) in
      bind-done (read_full 1)
        (λ len_buf.
          if byte_at 0 len_buf == 0 then fail empty_domain else read_full (byte_at 0 len_buf))
        (length name ∷ (name ++ rest)) (name ++ rest) (length name ∷ [])
        (read_full-append (length name ∷ []) (name ++ rest))
      ∙ ap (λ b. (if b then fail empty_domain else read_full (length name)) (name ++ rest))
          (full name some_name)
      ∙ read_full-append name rest

  read_port : Bytes → Conn (Bytes × ℕ)
  read_port host = read_full 2 >>= (λ port_buf. pure (host, uint16 port_buf))

  after_request : Bytes → Conn (Bytes × ℕ)
  unfolding read_port
  after_request header =
      if not (byte_at 0 header == socks5_version)
      then fail (bad_version (byte_at 0 header))
      else if not (byte_at 1 header == socks5_cmd_connect)
      then (socks5_send_reply socks5_rep_cmd_not_supported
          >>= (λ sent. fail (bad_command (byte_at 1 header))))
      else (read_host ip_text (byte_at 3 header) >>= read_port)

  -- A request that follows RFC 1928 is read as its target and port, and nothing is written.
  connect-request :
      (rsv : ℕ) (target : Target) (port : ℕ) (rest : Bytes)
      → is_target target ≡ true
      → socks5_read_connect ip_text (request rsv target port ++ rest)
        ≡ record { sent = []; result = done (host_of ip_text target, port) rest }
  unfolding socks5_read_connect request port_bytes after_request read_port
  connect-request rsv target port rest h =
      let header = socks5_version ∷ socks5_cmd_connect ∷ rsv ∷ kind_of target ∷ [] in
      let body = address target ++ (port_bytes port ++ rest) in
      let number : port / 256 * 256 + port % 256 ≡ port = omega arith in
      ap (λ xs. socks5_read_connect ip_text (header ++ xs))
        (append_assoc (address target) (port_bytes port) rest)
      ∙ bind-done (read_full 4) after_request (header ++ body) body header
          (read_full-append header body)
      ∙ bind-done (read_host ip_text (kind_of target)) read_port body (port_bytes port ++ rest)
          (host_of ip_text target) (read_host-address target (port_bytes port ++ rest) h)
      ∙ bind-done (read_full 2) (λ port_buf. pure (host_of ip_text target, uint16 port_buf))
          (port_bytes port ++ rest) rest (port_bytes port) (read_full-append (port_bytes port) rest)
      ∙ ap (λ n. record { sent = []; result = done (host_of ip_text target, n) rest }) number

-- What the server does with a connection: the handshake, then the request.
unfoldable pub session : (Bytes → Bytes) → Bool → Conn (Bytes × ℕ)
unfolding socks5_handshake socks5_read_connect
session ip_text ok = socks5_handshake ok >>= (λ sent. socks5_read_connect ip_text)

-- A client that offers no authentication among its methods, and then sends a CONNECT request for an
-- address or a name that is not empty, is answered with that method and is understood: the server has
-- the target's text and port, what follows is left to be read, and nothing else was written. A client that
-- does not offer it is answered that no method is acceptable, and its request is not read.
pub session-request :
    (ip_text : Bytes → Bytes) (methods : Bytes) (rsv : ℕ) (target : Target) (port : ℕ)
    (rest : Bytes)
    → 0 < length methods
    → is_target target ≡ true
    → session ip_text true (offer methods ++ (request rsv target port ++ rest)) ≡ (
        if contains socks5_auth_none methods
        then record {
          sent = socks5_version ∷ socks5_auth_none ∷ [];
          result = done (host_of ip_text target, port) rest;
        }
        else record {
          sent = socks5_version ∷ socks5_auth_no_accpt ∷ [];
          result = failed no_supported_method;
        })
unfolding session choose_method
session-request ip_text methods rsv target port rest full_offer h =
    let input = request rsv target port ++ rest in
    let connect = λ (sent : Bytes). socks5_read_connect ip_text in
    ap (λ o. chain o.sent o.result connect) (handshake-offer true methods input full_offer)
    ∙ elim (Bool-cases (contains socks5_auth_none methods)) [
      | inl free ↦ rw free (
          ap (λ o. record { sent = socks5_version ∷ socks5_auth_none ∷ o.sent; result = o.result })
            (connect-request ip_text rsv target port rest h))
      | inr other ↦ rw other refl
    ]
