-- ===== src/Socks/Defs.antt =====
-- client/socks5.go. An operation goes from the bytes that the connection has still to deliver before it
-- ends to what it writes and its result with the bytes that are left. `net.IP.String` is the parameter
-- `ip_text`. A write whose error the code drops is taken to go through.
use nexus_proxy_server.Common.{
  ℕ, zero, suc, ◌+◌, ◌*◌, Bool, not, if◌then◌else◌, ltb, ◌==◌, nat_eq, Bytes, [], ◌∷◌, ◌++◌, length,
  take, drop,
}
use nexus_proxy_server.Hostnames.{contains}

abbrev pub socks5_version : ℕ
socks5_version = 5

abbrev pub socks5_auth_none : ℕ
socks5_auth_none = 0

abbrev pub socks5_auth_no_accpt : ℕ
socks5_auth_no_accpt = 255

abbrev pub socks5_cmd_connect : ℕ
socks5_cmd_connect = 1

abbrev pub socks5_atyp_ipv4 : ℕ
socks5_atyp_ipv4 = 1

abbrev pub socks5_atyp_domain : ℕ
socks5_atyp_domain = 3

abbrev pub socks5_atyp_ipv6 : ℕ
socks5_atyp_ipv6 = 4

abbrev pub socks5_rep_cmd_not_supported : ℕ
socks5_rep_cmd_not_supported = 7

abbrev pub socks5_rep_addr_not_supp : ℕ
socks5_rep_addr_not_supp = 8

pub data SocksError : Type 0 where
  short_read : SocksError
  bad_version : ℕ → SocksError
  no_methods : SocksError
  no_supported_method : SocksError
  write_failed : SocksError
  bad_command : ℕ → SocksError
  bad_address_type : ℕ → SocksError
  empty_domain : SocksError

pub data Result (A : Type 0) : Type 0 where
  failed : SocksError → Result A
  done : A → Bytes → Result A

pub record Outcome (A : Type 0) : Type 0 where
  pub sent : Bytes
  pub result : Result A

abbrev pub Conn : Type 0 → Type 0
Conn A = Bytes → Outcome A

abbrev pub chain : {A B : Type 0} → Bytes → Result A → (A → Conn B) → Outcome B
chain sent (failed e) next = record { sent = sent; result = failed e }
chain sent (done a rest) next = record {
  sent = sent ++ (next a rest).sent;
  result = (next a rest).result;
}

infixl 5 ◌>>=◌
abbrev pub ◌>>=◌ : {A B : Type 0} → Conn A → (A → Conn B) → Conn B
(op >>= next) input = chain (op input).sent (op input).result next

abbrev pub pure : {A : Type 0} → A → Conn A
pure a input = record { sent = []; result = done a input }

abbrev pub fail : {A : Type 0} → SocksError → Conn A
fail e input = record { sent = []; result = failed e }

abbrev pub send : Bytes → Conn Bytes
send bytes input = record { sent = bytes; result = done bytes input }

-- `io.ReadFull` into a buffer of `n` bytes.
unfoldable pub read_full : ℕ → Conn Bytes
read_full n input =
    if ltb (length input) n
    then record { sent = []; result = failed short_read }
    else record { sent = []; result = done (take n input) (drop n input) }

abbrev pub byte_at : ℕ → Bytes → ℕ
byte_at n [] = 0
byte_at zero (b ∷ bs) = b
byte_at (suc n) (b ∷ bs) = byte_at n bs

-- The answer to the methods; `ok` is the outcome of the last write.
unfoldable pub choose_method : Bool → Bytes → Conn Bytes
unfolding contains
choose_method ok methods =
    if contains socks5_auth_none methods
    then (do
      sent ← send (socks5_version ∷ socks5_auth_none ∷ [])
      if ok then pure sent else fail write_failed)
    else (do sent ← send (socks5_version ∷ socks5_auth_no_accpt ∷ []); fail no_supported_method)

-- `socks5Handshake`.
unfoldable pub socks5_handshake : Bool → Conn Bytes
unfolding read_full choose_method
socks5_handshake ok = do
  header ← read_full 2
  if not (byte_at 0 header == socks5_version)
      then fail (bad_version (byte_at 0 header))
      else if byte_at 1 header == 0
      then fail no_methods
      else (do methods ← read_full (byte_at 1 header); choose_method ok methods)

-- `socks5SendReply`.
unfoldable pub socks5_send_reply : ℕ → Conn Bytes
socks5_send_reply rep =
    send (socks5_version ∷ rep ∷ 0 ∷ socks5_atyp_ipv4 ∷ 0 ∷ 0 ∷ 0 ∷ 0 ∷ 0 ∷ 0 ∷ [])

-- `binary.BigEndian.Uint16`.
abbrev pub uint16 : Bytes → ℕ
uint16 bytes = byte_at 0 bytes * 256 + byte_at 1 bytes

module _ (ip_text : Bytes → Bytes) where
  -- The switch on the address type.
  unfoldable pub read_host : ℕ → Conn Bytes
  unfolding read_full socks5_send_reply
  read_host atyp =
      if atyp == socks5_atyp_ipv4
      then (do addr ← read_full 4; pure (ip_text addr))
      else if atyp == socks5_atyp_domain
      then (do
        len_buf ← read_full 1
        if byte_at 0 len_buf == 0 then fail empty_domain else read_full (byte_at 0 len_buf))
      else if atyp == socks5_atyp_ipv6
      then (do addr ← read_full 16; pure (ip_text addr))
      else (do sent ← socks5_send_reply socks5_rep_addr_not_supp; fail (bad_address_type atyp))

  -- `socks5ReadConnect`.
  unfoldable pub socks5_read_connect : Conn (Bytes × ℕ)
  unfolding read_full socks5_send_reply read_host
  socks5_read_connect = do
    header ← read_full 4
    if not (byte_at 0 header == socks5_version)
        then fail (bad_version (byte_at 0 header))
        else if not (byte_at 1 header == socks5_cmd_connect)
        then (do
          sent ← socks5_send_reply socks5_rep_cmd_not_supported
          fail (bad_command (byte_at 1 header)))
        else (do
          host ← read_host (byte_at 3 header)
          port_buf ← read_full 2
          pure (host, uint16 port_buf))
