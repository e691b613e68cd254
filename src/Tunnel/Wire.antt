-- ===== src/Tunnel/Wire.antt =====
-- internal/peer/tunnel.go and internal/peer/peer.go: the message that grants credits, written and read. A
-- client's identifier is a list of bytes.
use nexus_proxy_server.Common.{
  ℕ, zero, suc, ◌+◌, ◌*◌, ◌/◌, ◌%◌, ◌||◌, if◌then◌else◌, ltb, leb, ◌==◌, nat_eq, Bytes, [], ◌∷◌,
  ◌++◌, Option, none, some, length, take, drop,
}
use nexus_proxy_server.Buffered.{default_credit_capacity}

-- `PeerTunnelCredits` and `ClientIDLength`.
abbrev pub peer_tunnel_credits : ℕ
peer_tunnel_credits = 21

abbrev pub client_id_length : ℕ
client_id_length = 16

-- `binary.BigEndian.PutUint64`, for a number of bytes.
unfoldable pub put_uint : ℕ → ℕ → Bytes
put_uint zero n = []
put_uint (suc k) n = put_uint k (n / 256) ++ ((n % 256) ∷ [])

-- `binary.BigEndian.Uint64`.
unfoldable pub get_uint : ℕ → Bytes → ℕ
get_uint n [] = n
get_uint n (b ∷ bs) = get_uint (n * 256 + b) bs

-- `makeTunnelCreditMessage`, where `credits` is the number as a `uint64`.
unfoldable pub make_tunnel_credit_message : Bytes → ℕ → Bytes
unfolding put_uint
make_tunnel_credit_message client_id credits =
    peer_tunnel_credits ∷ (client_id ++ put_uint 8 credits)

-- The credits that the reader takes, where a number from 2 ^ 63 on is negative as an `int64`.
unfoldable pub capped_credits : ℕ → ℕ
capped_credits n =
    if n == 0 || leb 9223372036854775808 n || ltb default_credit_capacity n
    then default_credit_capacity
    else n

-- The case `PeerTunnelCredits` of `readPump`: the client and its credits, `none` for a short message.
unfoldable pub read_tunnel_credits : Bytes → Option (Bytes × ℕ)
unfolding capped_credits get_uint
read_tunnel_credits message =
    if ltb (length message) (1 + client_id_length + 8)
    then none
    else some (
      take client_id_length (drop 1 message),
      capped_credits (get_uint 0 (take 8 (drop (1 + client_id_length) message))),
    )
