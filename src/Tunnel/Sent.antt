-- ===== src/Tunnel/Sent.antt =====
-- internal/peer/tunnel.go: what the messages of a tunnel tell its peer.
use nexus_proxy_server.Common.{ℕ, ◌+◌, ◌≡◌, refl, Bool, true, false, List, [], ◌∷◌, ◌++◌, arith}
use nexus_proxy_server.Tunnel.Defs.{Message, tunnel_data, tunnel_close, tunnel_pause, tunnel_resume}

-- The pause that the peer was last told.
abbrev pub told : Bool → List Message → Bool
told p [] = p
told p (tunnel_pause ∷ ms) = told true ms
told p (tunnel_resume ∷ ms) = told false ms
told p (tunnel_close ∷ ms) = told p ms
told p (tunnel_data b ∷ ms) = told p ms

abbrev pub data_sent : List Message → ℕ
data_sent [] = 0
data_sent (tunnel_data b ∷ ms) = 1 + data_sent ms
data_sent (tunnel_pause ∷ ms) = data_sent ms
data_sent (tunnel_resume ∷ ms) = data_sent ms
data_sent (tunnel_close ∷ ms) = data_sent ms

abbrev pub closes_sent : List Message → ℕ
closes_sent [] = 0
closes_sent (tunnel_close ∷ ms) = 1 + closes_sent ms
closes_sent (tunnel_data b ∷ ms) = closes_sent ms
closes_sent (tunnel_pause ∷ ms) = closes_sent ms
closes_sent (tunnel_resume ∷ ms) = closes_sent ms

pub told-append :
    (p : Bool) (ms : List Message) (m : Message)
    → told p (ms ++ (m ∷ [])) ≡ told (told p ms) (m ∷ [])
told-append p [] m = refl
told-append p (tunnel_pause ∷ ms) m = told-append true ms m
told-append p (tunnel_resume ∷ ms) m = told-append false ms m
told-append p (tunnel_close ∷ ms) m = told-append p ms m
told-append p (tunnel_data b ∷ ms) m = told-append p ms m

pub data_sent-append :
    (ms : List Message) (m : Message)
    → data_sent (ms ++ (m ∷ [])) ≡ data_sent ms + data_sent (m ∷ [])
data_sent-append [] m = omega arith
data_sent-append (tunnel_pause ∷ ms) m = data_sent-append ms m
data_sent-append (tunnel_resume ∷ ms) m = data_sent-append ms m
data_sent-append (tunnel_close ∷ ms) m = data_sent-append ms m
data_sent-append (tunnel_data b ∷ ms) m = omega (arith, data_sent-append ms m)

pub closes_sent-append :
    (ms : List Message) (m : Message)
    → closes_sent (ms ++ (m ∷ [])) ≡ closes_sent ms + closes_sent (m ∷ [])
closes_sent-append [] m = omega arith
closes_sent-append (tunnel_pause ∷ ms) m = closes_sent-append ms m
closes_sent-append (tunnel_resume ∷ ms) m = closes_sent-append ms m
closes_sent-append (tunnel_close ∷ ms) m = omega (arith, closes_sent-append ms m)
closes_sent-append (tunnel_data b ∷ ms) m = closes_sent-append ms m
