-- ===== src/Witnesses/Tunnels.antt =====
-- internal/peer/tunnel.go: concrete inputs for the theorems.
use nexus_proxy_server.Common.{
  ◌+◌, ◌≤◌, ◌≡◌, refl, true, false, ◌&&◌, ltb, leb, List, [], ◌∷◌, Bytes, some, if◌then◌else◌,
  replicate, arith,
}
use nexus_proxy_server.Buffered.{default_credit_capacity}
use nexus_proxy_server.Tunnel.{
  TunneledConn, new_tunneled_conn, begin_write, take_credit, send_data, close, pause, add_credits,
  put_credits, Event, begin_event, take_event, send_event, close_event, pause_event, credit_event,
  Reach, start, next, begins, takes, sends, closes, pauses, credits, make_tunnel_credit_message,
  read_tunnel_credits,
}
use nexus_proxy_server.Tunnel.Sent.{told, data_sent, closes_sent}
use nexus_proxy_server.Tunnel.Credits.{early_writes, credits_called, Reach-told}
use nexus_proxy_server.Tunnel.RoundTrip.{read_tunnel_credits-make}

abbrev sample_frame : Bytes
sample_frame = 7 ∷ []

-- Two credits arrive, a frame is written for one of them, and the pause is lost.
abbrev tunnel1 : TunneledConn
tunnel1 = add_credits 2 new_tunneled_conn

abbrev tunnel2 : TunneledConn
tunnel2 = begin_write sample_frame tunnel1

abbrev tunnel3 : TunneledConn
tunnel3 = take_credit sample_frame tunnel2

abbrev tunnel4 : TunneledConn
tunnel4 = send_data sample_frame true tunnel3

abbrev tunnel5 : TunneledConn
tunnel5 = close true (pause false tunnel4)

-- The last event stands first.
abbrev tunnel_events : List Event
tunnel_events =
    close_event true
    ∷ pause_event false
    ∷ send_event true
    ∷ take_event
    ∷ begin_event sample_frame
    ∷ credit_event 2
    ∷ []

tunnel5_reached : Reach tunnel_events tunnel5
unfolding add_credits put_credits begin_write take_credit
tunnel5_reached =
    next
      (next
        (next
          (next (next (next start (credits new_tunneled_conn 2)) (begins tunnel1 sample_frame refl))
            (takes tunnel2 sample_frame refl))
          (sends tunnel3 sample_frame true refl))
        (pauses tunnel4 false))
      (closes (pause false tunnel4) true)

Reach-told_example :
    (tunnel5.paused ≡ told false tunnel5.sent)
    × (closes_sent tunnel5.sent ≤ (if tunnel5.closed then 1 else 0))
    × (data_sent tunnel5.sent + tunnel5.send_credits
        ≤ early_writes tunnel_events + credits_called tunnel_events)
    × (tunnel5.send_credits ≤ default_credit_capacity)
Reach-told_example = Reach-told tunnel5_reached

abbrev sample_id : Bytes
sample_id = replicate 16 9

read_tunnel_credits-make_example :
    read_tunnel_credits (make_tunnel_credit_message sample_id 8)
    ≡ some (sample_id, (if ltb 0 8 && leb 8 64 then 8 else 64))
read_tunnel_credits-make_example = read_tunnel_credits-make sample_id 8 refl (omega arith)
