-- ===== src/Witnesses/Connections.antt =====
-- internal/hub/buffered_conn.go: concrete inputs for the theorems.
use nexus_proxy_server.Common.{
  ◌+◌, ◌≤◌, ◌<◌, ◌≡◌, refl, true, false, [], ◌∷◌, ◌++◌, Bytes, length, arith, ◌⊎◌,
}
use nexus_proxy_server.Buffered.{
  BufferedConn, new_buffered_conn, write, take_frame, write_frame, ask_gate, flush, accepted,
  writes, takes, asks, puts, Reach, start, next, credit_replenish_batch, client_write_buffer_size,
}
use nexus_proxy_server.Buffered.Order.{held, Reach-frames, flush_complete}
use nexus_proxy_server.Buffered.Credit.{credits_kept}

abbrev frame_a : Bytes
frame_a = 1 ∷ 2 ∷ []

abbrev frame_b : Bytes
frame_b = 3 ∷ []

abbrev conn0 : BufferedConn
conn0 = new_buffered_conn true true

abbrev conn1 : BufferedConn
conn1 = (write frame_a conn0).0

abbrev conn2 : BufferedConn
conn2 = (write frame_b conn1).0

abbrev conn3 : BufferedConn
conn3 = take_frame conn2.write_ch conn2

abbrev conn4 : BufferedConn
conn4 = ask_gate frame_a true conn3

abbrev conn5 : BufferedConn
conn5 = write_frame frame_a 7 true false conn4

-- Two frames are accepted; the gate lets the first through.
conn3_reached : Reach true true (frame_a ∷ frame_b ∷ []) conn3
unfolding new_buffered_conn write accepted take_frame
conn3_reached =
    next (next (next start (writes conn0 frame_a)) (writes conn1 frame_b)) (takes conn2 refl)

conn5_reached : Reach true true (frame_a ∷ frame_b ∷ []) conn5
unfolding new_buffered_conn write accepted take_frame ask_gate write_frame
conn5_reached =
    next (next conn3_reached (asks conn3 frame_a true refl)) (puts conn4 frame_a 7 true false refl)

Reach-frames_example :
    (frame_a ∷ frame_b ∷ []) ≡ conn3.written ++ (held conn3.place ++ conn3.write_ch)
unfolding new_buffered_conn write take_frame
Reach-frames_example = Reach-frames conn3_reached refl

flush_complete_example : (flush (true ∷ []) conn5).written ≡ frame_a ∷ frame_b ∷ []
unfolding new_buffered_conn write take_frame ask_gate write_frame
flush_complete_example = flush_complete (true ∷ []) conn5_reached refl refl (omega arith)

credits_kept_example :
    (conn5.consumed + conn5.replenished ≡ length conn5.written)
    × ((conn5.consumed < credit_replenish_batch) ⊎ (conn5.timer ≡ true))
    × (length conn5.write_ch ≤ client_write_buffer_size)
unfolding new_buffered_conn write take_frame ask_gate write_frame
credits_kept_example = credits_kept conn5_reached refl
