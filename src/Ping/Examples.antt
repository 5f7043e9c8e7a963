-- ===== src/Ping/Examples.antt =====
-- src/hypixel_ping.rs: numbers, and a ping with its answer.
use escrow.Common.{◌≡◌, refl, some, [], ◌∷◌, ◌++◌, arith, text_keys, side_keys, nat_eq, codes}
use escrow.Ping.{
  write_varint, write_string, frame, got, failed, end_of_stream, varint_too_long, read_varint,
  Pinger, best_ping_ms, ping_request_started, record_pong,
}
use escrow.Ping.Varints.{read_varint-write_varint}

protocol_version : write_varint [] 767 ≡ 255 ∷ 5 ∷ []
unfolding write_varint
protocol_version = refl

text_with_length : write_string [] (codes "ab") ≡ 2 ∷ codes "ab"
unfolding write_string
text_with_length = refl

framed : frame (7 ∷ 8 ∷ []) ≡ 2 ∷ 7 ∷ 8 ∷ []
unfolding frame
framed = refl

cut_off : read_varint (255 ∷ []) ≡ failed end_of_stream
unfolding read_varint
cut_off = refl

six_bytes : read_varint (128 ∷ 128 ∷ 128 ∷ 128 ∷ 128 ∷ 1 ∷ []) ≡ failed varint_too_long
unfolding read_varint
six_bytes = refl

abbrev pinger : Pinger
pinger = record { counter = 0; token = 0; sent_micros = 0; latest = 40; latest_live = 0 }

-- The answer to the ping is measured, the answer to another is not.
answered_ping : best_ping_ms (record_pong 6_400 1 (ping_request_started 1_000 pinger).0) ≡ some 5
unfolding best_ping_ms record_pong ping_request_started
answered_ping = refl

other_answer : best_ping_ms (record_pong 6_400 2 (ping_request_started 1_000 pinger).0) ≡ some 40
unfolding best_ping_ms record_pong ping_request_started
other_answer = refl

read_varint-write_varint_example : read_varint (write_varint [] 300 ++ (9 ∷ [])) ≡ got 300 (9 ∷ [])
read_varint-write_varint_example = read_varint-write_varint 300 (9 ∷ []) (omega arith)
