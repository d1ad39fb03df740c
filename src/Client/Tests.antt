-- ===== src/Client/Tests.antt =====
-- A client that gets one message in two parts, and the start of the next.
use gtcp.Prelude.{ℕ, ◌^◌, ◌≤◌, ◌≡◌, refl, none, List, [], ◌∷◌, ◌++◌, map, arith}
use gtcp.Prelude.Int.{pos}
use gtcp.Prelude.Slices.{flatten}
use gtcp.Elastic.RingBuffer
use gtcp.Elastic.Samples.{zeros, new_rings}
use gtcp.Framing.{head_encode}
use gtcp.Framing.Stream.{Frame, sent, in_head}
use gtcp.Conn.{got}
use gtcp.Client.{Handle, process}
use gtcp.Client.Process.{Serves, client, process_lem}

-- A handler that collects the bodies.
abbrev collects : Handle
collects = record {
  App = List (List ℕ);
  on_close = λ app. app;
  on_traffic = λ head_data body_data app. app ++ body_data ∷ [];
  on_receive = λ received app. app;
}

abbrev two_parts : List (List ℕ)
two_parts = (1 ∷ 0 ∷ 0 ∷ []) ∷ (0 ∷ 5 ∷ 0 ∷ 0 ∷ 0 ∷ 9 ∷ 2 ∷ []) ∷ []

abbrev five : Frame
five = record { msg_id = pos 5; body = 9 ∷ [] }

no_ring : RingBuffer.capacity none ≤ 2 ^ 61
unfolding RingBuffer.capacity
no_ring = omega arith

whole_stream : flatten two_parts ≡ sent (five ∷ []) ++ 2 ∷ []
unfolding head_encode
whole_stream = refl

process_lem_example :
    Serves collects zeros new_rings (five ∷ []) (2 ∷ []) [] (
      process collects zeros new_rings
        (map got two_parts)
        (client collects zeros new_rings none)
        [])
process_lem_example =
    process_lem collects zeros new_rings two_parts (five ∷ []) (2 ∷ []) none [] _ no_ring
      (omega arith) (omega arith, omega arith, omega arith, _) (in_head (omega arith))
      (in_head (omega arith)) whole_stream
