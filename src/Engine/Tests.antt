-- ===== src/Engine/Tests.antt =====
-- A server with one connection, whose handler collects the bodies of the messages.
use gtcp.Prelude.{ℕ, ◌^◌, ◌≤◌, ◌≡◌, refl, true, false, none, some, List, [], ◌∷◌, ◌++◌, arith}
use gtcp.Prelude.Int.{pos}
use gtcp.Run.{returns}
use gtcp.Sys.{econnreset, eagain}
use gtcp.Sys.Samples.{takes_all}
use gtcp.Elastic.RingBuffer
use gtcp.Elastic.Samples.{zeros, new_rings}
use gtcp.Framing.{default_header, head_encode}
use gtcp.Framing.Stream.{Frame, sent, in_head}
use gtcp.ConnMatrix.{get_conn}
use gtcp.ConnMatrix.Lookup.{IsMap}
use gtcp.Conn.{Conn, ReadResult, got, read_failed}
use gtcp.Conn.Invariant.{IsValid}
use gtcp.Conn.Drain.{Progress}
use gtcp.Conn.EventRead.{arrived}
use gtcp.Engine.{Server, Handle, event_read}
use gtcp.Engine.Traffic.{HandsOver, engine_event_read_lem}
use gtcp.Engine.PeerClose.{Forgets, engine_peer_close_lem}

abbrev note : List ℕ → List ℕ → List (List ℕ) → List (List ℕ)
note head_data body_data app = app ++ body_data ∷ []

abbrev bye : List (List ℕ) → List (List ℕ)
bye app = app ++ [] ∷ []

abbrev collects : Handle takes_all
collects = record {
  App = List (List ℕ);
  on_open = λ c app net. returns ([], true, c, app, net);
  on_close = λ c app net. returns (c, bye app, net);
  on_traffic = λ c head_data body_data app net. returns (c, note head_data body_data app, net);
  on_receive = λ c received app net. returns (c, app, net);
}

abbrev idle : Conn
idle = record {
  sysfd = pos 7;
  locked = false;
  inbound = none;
  outbound = record {
    max_static_bytes = 1024;
    ring_buffer = none;
    list_buffer = record { nodes = []; size = 0; bytes = 0 };
  };
  poll = record { fd = pos 7; poll_fd = pos 3 };
}

idle-IsValid : IsValid idle
idle-IsValid = record {
  inbound_valid = _;
  outbound_valid = record {
    ring_valid = _;
    list_valid = record { size_counts = refl; bytes_counts = refl };
  };
}

abbrev server : Server
server = record {
  poll_fd = pos 3;
  dec = some default_header;
  ln_fd = pos 4;
  connections = (pos 7, idle) ∷ [];
}

server-IsMap : IsMap server.connections
unfolding get_conn
server-IsMap = (refl, _)

server_has_it : get_conn server.connections (pos 7) ≡ some idle
unfolding get_conn
server_has_it = refl

no_ring : RingBuffer.capacity idle.inbound ≤ 2 ^ 61
unfolding RingBuffer.capacity
no_ring = omega arith

abbrev five : Frame
five = record { msg_id = pos 5; body = 9 ∷ [] }

-- A message in two parts and the start of the next, then EAGAIN, or the end of the stream.
abbrev reads : List ReadResult
reads = got (1 ∷ 0 ∷ 0 ∷ []) ∷ got (0 ∷ 5 ∷ 0 ∷ 0 ∷ 0 ∷ 9 ∷ 2 ∷ []) ∷ read_failed eagain ∷ []

abbrev last_reads : List ReadResult
last_reads = got (1 ∷ 0 ∷ 0 ∷ []) ∷ got (0 ∷ 5 ∷ 0 ∷ 0 ∷ 0 ∷ 9 ∷ 2 ∷ []) ∷ got [] ∷ []

whole_stream : arrived reads ≡ sent (five ∷ []) ++ 2 ∷ []
unfolding head_encode
whole_stream = refl

engine_event_read_lem_example :
    HandsOver takes_all collects note
      (λ c hd bd app net. refl)
      (pos 7)
      idle
      (five ∷ [])
      (2 ∷ [])
      server
      []
      []
      (event_read takes_all collects zeros new_rings 20 (pos 7) reads idle server [] [])
engine_event_read_lem_example =
    engine_event_read_lem takes_all collects note (λ c hd bd app net. refl) zeros new_rings 20
      (pos 7) reads idle server [] [] (five ∷ []) (2 ∷ []) _ no_ring (omega arith) (omega arith)
      refl server_has_it refl (omega arith, omega arith, omega arith, _) (in_head (omega arith))
      whole_stream

all_progress : Progress takes_all
all_progress s fd ps some_bytes ok = some_bytes

engine_peer_close_lem_example :
    Forgets takes_all collects bye
      (λ c app net. refl)
      all_progress
      idle
      server
      []
      []
      (event_read takes_all collects zeros new_rings 20 (pos 7) last_reads idle server [] [])
engine_peer_close_lem_example =
    engine_peer_close_lem takes_all collects bye (λ c app net. refl) all_progress zeros new_rings 20
      last_reads idle server [] [] econnreset idle-IsValid _ refl (omega arith) no_ring
      (omega arith) server-IsMap refl
