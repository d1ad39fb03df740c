-- ===== src/Conn/Tests.antt =====
-- A connection on small inputs, with a kernel that takes all or nothing.
use gtcp.Prelude.{
  ◌^◌, ◌≤◌, ◌<◌, ◌≡◌, refl, inr, true, false, none, some, List, [], ◌∷◌, arith, length,
}
use gtcp.Prelude.Int.{pos}
use gtcp.Run.{deadlock}
use gtcp.Sys.{econnreset, eintr, eagain}
use gtcp.Sys.Samples.{takes_all, refuses}
use gtcp.Ring
use gtcp.Elastic
use gtcp.Elastic.RingBuffer
use gtcp.Elastic.Contents as Outbound
use gtcp.Elastic.Samples.{zeros, new_rings}
use gtcp.Conn.{Conn, ReadResult, got, read_failed, write, writev, write_flush, close, event_read}
use gtcp.Conn.Invariant.{IsValid}
use gtcp.Conn.Call.{Keeps, some_taken, hard_error}
use gtcp.Conn.Write.{conn_write_lem, conn_write_deadlock}
use gtcp.Conn.Writev.{conn_writev_lem}
use gtcp.Conn.Flush.{Returns, write_flush_lem}
use gtcp.Conn.Drain.{Progress}
use gtcp.Conn.Close.{Closes, conn_close_lem}
use gtcp.Conn.EventRead.{Receives, event_read_lem}

-- A connection with nothing in its buffers.
abbrev idle : Conn
idle = record {
  sysfd = pos 7;
  locked = false;
  inbound = none;
  outbound = record {
    max_static_bytes = 1024;
    ring_buffer = none;
    list_buffer = record { nodes = []; size = 0; bytes = 0 };
  };
  poll = record { fd = pos 7; poll_fd = pos 3 };
}

idle-IsValid : IsValid idle
idle-IsValid = record {
  inbound_valid = _;
  outbound_valid = record {
    ring_valid = _;
    list_valid = record { size_counts = refl; bytes_counts = refl };
  };
}

-- One that has two bytes in a ring and two in the list to send.
abbrev waiting : Conn
waiting = record idle {
  outbound = record {
    max_static_bytes = 4;
    ring_buffer =
        some (record { buf = 0 ∷ 1 ∷ 2 ∷ 0 ∷ []; size = 4; r = 1; w = 3; is_empty = false });
    list_buffer = record { nodes = (3 ∷ 4 ∷ []) ∷ []; size = 1; bytes = 2 };
  };
}

waiting-IsValid : IsValid waiting
waiting-IsValid = record {
  inbound_valid = _;
  outbound_valid = record {
    ring_valid = record { sized = refl; positions = (omega arith, omega arith) };
    list_valid = record { size_counts = refl; bytes_counts = refl };
  };
}

small_ring : RingBuffer.capacity idle.outbound.ring_buffer ≤ 2 ^ 61
unfolding RingBuffer.capacity
small_ring = omega arith

smaller_ring : RingBuffer.capacity idle.outbound.ring_buffer ≤ 2 ^ 60
unfolding RingBuffer.capacity
smaller_ring = omega arith

no_inbound : RingBuffer.capacity idle.inbound ≤ 2 ^ 61
unfolding RingBuffer.capacity
no_inbound = omega arith

idle_is_empty : Elastic.is_empty idle.outbound ≡ true
unfolding Elastic.is_empty RingBuffer.is_empty gtcp.LinkedList.is_empty
idle_is_empty = refl

conn_write_lem_example :
    Keeps takes_all idle [] (1 ∷ 2 ∷ []) (write takes_all zeros new_rings 9 idle (1 ∷ 2 ∷ []) [])
conn_write_lem_example =
    conn_write_lem takes_all zeros new_rings idle idle-IsValid [] (1 ∷ 2 ∷ []) small_ring
      (omega arith) refl 9 (inr (some_taken 2 refl refl))

conn_write_deadlock_example :
    write (refuses econnreset) zeros new_rings 9 idle (1 ∷ 2 ∷ []) [] ≡ deadlock
conn_write_deadlock_example =
    conn_write_deadlock (refuses econnreset) zeros new_rings idle idle-IsValid [] (1 ∷ 2 ∷ [])
      small_ring (omega arith) refl 9 idle_is_empty (hard_error refl refl)

conn_writev_lem_example :
    Keeps takes_all idle []
      (1 ∷ 2 ∷ 3 ∷ [])
      (writev takes_all zeros new_rings 9 idle ((1 ∷ []) ∷ (2 ∷ 3 ∷ []) ∷ []) [])
conn_writev_lem_example =
    conn_writev_lem takes_all zeros new_rings idle idle-IsValid [] ((1 ∷ []) ∷ (2 ∷ 3 ∷ []) ∷ [])
      smaller_ring (omega arith) (omega arith) refl 9 (inr (some_taken 3 refl refl))

write_flush_lem_example : Returns takes_all waiting [] (write_flush takes_all waiting [])
write_flush_lem_example = write_flush_lem takes_all waiting [] waiting-IsValid refl

all_progress : Progress takes_all
all_progress s fd ps some_bytes ok = some_bytes

few_waiting : length (Outbound.contents waiting.outbound) < 9
unfolding Ring.buffered
few_waiting = omega arith

conn_close_lem_example : Closes takes_all waiting [] (close takes_all 9 waiting [])
conn_close_lem_example =
    conn_close_lem takes_all all_progress 9 waiting [] waiting-IsValid (omega arith, _) refl
      few_waiting

abbrev some_reads : List ReadResult
some_reads = got (1 ∷ 2 ∷ []) ∷ read_failed eintr ∷ got (3 ∷ []) ∷ read_failed eagain ∷ []

event_read_lem_example : Receives idle some_reads (event_read zeros new_rings some_reads idle)
event_read_lem_example = event_read_lem zeros new_rings some_reads idle _ no_inbound (omega arith)
