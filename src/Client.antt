-- ===== src/Client.antt =====
-- client.go: a client with its inbound buffer. Its `Peek`, `Discard` and `Decode` are, but for the receiver,
-- those of connection_unix.go and glibevent.go. The handler and net.Conn are parameters; a
-- handler that itself calls methods of the client is not modelled.
pub mod Process
mod Tests
use gtcp.Prelude.{ℕ, suc, Option, none, some, List, [], ◌∷◌, length, ◌==◌, if◌then◌else◌}
use gtcp.Prelude.Int.{ℤ, negsuc}
use gtcp.Alloc.{Alloc}
use gtcp.RingPool.{RingPool}
use gtcp.Errors.{Error}
use gtcp.Elastic.RingBuffer
use gtcp.Inbound
use gtcp.Framing
use gtcp.Framing.{Header}
use gtcp.Conn.{ReadResult, got, read_failed}

pub record Client : Type 0 where
  pub inbound_buffer : RingBuffer.RingBuffer
  -- What `NewHead` of the decoder gives; `none` is a client without a decoder.
  pub dec : Option Header

unfoldable pub new_client : Option Header → Client
new_client decode = record { inbound_buffer = none; dec = decode }

unfoldable pub peek : Client → ℤ → List ℕ × Option Error
peek cli n = Inbound.peek cli.inbound_buffer n

unfoldable pub discard : Client → ℤ → ℕ × Option Error × Client
discard cli n =
    let (m, err, b) = Inbound.discard cli.inbound_buffer n in
    (m, err, record cli { inbound_buffer = b })

unfoldable pub reset_buffer : Client → Client
reset_buffer cli = record cli { inbound_buffer = RingBuffer.reset cli.inbound_buffer }

unfoldable pub decode : Client → Header → List ℕ × List ℕ × Option Error × Client
decode cli head =
    let (head_data, body_data, err, b) = Framing.decode head cli.inbound_buffer in
    (head_data, body_data, err, record cli { inbound_buffer = b })

-- The handler, on the state that it keeps.
pub record Handle : Type 1 where
  pub App : Type 0
  pub on_close : App → App
  pub on_traffic : List ℕ → List ℕ → App → App
  pub on_receive : List ℕ → App → App

module _ (h : Handle) where
  open h use {App}

  abbrev pub each_traffic : List (List ℕ × List ℕ) → App → App
  each_traffic [] app = app
  each_traffic ((head_data, body_data) ∷ ms) app =
      each_traffic ms (h.on_traffic head_data body_data app)

  -- Where `process` is when the results of `c.Read` are used up, or how it ended: after an error of
  -- `c.Read`, or at an empty buffer without a decoder.
  pub data Processed : Type 0 where
    reading closed stopped : Client → App → Processed
    panics : Processed

  module _ (alloc : Alloc) (pool : RingPool) where
    -- The loop around `Decode` gets more fuel than there are bytes, so that it ends as in the source.
    unfoldable pub process : List ReadResult → Client → App → Processed
    process [] cli app = reading cli app
    process (read_failed e ∷ rs) cli app =
        closed (record cli { inbound_buffer = RingBuffer.release cli.inbound_buffer })
          (h.on_close app)
    process (got buf ∷ rs) cli app = elim (RingBuffer.write alloc pool cli.inbound_buffer buf) [
      | none ↦ panics
      | some (n, ring) ↦ elim cli.dec [
        | some head ↦
            let (ms, b) = Framing.decode_loop (suc (RingBuffer.buffered ring)) head ring in
            process rs (record cli { inbound_buffer = b }) (each_traffic ms app)
        | none ↦
            let (received, err) = Inbound.peek ring (negsuc 0) in
            let more =
              process rs (record cli { inbound_buffer = ring }) (h.on_receive received app) in
            elim err [ some e ↦ stopped (record cli { inbound_buffer = ring }) app | none ↦ more ]
      ]
    ]
