-- ===== src/Engine.antt =====
-- engine_unix.go: what the server does for one event of the poller. The user's handler gets the connection
-- and may call its methods, so it is a parameter that returns the connection it leaves. A
-- connection that a method has changed is stored again at its descriptor, if it is still there, for
-- the pointer in the map. `fuel` bounds the rounds of each loop.
pub mod Traffic
pub mod PeerClose
pub mod Accept
mod Tests
use Prim.Native.Nat.{bit_and}
use gtcp.Prelude.{
  ℕ, zero, suc, Bool, Option, none, some, List, [], ◌∷◌, ◌==◌, if◌then◌else◌, length, ltb,
}
use gtcp.Prelude.Int.{ℤ, pos, negsuc}
use gtcp.Alloc.{Alloc}
use gtcp.RingPool.{RingPool}
use gtcp.Errors.{Error}
use gtcp.Run.{Run, returns, spins, ◌>>=◌}
use gtcp.Sys.{Sys}
use gtcp.Netpoll.{add_read, in_events, out_events}
use gtcp.ConnMatrix.{ConnMatrix, same_fd, get_conn, add_conn, del_conn}
use gtcp.Framing
use gtcp.Framing.{Header}
use gtcp.Conn
use gtcp.Conn.{Conn, ReadResult}

pub record Server : Type 0 where
  pub poll_fd : ℤ
  -- What `NewHead` of the decoder gives; `none` is a server without a decoder.
  pub dec : Option Header
  pub ln_fd : ℤ
  pub connections : ConnMatrix Conn

-- The change that others see through a pointer in the map.
unfoldable pub set_conn : ConnMatrix Conn → ℤ → Conn → ConnMatrix Conn
set_conn cm fd c = elim (get_conn cm fd) [ none ↦ cm | some c' ↦ add_conn cm fd c ]

-- `unix.Accept`, and `unix.SetNonblock` on what it returns.
pub data AcceptResult : Type 0 where
  accepted : ℤ → Option Error → AcceptResult
  accept_failed : Error → AcceptResult

module _ (sys : Sys) where
  open sys use {Net}

  pub record Handle : Type 1 where
    pub App : Type 0
    pub on_open : Conn → App → Net → Run (List ℕ × Bool × Conn × App × Net)
    pub on_close : Conn → App → Net → Run (Conn × App × Net)
    pub on_traffic : Conn → List ℕ → List ℕ → App → Net → Run (Conn × App × Net)
    pub on_receive : Conn → List ℕ → App → Net → Run (Conn × App × Net)

  module _ (h : Handle) where
    open h use {App}

    pub record State : Type 0 where
      pub eng : Server
      pub app : App
      pub net : Net

    abbrev pub with_connections : Server → ConnMatrix Conn → Server
    with_connections eng cm = record eng { connections = cm }

    -- `OnClose`, `delConn` and `Close`; an error of `Close` is only logged.
    unfoldable pub forget : ℕ → ℤ → Conn → Server → App → Net → Run State
    forget fuel fd c eng app net = h.on_close c app net >>= λ (c', app', net').
        let cm = del_conn eng.connections c'.sysfd in
        Conn.close sys fuel c' net' >>= λ (err, c'', net'').
        returns
          (record { eng = with_connections eng (set_conn cm fd c''); app = app'; net = net'' })

    unfoldable pub event_write : ℕ → ℤ → Conn → Server → App → Net → Run State
    event_write fuel fd c eng app net = Conn.write_flush sys c net >>= λ (err, c', net'). elim err [
      | some e ↦ forget fuel fd c' eng app net'
      | none ↦ returns (record {
        eng = with_connections eng (set_conn eng.connections fd c');
        app = app;
        net = net';
      })
    ]

    -- The loop around `Decode`.
    unfoldable pub traffic : ℕ → Header → Conn → App → Net → Run (Conn × App × Net)
    traffic zero head c app net = spins
    traffic (suc fuel) head c app net =
        let (head_data, body_data, err, b) = Framing.decode head c.inbound in
        let c' : Conn = record c { inbound = b } in
        let handed = h.on_traffic c' head_data body_data app net in
        let more = handed >>= λ (c'', app', net'). traffic fuel head c'' app' net' in
        elim err [ some e ↦ returns (c', app, net) | none ↦ more ]

    -- What follows a read without an error.
    unfoldable pub hand_over : ℕ → Option Header → Conn → App → Net → Run (Conn × App × Net)
    hand_over fuel dec c app net = elim dec [
      | some head ↦ traffic fuel head c app net
      | none ↦
          let (received, err) = Conn.peek c (negsuc 0) in
          elim err [ some e ↦ returns (c, app, net) | none ↦ h.on_receive c received app net ]
    ]

    module _ (alloc : Alloc) (pool : RingPool) where
      unfoldable pub event_read : ℕ → ℤ → List ReadResult → Conn → Server → App → Net → Run State
      event_read fuel fd rs c eng app net = Conn.event_read alloc pool rs c >>= λ (err, c', left).
          elim err [
            | some e ↦ forget fuel fd c' eng app net
            | none ↦ hand_over fuel eng.dec c' app net >>= λ (c'', app', net'). returns (record {
              eng = with_connections eng (set_conn eng.connections fd c'');
              app = app';
              net = net';
            })
          ]

      unfoldable pub accept : ℕ → AcceptResult → Server → App → Net → Run (Option Error × State)
      accept fuel (accept_failed e) eng app net =
          let (err, net') = sys.close net (negsuc 0) in
          returns (err, record { eng = eng; app = app; net = net' })
      accept fuel (accepted nfd (some e)) eng app net =
          returns (some e, record { eng = eng; app = app; net = net })
      accept fuel (accepted nfd none) eng app net =
          let c = Conn.new_tcp_conn eng.poll_fd nfd (pos 1024) in
          let (ignored, net') = add_read sys c.poll net in
          h.on_open c app net' >>= λ (out, action, c', app', net'').
          let cm = add_conn eng.connections c'.sysfd c' in
          let refused = h.on_close c' app' net'' >>= λ (c'', app'', net''').
          Conn.close sys fuel c'' net''' >>= λ (err, c''', net'''').
          returns (none, record { eng = eng; app = app''; net = net'''' }) in
          let greeted = Conn.write sys alloc pool fuel c' out net'' >>= λ (n, err, c'', net''').
          returns (
            none,
            record {
              eng = with_connections eng (set_conn cm c'.sysfd c'');
              app = app';
              net = net''';
            },
          ) in
          if action
          then (if ltb 0 (length out)
              then greeted
              else returns
                  (none, record { eng = with_connections eng cm; app = app'; net = net'' }))
          else refused

      -- `Callback`: the results of `unix.Read` or of `unix.Accept` are those of the calls that it makes.
      unfoldable pub callback :
          ℕ → ℤ → ℕ → List ReadResult → AcceptResult → State → Run (Option Error × State)
      callback fuel fd ev rs acc st =
          let eng = st.eng in
          let no_error : Run State → Run (Option Error × State) =
            λ run. run >>= λ st'. returns (none, st') in
          if same_fd fd eng.ln_fd
          then accept fuel acc eng st.app st.net
          else elim (get_conn eng.connections fd) [
            | none ↦ returns (none, st)
            | some c ↦
                if bit_and ev out_events == 0
                then (if bit_and ev in_events == 0
                    then returns (none, st)
                    else no_error (event_read fuel fd rs c eng st.app st.net))
                else no_error (event_write fuel fd c eng st.app st.net)
          ]
