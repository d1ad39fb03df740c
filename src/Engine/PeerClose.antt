-- ===== src/Engine/PeerClose.antt =====
-- `eventRead` of the server when the read ends with an error, as it does when the peer closes: the
-- connection is closed and forgotten, and what had arrived is not handed to `OnTraffic`.
use gtcp.Prelude.{
  ℕ, ◌+◌, ◌^◌, ◌≤◌, ◌<◌, ◌≡◌, ◌⊎◌, refl, ◌∙◌, none, some, List, [], ◌++◌, length, false,
  if◌then◌else◌,
}
use gtcp.Prelude.Int.{ℤ}
use gtcp.Alloc.{Alloc}
use gtcp.RingPool.{RingPool}
use gtcp.Errors.{Error}
use gtcp.Run.{Run, returns}
use gtcp.Sys.{Sys}
use gtcp.LinkedList.NoEmpty.{NoEmpty}
use gtcp.Elastic.RingBuffer
use gtcp.Elastic.RingBuffer.Contents as Inbound
use gtcp.Elastic.Contents as Outbound
use gtcp.ConnMatrix.{get_conn, same_fd, del_conn}
use gtcp.ConnMatrix.Lookup.{IsMap, get_conn-del_conn, same_fd_self}
use gtcp.Conn.{Conn, ReadResult}
use gtcp.Conn.Invariant.{IsValid, stream}
use gtcp.Conn.Drain.{Progress, CallFails}
use gtcp.Conn.Close.{conn_close_lem}
use gtcp.Conn.EventRead.{arrived, stopped_by, event_read_lem}
use gtcp.Engine.{Server, Handle, State, forget, event_read, set_conn}

module _ (sys : Sys) (h : Handle sys) (bye : h.App → h.App)
    (quiet : (c : Conn) (app : h.App) (net : sys.Net)
      → h.on_close c app net ≡ returns (c, bye app, net))
    (progress : Progress sys) where
  -- The handler only hears of the end, and the connection is gone; `lost` did not go out.
  pub record Forgets (c : Conn) (eng : Server) (app : h.App) (net : sys.Net)
      (ran : Run (State sys h)) : Type 0 where
    pub st : State sys h
    pub returned : ran ≡ returns st
    pub told : st.app ≡ bye app
    pub gone :
        (k : ℤ)
        → get_conn st.eng.connections k
          ≡ (if same_fd c.sysfd k then none else get_conn eng.connections k)
    pub lost : List ℕ
    pub in_order : sys.delivered st.net ++ lost ≡ stream sys c net
    pub all_sent : (lost ≡ []) ⊎ CallFails sys c.sysfd c.outbound net

  forget_lem :
      (fuel : ℕ) (c : Conn) (eng : Server) (app : h.App) (net : sys.Net)
      → IsValid c
      → NoEmpty c.outbound.list_buffer.nodes
      → c.locked ≡ false
      → length (Outbound.contents c.outbound) < fuel
      → IsMap eng.connections
      → Forgets c eng app net (forget sys h fuel c.sysfd c eng app net)
  unfolding forget set_conn
  forget_lem fuel c eng app net v s free enough m =
      let d = conn_close_lem sys progress fuel c net v s free enough in
      let gone : get_conn (del_conn eng.connections c.sysfd) c.sysfd ≡ none =
        get_conn-del_conn eng.connections c.sysfd c.sysfd m ∙ rw (same_fd_self c.sysfd) refl in
      rw (forget, quiet, d.returned, set_conn, gone)
        (record {
          st = _;
          returned = refl;
          told = refl;
          gone = λ k. get_conn-del_conn eng.connections c.sysfd k m;
          lost = d.lost;
          in_order = d.in_order;
          all_sent = d.sent;
        })

  module _ (alloc : Alloc) (pool : RingPool) where
    -- For a handler whose `OnClose` leaves the connection and the kernel as they are, if a
    -- writev(2) that is offered some bytes takes one or fails: when the reads of a valid
    -- unlocked connection without an empty node in its list, with fewer bytes waiting than the
    -- fuel, end with an error, such as that for the end of the stream, and at most 2 ^ 60 bytes
    -- are held and arriving in a ring of at most 2 ^ 61, with one entry at most for a
    -- descriptor in the map, the server's `eventRead` only calls `OnClose`: no message is
    -- handed to `OnTraffic`, whatever has arrived before; the map has no connection at its
    -- descriptor and all others as before, and what was to be sent goes out unless one of the
    -- writev calls that send it fails.
    pub engine_peer_close_lem :
        (fuel : ℕ) (rs : List ReadResult) (c : Conn) (eng : Server) (app : h.App) (net : sys.Net)
        (e : Error)
        → IsValid c
        → NoEmpty c.outbound.list_buffer.nodes
        → c.locked ≡ false
        → length (Outbound.contents c.outbound) < fuel
        → RingBuffer.capacity c.inbound ≤ 2 ^ 61
        → length (Inbound.contents c.inbound) + length (arrived rs) ≤ 2 ^ 60
        → IsMap eng.connections
        → stopped_by rs ≡ some e
        → Forgets c eng app net (event_read sys h alloc pool fuel c.sysfd rs c eng app net)
    unfolding event_read
    engine_peer_close_lem fuel rs c eng app net e v s free enough small room m ended =
        let r = event_read_lem alloc pool rs c v.inbound_valid small room in
        let f =
          forget_lem fuel (record c { inbound = r.inbound }) eng app net
            (record { inbound_valid = r.valid; outbound_valid = v.outbound_valid }) s free enough
            m in
        rw (event_read, r.returned, ended)
          (record {
            st = f.st;
            returned = f.returned;
            told = f.told;
            gone = f.gone;
            lost = f.lost;
            in_order = f.in_order;
            all_sent = f.all_sent;
          })
