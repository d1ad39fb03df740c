-- ===== src/Engine/Accept.antt =====
-- `accept` of the server: a connection that the handler takes is in the map, another one is closed.
use gtcp.Prelude.{◌≡◌, Bool, true, false, ◌&&◌, Option, none, some, [], if◌then◌else◌}
use gtcp.Prelude.Int.{ℤ, pos}
use gtcp.Alloc.{Alloc}
use gtcp.RingPool.{RingPool}
use gtcp.Errors.{Error}
use gtcp.Run.{Run, returns}
use gtcp.Sys.{Sys}
use gtcp.Netpoll.{add_read}
use gtcp.Elastic.Contents as Outbound
use gtcp.ConnMatrix.{get_conn, same_fd}
use gtcp.Conn.{Conn, new_tcp_conn}
use gtcp.Conn.Invariant.{IsValid}
use gtcp.Engine.{Server, Handle, State}
use gtcp.Elastic
use gtcp.Elastic.RingBuffer
use gtcp.LinkedList

-- A new connection holds nothing, and nobody has locked it.
record IsNew (c : Conn) : Type 0 where
  valid : IsValid c
  empty : Elastic.is_empty c.outbound ≡ true
  free : c.locked ≡ false
  holds_nothing : Outbound.contents c.outbound ≡ []

module _ (sys : Sys) (h : Handle sys) (greet bye : h.App → h.App) (action : Bool) where
  pub record Accepts (nfd : ℤ) (eng : Server) (app : h.App) (net : sys.Net) (st : State sys h)
      : Type 0 where
    pub told : st.app ≡ (if action then greet app else bye (greet app))
    pub found :
        (k : ℤ)
        → get_conn st.eng.connections k ≡ (
            if action && same_fd nfd k
            then some (new_tcp_conn eng.poll_fd nfd (pos 1024))
            else get_conn eng.connections k)
    pub nothing_sent : sys.delivered st.net ≡ sys.delivered net

module _ (sys : Sys) (h : Handle sys) (greet bye : h.App → h.App) (alloc : Alloc) (pool : RingPool)
    (nfd : ℤ) (eng : Server) (app : h.App) (net : sys.Net) where
  abbrev c : Conn
  c = new_tcp_conn eng.poll_fd nfd (pos 1024)

  abbrev net' : sys.Net
  net' = (add_read sys c.poll net).1

  pub record Accepted (action : Bool) (ran : Run (Option Error × State sys h)) : Type 0 where
    pub st : State sys h
    pub returned : ran ≡ returns (none, st)
    pub accepts : Accepts sys h greet bye action nfd eng app net st
