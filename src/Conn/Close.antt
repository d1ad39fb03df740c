-- ===== src/Conn/Close.antt =====
-- `Close`: what waits is sent first, until it is out or a call fails; then everything is given back.
use gtcp.Prelude.{ℕ, ◌<◌, ◌≡◌, ◌⊎◌, refl, ap, ◌∙◌, false, Option, List, [], ◌++◌, length}
use gtcp.Prelude.Int.{negsuc}
use gtcp.Errors.{Error}
use gtcp.Run.{Run, returns}
use gtcp.Sys.{Sys, ctl_del}
use gtcp.Netpoll.{delete}
use gtcp.LinkedList.NoEmpty.{NoEmpty}
use gtcp.Elastic
use gtcp.LinkedList
use gtcp.Elastic.RingBuffer
use gtcp.Elastic.RingBuffer.Contents as Inbound
use gtcp.Elastic.Contents as Outbound
use gtcp.Conn.{Conn, lock, unlock, drain, close, release}
use gtcp.Conn.Invariant.{IsValid, stream, lock_free}
use gtcp.Conn.Drain.{Progress, CallFails, Drains, drain-Drains}

module _ (sys : Sys) where
  open sys use {Net, delivered, epoll_ctl_takes_none, close_takes_none}

  -- What closing does: `lost` is what did not go out.
  pub record Closes (c : Conn) (net : Net) (ran : Run (Option Error × Conn × Net)) : Type 0 where
    pub error : Option Error
    pub conn : Conn
    pub net' : Net
    pub returned : ran ≡ returns (error, conn, net')
    pub lost : List ℕ
    pub in_order : delivered net' ++ lost ≡ stream sys c net
    pub sent : (lost ≡ []) ⊎ CallFails sys c.sysfd c.outbound net
    pub no_inbound : Inbound.contents conn.inbound ≡ []
    pub no_outbound : Outbound.contents conn.outbound ≡ []
    pub no_fd : conn.sysfd ≡ negsuc 0
    pub unlocked : conn.locked ≡ false

  -- What `Close` does after its loop.
  pub drained-Closes :
      (fuel : ℕ) (c : Conn) (net : Net)
      → c.locked ≡ false
      → Drains sys c.sysfd c.outbound net (drain sys fuel c.sysfd c.outbound net)
      → Closes c net (close sys fuel c net)
  unfolding close release lock unlock delete Elastic.release LinkedList.reset RingBuffer.release
  drained-Closes fuel c net free d =
      let closed = sys.close (delete sys c.poll d.result.1).1 c.sysfd in
      let same : delivered closed.1 ≡ delivered d.result.1 =
        close_takes_none (delete sys c.poll d.result.1).1 c.sysfd
        ∙ epoll_ctl_takes_none d.result.1 c.poll.poll_fd ctl_del c.poll.fd 0 in
      rw (close, lock_free c free, d.returned)
        (record {
          error = closed.0;
          conn = _;
          net' = closed.1;
          returned = refl;
          lost = Outbound.contents d.result.0;
          in_order = ap (λ (x : List ℕ). x ++ Outbound.contents d.result.0) same ∙ d.in_order;
          sent = d.sent;
          no_inbound = refl;
          no_outbound = refl;
          no_fd = refl;
          unlocked = refl;
        })

  -- If a writev(2) that is offered some bytes takes one or fails, on a valid connection that
  -- nobody has locked, without an empty node in its list and with fewer bytes waiting than the
  -- fuel, `Close` returns: the bytes taken by the kernel and then the lost ones are the
  -- sequence of before, nothing is lost unless one of the writev calls that this `Close` makes
  -- fails, and the connection holds no bytes, has the descriptor -1 and is unlocked.
  pub conn_close_lem :
      Progress sys
      → (fuel : ℕ) (c : Conn) (net : Net) → IsValid c
      → NoEmpty c.outbound.list_buffer.nodes
      → c.locked ≡ false
      → length (Outbound.contents c.outbound) < fuel
      → Closes c net (close sys fuel c net)
  conn_close_lem progress fuel c net v s free enough =
      drained-Closes fuel c net free
        (drain-Drains sys progress fuel c.sysfd c.outbound net v.outbound_valid s enough)
