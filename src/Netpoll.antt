-- ===== src/Netpoll.antt =====
-- internal/netpoll/epoll_default_poller.go and epoll_events.go: what is registered for a descriptor, and
-- the list that receives the events of one wait.
pub mod EventList
use Prim.Native.Nat.{bit_or}
use gtcp.Prelude.{ℕ, Option}
use gtcp.Prelude.Int.{ℤ}
use gtcp.Errors.{Error}
use gtcp.Sys.{Sys, EpollOp, ctl_add, ctl_mod, ctl_del}

-- The numbers of the events of epoll(7).
abbrev pub epollin : ℕ
epollin = 1

abbrev pub epollpri : ℕ
epollpri = 2

abbrev pub epollout : ℕ
epollout = 4

abbrev pub epollerr : ℕ
epollerr = 8

abbrev pub epollhup : ℕ
epollhup = 16

abbrev pub epollrdhup : ℕ
epollrdhup = 0x2000

abbrev pub read_events : ℕ
read_events = bit_or epollpri epollin

abbrev pub write_events : ℕ
write_events = epollout

abbrev pub read_write_events : ℕ
read_write_events = bit_or read_events write_events

abbrev pub err_events : ℕ
err_events = bit_or (bit_or epollerr epollhup) epollrdhup

abbrev pub out_events : ℕ
out_events = bit_or err_events epollout

abbrev pub in_events : ℕ
in_events = bit_or (bit_or err_events epollin) epollpri

-- Without the field Callback, which the default poller does not read.
pub record PollAttachment : Type 0 where
  pub fd : ℤ
  pub poll_fd : ℤ

module _ (sys : Sys) where
  open sys use {Net, epoll_ctl}

  unfoldable pub add_read_write : PollAttachment → Net → Option Error × Net
  add_read_write pa net = epoll_ctl net pa.poll_fd ctl_add pa.fd read_write_events

  unfoldable pub add_read : PollAttachment → Net → Option Error × Net
  add_read pa net = epoll_ctl net pa.poll_fd ctl_add pa.fd read_events

  unfoldable pub mod_read : PollAttachment → Net → Option Error × Net
  mod_read pa net = epoll_ctl net pa.poll_fd ctl_mod pa.fd read_events

  unfoldable pub mod_read_write : PollAttachment → Net → Option Error × Net
  mod_read_write pa net = epoll_ctl net pa.poll_fd ctl_mod pa.fd read_write_events

  unfoldable pub delete : PollAttachment → Net → Option Error × Net
  delete pa net = epoll_ctl net pa.poll_fd ctl_del pa.fd 0
