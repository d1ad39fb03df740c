-- ===== src/Sys.antt =====
-- The system calls that the connections make, on an abstract state of the kernel. `delivered` is what
-- the kernel has taken for the peer, in order. write(2) and writev(2) take a front part of the
-- bytes, as long as the count that they return, and none when they return an error; epoll_ctl(2) and
-- close(2) take no byte. A count of -1 is `negsuc 0`.
pub mod Samples
use gtcp.Prelude.{ℕ, ◌≤◌, ◌≡◌, Bool, false, ◌==◌, Option, none, some, List, ◌++◌, length, take}
use gtcp.Prelude.Int.{ℤ, pos_part}
use gtcp.Prelude.Slices.{flatten}
use gtcp.Errors.{Error, errno}

pub data EpollOp : Type 0 where
  ctl_add ctl_mod ctl_del : EpollOp

pub record Sys : Type 1 where
  pub Net : Type 0
  pub delivered : Net → List ℕ
  pub write : Net → ℤ → List ℕ → ℤ × Option Error × Net
  pub writev : Net → ℤ → List (List ℕ) → ℤ × Option Error × Net
  pub epoll_ctl : Net → ℤ → EpollOp → ℤ → ℕ → Option Error × Net
  pub close : Net → ℤ → Option Error × Net
  pub write_takes :
      (s : Net) (fd : ℤ) (p : List ℕ)
      → delivered (write s fd p).2 ≡ delivered s ++ take (pos_part (write s fd p).0) p
  pub write_fits : (s : Net) (fd : ℤ) (p : List ℕ) → pos_part (write s fd p).0 ≤ length p
  pub write_failed :
      (s : Net) (fd : ℤ) (p : List ℕ) (e : Error)
      → (write s fd p).1 ≡ some e
      → pos_part (write s fd p).0 ≡ 0
  pub writev_takes :
      (s : Net) (fd : ℤ) (ps : List (List ℕ))
      → delivered (writev s fd ps).2
        ≡ delivered s ++ take (pos_part (writev s fd ps).0) (flatten ps)
  pub writev_fits :
      (s : Net) (fd : ℤ) (ps : List (List ℕ)) → pos_part (writev s fd ps).0 ≤ length (flatten ps)
  pub writev_failed :
      (s : Net) (fd : ℤ) (ps : List (List ℕ)) (e : Error)
      → (writev s fd ps).1 ≡ some e
      → pos_part (writev s fd ps).0 ≡ 0
  pub epoll_ctl_takes_none :
      (s : Net) (poll_fd : ℤ) (op : EpollOp) (fd : ℤ) (events : ℕ)
      → delivered (epoll_ctl s poll_fd op fd events).1 ≡ delivered s
  pub close_takes_none : (s : Net) (fd : ℤ) → delivered (close s fd).1 ≡ delivered s

-- The error numbers of Linux that the code names.
abbrev pub eintr : Error
eintr = errno 4

abbrev pub eagain : Error
eagain = errno 11

abbrev pub econnreset : Error
econnreset = errno 104

-- `err == unix.EAGAIN`, and the like.
abbrev pub is_errno : ℕ → Option Error → Bool
is_errno k (some (errno n)) = n == k
is_errno k err = false
