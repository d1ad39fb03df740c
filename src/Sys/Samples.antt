-- ===== src/Sys/Samples.antt =====
-- Two kernels for tests, whose state is what they have taken: one takes all that it is offered, the other
-- refuses every byte with the same error.
use gtcp.Prelude.{ℕ, ◌≡◌, refl, sym, ap, none, some, List, ◌++◌, arith, length, take, append-nil}
use gtcp.Prelude.Int.{pos, negsuc}
use gtcp.Prelude.Slices.{flatten, take_all}
use gtcp.Errors.{Error}
use gtcp.Sys.{Sys}

pub all_of : (s p : List ℕ) → s ++ p ≡ s ++ take (length p) p
all_of s p = ap (λ (x : List ℕ). s ++ x) (sym (take_all (length p) p (omega arith)))

abbrev pub takes_all : Sys
takes_all = record {
  Net = List ℕ;
  delivered = λ s. s;
  write = λ s fd p. (pos (length p), none, s ++ p);
  writev = λ s fd ps. (pos (length (flatten ps)), none, s ++ flatten ps);
  epoll_ctl = λ s poll_fd op fd events. (none, s);
  close = λ s fd. (none, s);
  write_takes = λ s fd p. all_of s p;
  write_fits = λ s fd p. omega arith;
  write_failed = λ s fd p e h. absurd (ground (arith, h));
  writev_takes = λ s fd ps. all_of s (flatten ps);
  writev_fits = λ s fd ps. omega arith;
  writev_failed = λ s fd ps e h. absurd (ground (arith, h));
  epoll_ctl_takes_none = λ s poll_fd op fd events. refl;
  close_takes_none = λ s fd. refl;
}

abbrev pub refuses : Error → Sys
refuses e = record {
  Net = List ℕ;
  delivered = λ s. s;
  write = λ s fd p. (negsuc 0, some e, s);
  writev = λ s fd ps. (negsuc 0, some e, s);
  epoll_ctl = λ s poll_fd op fd events. (none, s);
  close = λ s fd. (none, s);
  write_takes = λ s fd p. sym (append-nil s);
  write_fits = λ s fd p. omega arith;
  write_failed = λ s fd p e h. refl;
  writev_takes = λ s fd ps. sym (append-nil s);
  writev_fits = λ s fd ps. omega arith;
  writev_failed = λ s fd ps e h. refl;
  epoll_ctl_takes_none = λ s poll_fd op fd events. refl;
  close_takes_none = λ s fd. refl;
}
