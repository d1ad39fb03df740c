-- ===== src/Errors.antt =====
-- The error values that the modelled code returns: `errors.New` values of pkg/errors/errors.go and
-- pkg/buffer/ring/ring_buffer.go, those of package io, and the numbers of the system calls.
use Prim.Native.Nat.{ℕ}

-- A Go `error` is an `Option Error`, with `none` for nil.
pub data Error : Type 0 where
  ring_is_empty short_buffer short_write eof negative_size : Error
  errno : ℕ → Error
