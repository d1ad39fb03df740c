-- ===== src/Io.antt =====
-- What the buffers ask of an `io.Writer`: one call of `Write` returns how many bytes it took and an
-- error. The documentation of package io promises that it takes the first `n` bytes of the slice,
-- `n ≤ len(p)`. `accepted` is what the writer has taken so far.
use gtcp.Prelude.{ℕ, ◌≤◌, ◌≡◌, Option, none, some, List, ◌++◌, length, take}
use gtcp.Errors.{Error, eof}

pub record Writer : Type 1 where
  pub Sink : Type 0
  pub write : Sink → List ℕ → ℕ × Option Error × Sink
  pub accepted : Sink → List ℕ
  pub takes_prefix :
      (s : Sink) (p : List ℕ) → accepted (write s p).2 ≡ accepted s ++ take (write s p).0 p
  pub count_fits : (s : Sink) (p : List ℕ) → (write s p).0 ≤ length p

-- An `io.Reader`: one call of `Read` with a slice of `n` bytes puts some bytes into it, at most `n`,
-- and returns an error or none. `given` is what the reader has given so far.
pub record Reader : Type 1 where
  pub Source : Type 0
  pub read : Source → ℕ → List ℕ × Option Error × Source
  pub given : Source → List ℕ
  pub gives : (s : Source) (n : ℕ) → given (read s n).2 ≡ given s ++ (read s n).0
  pub bytes_fit : (s : Source) (n : ℕ) → length (read s n).0 ≤ n

-- `if err == io.EOF { return n, nil }; if err != nil { return }`
abbrev pub unless_eof : Error → Option Error
unless_eof eof = none
unless_eof e = some e
