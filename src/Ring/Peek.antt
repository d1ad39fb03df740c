-- ===== src/Ring/Peek.antt =====
-- `Peek`, `peekAll` and `Bytes`: the slices that they return are the contents.
use gtcp.Prelude.{
  Bool-cases, ltb, inl, inr, ℕ, ◌+◌, ◌≡◌, ◌++◌, arith, take, drop, if◌then◌else◌, ◌==◌, append-nil,
}
use gtcp.Prelude.Int.{ℤ, pos_part}
use gtcp.Prelude.Slices.{slice, take_all}
use gtcp.Ring.{Buffer, buffered, at_most, peek_all, peek, bytes}
use gtcp.Ring.Window.{window, window_flat, window_wrapped, take-window}
use gtcp.Ring.View.{contents, IsValid, length-contents}

module _ (rb : Buffer) (v : IsValid rb) where
  -- On a valid ring `Bytes` returns the contents.
  pub bytes_lem : bytes rb ≡ contents rb
  unfolding bytes buffered
  bytes_lem = ground (
    arith,
    window_flat rb.buf rb.r (buffered rb),
    window_wrapped rb.buf rb.r (buffered rb),
    append-nil (drop rb.r rb.buf),
  )

  peek_all_parts : (peek_all rb).0 ++ (peek_all rb).1 ≡ contents rb
  unfolding peek_all buffered
  peek_all_parts = ground (
    arith,
    window_flat rb.buf rb.r (buffered rb),
    window_wrapped rb.buf rb.r (buffered rb),
    append-nil (slice rb.buf rb.r rb.w),
    append-nil (drop rb.r rb.buf),
  )

  -- A read of at most `n` bytes from the contents.
  pub take-contents : (n : ℕ) → take n (contents rb) ≡ window rb.buf rb.r (at_most n (buffered rb))
  take-contents n = elim (Bool-cases (ltb n (buffered rb))) [
    | inl few ↦ rw few (take-window rb.buf rb.r (buffered rb) n (ground arith))
    | inr all ↦ rw all (take_all n (contents rb) (ground (arith, length-contents rb v)))
  ]

  -- On a valid ring the two slices that `Peek(k)` returns, one behind the other, are the first
  -- k bytes of the contents for k > 0, or fewer where there are fewer, and all of the contents
  -- otherwise.
  pub peek_lem :
      (k : ℤ)
      → (peek rb k).0 ++ (peek rb k).1
        ≡ (if pos_part k == 0 then contents rb else take (pos_part k) (contents rb))
  unfolding peek buffered
  peek_lem k =
      let n = pos_part k in
      let m = at_most n (buffered rb) in
      ground (
        arith,
        peek_all_parts,
        take-contents n,
        window_flat rb.buf rb.r m,
        window_wrapped rb.buf rb.r m,
        append-nil (slice rb.buf rb.r (rb.r + m)),
      )
