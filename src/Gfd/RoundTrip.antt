-- ===== src/Gfd/RoundTrip.antt =====
-- What `NewGFD` packs, the accessors read back.
use gtcp.Prelude.{ℕ, ◌+◌, ◌%◌, ◌-◌, ◌^◌, ◌<◌, ◌≡◌, refl, ap, ◌∙◌, arith, List, true, ltb}
use gtcp.Prelude.Int.{ℤ, pos, ltb_ℤ, leb_ℤ}
use gtcp.Gfd.{
  be_bytes, be_value, int_of, inc, fd, event_loop_index, conn_matrix_row, conn_matrix_column,
  sequence, update_indexes, validate, new_gfd,
}

be_value_two : (v : ℕ) → v < 2 ^ 16 → be_value (be_bytes 2 v) ≡ v
be_value_two v h = omega arith

be_value_four : (v : ℕ) → v < 2 ^ 32 → be_value (be_bytes 4 v) ≡ v
be_value_four v h = omega arith

be_value_eight : (v : ℕ) → v < 2 ^ 63 → be_value (be_bytes 8 v) ≡ v
be_value_eight v h = omega arith

-- The fields of a packed descriptor.
pub record Fields (gfd : List ℕ) (d el row column : ℤ) (seq : ℕ) : Type 0 where
  pub fd_field : fd gfd ≡ d
  pub event_loop_field : event_loop_index gfd ≡ el
  pub row_field : conn_matrix_row gfd ≡ row
  pub column_field : conn_matrix_column gfd ≡ column
  pub sequence_field : sequence gfd ≡ seq

-- For a descriptor below 2 ^ 63, an event-loop index and a row below 256 and a column below 2 ^
-- 16, the accessors read back from the result of `NewGFD` each of them and the next number of
-- the sequence.
pub new_gfd_lem :
    (seq d el row column : ℕ)
    → d < 2 ^ 63
    → el < 256
    → row < 256
    → column < 2 ^ 16
    → Fields
        (new_gfd seq (pos d) (pos el) (pos row) (pos column)).0
        (pos d)
        (pos el)
        (pos row)
        (pos column)
        (inc seq)
unfolding new_gfd fd event_loop_index conn_matrix_row conn_matrix_column sequence inc
new_gfd_lem seq d el row column hd he hr hc = record {
  fd_field = ap int_of (be_value_eight d hd) ∙ ground arith;
  event_loop_field = ap pos (omega arith);
  row_field = ap pos (omega arith);
  column_field = ap pos (be_value_two (column % 2 ^ 16) (omega arith) ∙ omega arith);
  sequence_field = be_value_four ((seq + 1) % 2 ^ 32) (omega arith);
}

-- `UpdateIndexes` on the result of `NewGFD` gives what `NewGFD` with the new row and column
-- gives: descriptor, event loop and sequence number stay.
pub update_indexes-new_gfd :
    (seq : ℕ) (d el row column row' column' : ℤ)
    → update_indexes (new_gfd seq d el row column).0 row' column'
      ≡ (new_gfd seq d el row' column').0
unfolding new_gfd update_indexes
update_indexes-new_gfd seq d el row column row' column' = refl

-- The two tests of an index.
index_fits :
    (n bound : ℕ) → n < bound → (leb_ℤ (pos 0) (pos n) ≡ true) × (ltb_ℤ (pos n) (pos bound) ≡ true)
index_fits n bound h = (ground arith, ground arith)

-- For a descriptor above 2 and below 2 ^ 63, an event-loop index and a row below 256 and a
-- column below 2 ^ 16, `Validate` accepts the result of `NewGFD` exactly when its sequence
-- number is not 0.
pub validate-new_gfd :
    (seq d el row column : ℕ)
    → 2 < d
    → d < 2 ^ 63
    → el < 256
    → row < 256
    → column < 2 ^ 16
    → validate (new_gfd seq (pos d) (pos el) (pos row) (pos column)).0 ≡ ltb 0 (inc seq)
unfolding validate
validate-new_gfd seq d el row column more hd he hr hc =
    let f = new_gfd_lem seq d el row column hd he hr hc in
    let a : ltb_ℤ (pos 2) (pos d) ≡ true = ground arith in
    let b : leb_ℤ (pos d) (pos (2 ^ 63 - 1)) ≡ true = ground arith in
    rw (
      f.fd_field,
      f.event_loop_field,
      f.row_field,
      f.column_field,
      f.sequence_field,
      a,
      b,
      (index_fits el 256 he).0,
      (index_fits el 256 he).1,
      (index_fits row 256 hr).0,
      (index_fits row 256 hr).1,
      (index_fits column (2 ^ 16) hc).0,
      (index_fits column (2 ^ 16) hc).1,
    )
