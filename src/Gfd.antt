-- ===== src/Gfd.antt =====
-- internal/gfd/gfd.go: a descriptor with its indexes, packed into an array of 16 bytes. An int is
-- 64 bits wide, and `uint64(fd)` is its pattern. The counter of the sequence numbers is explicit.
pub mod RoundTrip
mod Tests
use gtcp.Prelude.{
  ℕ, zero, suc, ◌+◌, ◌-◌, ◌*◌, ◌/◌, ◌%◌, ◌^◌, Bool, ◌&&◌, List, [], ◌∷◌, ltb, leb, if◌then◌else◌,
  length, take, drop, get_or, set, replicate,
}
use gtcp.Prelude.Int.{ℤ, pos, negsuc, ltb_ℤ, leb_ℤ}
use gtcp.Prelude.Slices.{slice, copy_at}
use gtcp.PowerOfTwo.{pattern_of}

abbrev pub conn_matrix_column_offset : ℕ
conn_matrix_column_offset = 2

abbrev pub sequence_offset : ℕ
sequence_offset = 4

abbrev pub fd_offset : ℕ
fd_offset = 8

abbrev pub event_loop_index_max : ℤ
event_loop_index_max = pos 256

abbrev pub conn_matrix_row_max : ℤ
conn_matrix_row_max = pos 256

abbrev pub conn_matrix_column_max : ℤ
conn_matrix_column_max = pos 65536

-- `binary.BigEndian`: the last `k` bytes of a number, and the number of some bytes.
abbrev pub be_bytes : ℕ → ℕ → List ℕ
be_bytes zero v = []
be_bytes (suc k) v = v / 256 ^ k % 256 ∷ be_bytes k v

abbrev pub be_value : List ℕ → ℕ
be_value [] = 0
be_value (b ∷ bs) = b * 256 ^ length bs + be_value bs

-- `int(v)` of a 64-bit pattern.
abbrev pub int_of : ℕ → ℤ
int_of v = if ltb v (2 ^ 63) then pos v else negsuc (2 ^ 64 - 1 - v)

-- `Inc` of a `uint32`: the counter wraps.
unfoldable pub inc : ℕ → ℕ
inc seq = (seq + 1) % 2 ^ 32

unfoldable pub fd : List ℕ → ℤ
fd gfd = int_of (be_value (drop fd_offset gfd))

unfoldable pub event_loop_index : List ℕ → ℤ
event_loop_index gfd = pos (get_or gfd 0 0)

unfoldable pub conn_matrix_row : List ℕ → ℤ
conn_matrix_row gfd = pos (get_or gfd 1 0)

unfoldable pub conn_matrix_column : List ℕ → ℤ
conn_matrix_column gfd = pos (be_value (slice gfd conn_matrix_column_offset sequence_offset))

unfoldable pub sequence : List ℕ → ℕ
sequence gfd = be_value (slice gfd sequence_offset fd_offset)

unfoldable pub update_indexes : List ℕ → ℤ → ℤ → List ℕ
update_indexes gfd row column =
    copy_at (set gfd 1 (pattern_of row % 256)) conn_matrix_column_offset
      (be_bytes 2 (pattern_of column % 2 ^ 16))

unfoldable pub validate : List ℕ → Bool
validate gfd =
    ltb_ℤ (pos 2) (fd gfd)
    && leb_ℤ (fd gfd) (pos (2 ^ 63 - 1))
    && leb_ℤ (pos 0) (event_loop_index gfd)
    && ltb_ℤ (event_loop_index gfd) event_loop_index_max
    && leb_ℤ (pos 0) (conn_matrix_row gfd)
    && ltb_ℤ (conn_matrix_row gfd) conn_matrix_row_max
    && leb_ℤ (pos 0) (conn_matrix_column gfd)
    && ltb_ℤ (conn_matrix_column gfd) conn_matrix_column_max
    && ltb 0 (sequence gfd)

-- `NewGFD`, given the counter: the array and the counter after it.
unfoldable pub new_gfd : ℕ → ℤ → ℤ → ℤ → ℤ → List ℕ × ℕ
new_gfd seq fd el_index row column =
    let seq' = inc seq in
    let a = set (replicate 16 0) 0 (pattern_of el_index % 256) in
    let b = set a 1 (pattern_of row % 256) in
    let c = copy_at b conn_matrix_column_offset (be_bytes 2 (pattern_of column % 2 ^ 16)) in
    let d = copy_at c sequence_offset (be_bytes 4 seq') in
    (copy_at d fd_offset (be_bytes 8 (pattern_of fd)), seq')
