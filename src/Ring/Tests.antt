-- ===== src/Ring/Tests.antt =====
-- The ring buffer on small inputs, and its theorems at concrete ones.
use gtcp.Prelude.{
  ℕ, ◌<◌, ◌≡◌, refl, sym, inl, false, none, some, List, [], ◌∷◌, ◌++◌, arith, length, take,
  replicate, length-replicate, min, append-nil,
}
use gtcp.Errors.{eof}
use gtcp.Alloc.{Alloc}
use gtcp.Io.{Writer}
use gtcp.Ring.{Buffer, fresh, new, buffered, available, write}
use gtcp.Ring.Growth.{grow_capacity}
use gtcp.Ring.View.{contents, IsValid}
use gtcp.Ring.Write.{Writes, write_lem}
use gtcp.Ring.WriteTo.{write_to}
use gtcp.Ring.WriteTo.Parts.{WritesTo}
use gtcp.Ring.WriteTo.Laws.{write_to_lem}

-- Slices of zeros.
abbrev zeros : Alloc
zeros = record { get = λ n. replicate n 0; length-get = λ n. length-replicate n 0 }

-- 7, 8, then 9 round the end of the slice.
abbrev wrapped : Buffer
wrapped = record { buf = 9 ∷ 0 ∷ 7 ∷ 8 ∷ []; size = 4; r = 2; w = 1; is_empty = false }

abbrev full : Buffer
full = record { buf = 5 ∷ 6 ∷ []; size = 2; r = 0; w = 0; is_empty = false }

wrapped-IsValid : IsValid wrapped
wrapped-IsValid = omega arith

full-IsValid : IsValid full
full-IsValid = omega arith

contents-wrapped : contents wrapped ≡ 7 ∷ 8 ∷ 9 ∷ []
unfolding buffered
contents-wrapped = refl

new_rounds_up : new 100 ≡ some (fresh 128)
unfolding new gtcp.PowerOfTwo.ceil_to_power_of_two
new_rounds_up = refl

wrapped_grows : grow_capacity 4 5 ≡ some 8
unfolding grow_capacity
wrapped_grows = refl

three_of_eight : buffered wrapped < 8
unfolding buffered
three_of_eight = omega arith

write_lem_example : Writes wrapped (1 ∷ 2 ∷ 3 ∷ []) (write zeros wrapped (1 ∷ 2 ∷ 3 ∷ []))
write_lem_example =
    write_lem zeros wrapped wrapped-IsValid (1 ∷ 2 ∷ 3 ∷ []) (omega arith) (omega arith)

-- A full buffer of 4096 bytes.
abbrev large : Buffer
large = record { buf = replicate 4096 1; size = 4096; r = 0; w = 0; is_empty = false }

large-IsValid : IsValid large
large-IsValid = record {
  sized = length-replicate {A = ℕ} 4096 1;
  positions = (omega arith, omega arith);
}

large_full : available large ≡ 0
unfolding available
large_full = refl

-- A writer that keeps what it is given, at most two bytes a call.
abbrev two_at_most : Writer
two_at_most = record {
  Sink = List ℕ;
  write = λ s p. (min 2 (length p), none, s ++ take (min 2 (length p)) p);
  accepted = λ s. s;
  takes_prefix = λ s p. refl;
  count_fits = λ s p. omega arith;
}

write_to_lem_example : WritesTo two_at_most wrapped [] (write_to two_at_most wrapped [])
write_to_lem_example =
    write_to_lem two_at_most wrapped [] wrapped-IsValid (inl (λ q some_bytes. omega arith))

-- A writer that is not ready.
abbrev not_ready : Writer
not_ready = record {
  Sink = List ℕ;
  write = λ s p. (0, some eof, s);
  accepted = λ s. s;
  takes_prefix = λ s p. sym (append-nil s);
  count_fits = λ s p. omega arith;
}
