-- ===== src/LinkedList/Tests.antt =====
-- The linked buffer on small inputs, and its theorems at concrete ones.
use gtcp.Prelude.{
  ◌≡◌, ℕ, List, map, min, length, take, none, some, refl, [], ◌∷◌, ◌++◌, arith, replicate,
  length-replicate,
}
use gtcp.Prelude.Int.{pos}
use gtcp.Alloc.{Alloc}
use gtcp.Errors.{errno, eof}
use gtcp.Io.{Writer}
use gtcp.LinkedList.{Buffer, read, discard, pop, push_front, read_loop, discard_loop}
use gtcp.LinkedList.Queue.{IsValid}
use gtcp.LinkedList.ReadFrom.{ReadsFrom, read_from, without_error, list_read_from_lem}

abbrev zeros : Alloc
zeros = record { get = λ n. replicate n 0; length-get = λ n. length-replicate n 0 }

-- Two nodes.
abbrev two : Buffer
two = record { nodes = (1 ∷ 2 ∷ []) ∷ (3 ∷ 4 ∷ 5 ∷ []) ∷ []; size = 2; bytes = 5 }

two-IsValid : IsValid two
two-IsValid = omega arith

read_runs :
    read two (0 ∷ 0 ∷ 0 ∷ [])
    ≡ (3, 1 ∷ 2 ∷ 3 ∷ [], record { nodes = (4 ∷ 5 ∷ []) ∷ []; size = 1; bytes = 2 })
unfolding read read_loop pop push_front
read_runs = refl

discard_runs : (discard two (pos 9)).0 ≡ 5
unfolding discard discard_loop pop push_front
discard_runs = refl

-- A writer that takes at most two bytes a call, and one that fails after a byte.
abbrev two_at_most : Writer
two_at_most = record {
  Sink = List ℕ;
  write = λ s p. (min 2 (length p), none, s ++ take (min 2 (length p)) p);
  accepted = λ s. s;
  takes_prefix = λ s p. refl;
  count_fits = λ s p. omega arith;
}

abbrev fails_after_one : Writer
fails_after_one = record two_at_most {
  write = λ s p. (min 1 (length p), some (errno 11), s ++ take (min 1 (length p)) p);
  takes_prefix = λ s p. refl;
  count_fits = λ s p. omega arith;
}

list_read_from_lem_example : ReadsFrom two ((6 ∷ []) ∷ []) (7 ∷ 8 ∷ []) eof 0 (
    read_from
      (map without_error ((6 ∷ []) ∷ []) ++ record { bytes = 7 ∷ 8 ∷ []; err = some eof } ∷ [])
      two
      0)
list_read_from_lem_example = list_read_from_lem ((6 ∷ []) ∷ []) (7 ∷ 8 ∷ []) eof two two-IsValid
