-- ===== src/Ring/ReadFrom/Tests.antt =====
-- `ReadFrom` from a reader that follows a script: for each call, the bytes that it has and its error.
use gtcp.Prelude.{
  ℕ, ◌+◌, ◌^◌, ◌≤◌, refl, inr, false, Option, none, some, List, [], ◌∷◌, ◌++◌, arith, take,
  replicate, length-replicate,
}
use gtcp.Prelude.Slices.{byte_lengths}
use gtcp.Alloc.{Alloc}
use gtcp.Errors.{Error, eof}
use gtcp.Io.{Reader}
use gtcp.Ring.{Buffer, buffered, available, fresh}
use gtcp.Ring.View.{IsValid}
use gtcp.Ring.Growth.{min_read}
use gtcp.Ring.ReadFrom.{read_from}
use gtcp.Ring.ReadFrom.Laws.{Ends, ReadsAll}
use gtcp.Ring.ReadFrom.FromStart.{ring_read_from_lem}
use gtcp.Ring.ReadFrom.Faults.{ReadsStale, read_from_stale}

abbrev zeros : Alloc
zeros = record { get = λ n. replicate n 0; length-get = λ n. length-replicate n 0 }

record Script : Type 0 where
  calls : List (List ℕ × Option Error)
  gave : List ℕ

-- At the end of the script the reader has nothing more.
abbrev answer : List (List ℕ × Option Error) → List ℕ × Option Error
answer [] = ([], some eof)
answer ((p, e) ∷ rest) = (p, e)

abbrev later_calls : List (List ℕ × Option Error) → List (List ℕ × Option Error)
later_calls [] = []
later_calls (c ∷ rest) = rest

abbrev follow : Script → ℕ → List ℕ × Option Error × Script
follow s n = (
  take n (answer s.calls).0,
  (answer s.calls).1,
  record { calls = later_calls s.calls; gave = s.gave ++ take n (answer s.calls).0 },
)

abbrev scripted : Reader
scripted = record {
  Source = Script;
  read = follow;
  given = λ s. s.gave;
  gives = λ s n. refl;
  bytes_fit = λ s n. omega byte_lengths;
}

abbrev script : List (List ℕ × Option Error) → Script
script cs = record { calls = cs; gave = [] }

-- Three bytes in two short reads, each followed by a call that is offered no room.
abbrev short_reads : Script
short_reads = script ((1 ∷ 2 ∷ [], none) ∷ ([], none) ∷ (3 ∷ [], none) ∷ ([], none) ∷ [])

short_reads_end : Ends scripted 3 3 short_reads
short_reads_end n pos = (
  omega byte_lengths,
  λ _ _ m pos'. (omega byte_lengths, λ _ _ k pos''. (omega byte_lengths, λ e. cc)),
)

fresh-IsValid : IsValid (fresh 0)
fresh-IsValid = record { sized = refl; positions = (refl, refl) }

nothing_buffered : buffered (fresh 0) + 3 ≤ 2 ^ 59
unfolding buffered
nothing_buffered = omega arith

ring_read_from_lem_example :
    ReadsAll scripted (fresh 0) 0 short_reads (read_from zeros scripted 3 (fresh 0) 0 short_reads)
ring_read_from_lem_example =
    ring_read_from_lem scripted zeros 3 3 (fresh 0) short_reads fresh-IsValid refl (omega arith)
      nothing_buffered short_reads_end (inr (λ k pos. omega byte_lengths))

-- Two bytes between the positions 2 and 4, in a slice of 1024.
abbrev held : Buffer
held = record { buf = replicate 1024 9; size = 1024; r = 2; w = 4; is_empty = false }

held-IsValid : IsValid held
held-IsValid = record {
  sized = length-replicate {A = ℕ} 1024 9;
  positions = (omega arith, omega arith);
}

held_room : min_read ≤ available held
unfolding available
held_room = omega arith

abbrev short_then_more : Script
short_then_more = script ((1 ∷ [], none) ∷ (7 ∷ 8 ∷ [], some eof) ∷ [])

read_from_stale_example :
    ReadsStale zeros scripted held
      (1 ∷ [])
      (7 ∷ 8 ∷ [])
      eof
      (record { calls = []; gave = 1 ∷ 7 ∷ 8 ∷ [] })
      (read_from zeros scripted 1 held 0 short_then_more)
read_from_stale_example =
    read_from_stale zeros scripted 0 held short_then_more eof held-IsValid refl (omega arith)
      held_room refl refl (omega arith)
