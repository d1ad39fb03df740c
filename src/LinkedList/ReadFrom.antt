-- ===== src/LinkedList/ReadFrom.antt =====
-- `ReadFrom` of pkg/buffer/linkedlist, as a function of what the calls of the reader return.
use gtcp.Prelude.{
  ℕ, ◌+◌, ◌≡◌, sym, ap, ◌∙◌, Option, none, some, List, [], ◌∷◌, ◌++◌, map, arith, length,
  append-nil, append_assoc,
}
use gtcp.Prelude.Slices.{flatten, byte_lengths}
use gtcp.Errors.{Error}
use gtcp.Io.{unless_eof}
use gtcp.LinkedList.{Buffer, push_back}
use gtcp.LinkedList.Queue.{contents, IsValid, contents-push_back, push_back-IsValid}

-- The bytes that a call put into its slice, and its error.
pub record Call : Type 0 where
  pub bytes : List ℕ
  pub err : Option Error

-- With `n` bytes read so far; `none` while the reader is still waited for.
unfoldable pub read_from : List Call → Buffer → ℕ → Option (ℕ × Option Error × Buffer)
read_from [] llb n = none
read_from (c ∷ cs) llb n =
    let rest = read_from cs (push_back c.bytes llb) (n + length c.bytes) in
    elim c.err [ some e ↦ some (n + length c.bytes, unless_eof e, llb) | none ↦ rest ]

abbrev pub without_error : List ℕ → Call
without_error p = record { bytes = p; err = none }

-- What reading the slices `ps` and then `last` with an error does.
pub record ReadsFrom (llb : Buffer) (ps : List (List ℕ)) (last : List ℕ) (e : Error) (n : ℕ)
    (out : Option (ℕ × Option Error × Buffer)) : Type 0 where
  pub result : Buffer
  pub returned : out ≡ some (n + length (flatten ps) + length last, unless_eof e, result)
  pub appended : contents result ≡ contents llb ++ flatten ps
  pub valid : IsValid result

read_from-ReadsFrom :
    (ps : List (List ℕ)) (last : List ℕ) (e : Error) (llb : Buffer) (n : ℕ)
    → IsValid llb
    → ReadsFrom llb ps last e n
        (read_from (map without_error ps ++ record { bytes = last; err = some e } ∷ []) llb n)
unfolding read_from
read_from-ReadsFrom [] last e llb n v = record {
  result = llb;
  returned = ap (λ k. some (k, unless_eof e, llb)) (omega arith);
  appended = sym (append-nil (contents llb));
  valid = v;
}
read_from-ReadsFrom (p ∷ ps) last e llb n v =
    let r =
      read_from-ReadsFrom ps last e (push_back p llb) (n + length p) (push_back-IsValid p llb v) in
    record {
      result = r.result;
      returned = r.returned ∙ ap (λ k. some (k, unless_eof e, r.result)) (omega byte_lengths);
      appended =
          r.appended
          ∙ ap (λ (x : List ℕ). x ++ flatten ps) (contents-push_back p llb)
          ∙ append_assoc (contents llb) p (flatten ps);
      valid = r.valid;
    }

-- On a valid linked buffer and a reader whose calls return the slices ps without an error and
-- then the bytes of last with an error, `ReadFrom` returns the number of all these bytes, and
-- the error unless it is io.EOF; but only the bytes of ps go behind the contents, those of last
-- are lost; the counters stay right.
pub list_read_from_lem :
    (ps : List (List ℕ)) (last : List ℕ) (e : Error) (llb : Buffer)
    → IsValid llb
    → ReadsFrom llb ps last e 0
        (read_from (map without_error ps ++ record { bytes = last; err = some e } ∷ []) llb 0)
list_read_from_lem ps last e llb v = read_from-ReadsFrom ps last e llb 0 v
