-- ===== src/LinkedList/Look.antt =====
-- `Peek` and `PeekWithBytes` of pkg/buffer/linkedlist show a front part of the bytes, whole slices
-- at a time, and enough of them for the limit.
use gtcp.Prelude.{
  ℕ, ◌+◌, ◌≤◌, min, ◌≡◌, refl, sym, ap, ◌∙◌, inl, inr, List, [], ◌∷◌, ◌++◌, arith, ltb, leb,
  if◌then◌else◌, length, take, length-append, append-nil, append_assoc, Bool-cases,
}
use gtcp.Prelude.Int.{ℤ}
use gtcp.Prelude.Slices.{
  flatten, byte_lengths, take_all, take-append_le, take-append_ge, length_nil,
}
use gtcp.LinkedList.{Buffer, peek_nodes, peek_with, peek, peek_with_bytes, limit_of}
use gtcp.LinkedList.Queue.{contents}

-- The slices `out` are a front part of `bytes`, and with the `cum` bytes before them they reach the
-- limit, unless the bytes run out.
pub record Looks (bytes : List ℕ) (limit cum : ℕ) (out : List (List ℕ)) : Type 0 where
  pub front : flatten out ≡ take (length (flatten out)) bytes
  pub enough : min limit (cum + length bytes) ≤ cum + length (flatten out)

one-Looks :
    (b rest : List ℕ) (limit cum : ℕ)
    → limit ≤ cum + length b
    → Looks (b ++ rest) limit cum (b ∷ [])
one-Looks b rest limit cum h = record {
  front =
      rw (append-nil b, take-append_le (length b) b rest (omega arith))
        (sym (take_all (length b) b (omega arith)));
  enough = omega (byte_lengths, length-append b []);
}

more-Looks :
    (b rest : List ℕ) (limit cum : ℕ) (out : List (List ℕ))
    → Looks rest limit (cum + length b) out
    → Looks (b ++ rest) limit cum (b ∷ out)
more-Looks b rest limit cum out l = record {
  front =
      let n = length (flatten out) in
      ap (λ (x : List ℕ). b ++ x) l.front
      ∙ ap (λ k. b ++ take k rest) (omega (arith, length-append b (flatten out)))
      ∙ sym (
          take-append_ge (length (b ++ flatten out)) b rest
            (omega (arith, length-append b (flatten out))));
  enough = omega (byte_lengths, l.enough);
}

last-Looks :
    (b rest : List ℕ) (limit cum : ℕ) (out : List (List ℕ))
    → Looks rest limit (cum + length b) out
    → Looks (b ++ rest) limit cum (b ∷ (if leb limit (cum + length b) then [] else out))
last-Looks b rest limit cum out l = elim (Bool-cases (leb limit (cum + length b))) [
  | inl done ↦ rw done (one-Looks b rest limit cum (ground arith))
  | inr more ↦ rw more (more-Looks b rest limit cum out l)
]

peek_nodes-Looks :
    (nodes : List (List ℕ)) (limit cum : ℕ)
    → Looks (flatten nodes) limit cum (peek_nodes nodes limit cum)
unfolding peek_nodes
peek_nodes-Looks [] limit cum = record { front = refl; enough = omega arith }
peek_nodes-Looks (b ∷ rest) limit cum =
    last-Looks b (flatten rest) limit cum (peek_nodes rest limit (cum + length b))
      (peek_nodes-Looks rest limit (cum + length b))

peek_with-Looks :
    (bs nodes : List (List ℕ)) (limit cum : ℕ)
    → Looks (flatten bs ++ flatten nodes) limit cum (peek_with bs nodes limit cum)
unfolding peek_with
peek_with-Looks [] nodes limit cum = peek_nodes-Looks nodes limit cum
peek_with-Looks (b ∷ bs) nodes limit cum = elim (Bool-cases (ltb 0 (length b))) [
  | inl some_bytes ↦
      rw (some_bytes, append_assoc b (flatten bs) (flatten nodes))
        (last-Looks b (flatten bs ++ flatten nodes) limit cum
          (peek_with bs nodes limit (cum + length b))
          (peek_with-Looks bs nodes limit (cum + length b)))
  | inr none_here ↦ rw (none_here, length_nil b (ground arith)) (peek_with-Looks bs nodes limit cum)
]

-- The slices that `Peek(k)` returns are a front part of the contents of the linked buffer, of
-- at least the limit's bytes or all of them; the limit is k, or math.MaxInt32 for k ≤ 0.
pub list_peek_lem : (llb : Buffer) (k : ℤ) → Looks (contents llb) (limit_of k) 0 (peek llb k)
unfolding peek
list_peek_lem llb k = peek_nodes-Looks llb.nodes (limit_of k) 0

-- The slices that `PeekWithBytes(k, bs...)` returns are a front part of the bytes of bs and
-- then the contents, of at least the limit's bytes or all of them; the limit is k, or
-- math.MaxInt32 for k ≤ 0.
pub peek_with_bytes_lem :
    (llb : Buffer) (k : ℤ) (bs : List (List ℕ))
    → Looks (flatten bs ++ contents llb) (limit_of k) 0 (peek_with_bytes llb k bs)
unfolding peek_with_bytes
peek_with_bytes_lem llb k bs = peek_with-Looks bs llb.nodes (limit_of k) 0
