-- ===== src/LinkedList/Discard.antt =====
-- `Discard` of pkg/buffer/linkedlist takes bytes off the front of the list, across nodes.

use gtcp.Prelude.{
  ℕ, zero, suc, ◌+◌, ◌-◌, ◌≤◌, ◌<◌, min, ◌≡◌, sym, ap, ◌∙◌, inl, inr, Option, none, some, List, [],
  ◌∷◌, ◌++◌, arith, ltb, ◌==◌, if◌then◌else◌, length, drop, length-append, Bool-cases,
}
use gtcp.Prelude.Int.{ℤ, pos_part}
use gtcp.Prelude.Slices.{flatten, drop-append_ge, drop-append_le, drop-zero, drop-nil, length_nil}
use gtcp.LinkedList.{Buffer, pop, push_front, discard_loop, discard}
use gtcp.LinkedList.Queue.{
  contents, IsValid, Pops, nil, took, pop-Pops, push_front-IsValid, contents-push_front,
}

-- What discarding `n` bytes does, `discarded` of which were gone before.
pub record Discards (llb : Buffer) (n discarded : ℕ) (out : ℕ × Buffer) : Type 0 where
  pub count : out.0 ≡ discarded + min n (length (contents llb))
  pub rest : contents out.1 ≡ drop n (contents llb)
  pub valid : IsValid out.1

-- One node that is longer than what is left to discard, and one that is not.
discard_part :
    (llb rest : Buffer) (b : List ℕ) (n discarded : ℕ)
    → llb.nodes ≡ b ∷ rest.nodes
    → IsValid rest
    → n < length b
    → Discards llb n discarded (discarded + n, push_front (drop n b) rest)
discard_part llb rest b n discarded e v h =
    let all : contents llb ≡ b ++ contents rest = ap flatten e in
    record {
      count = omega (arith, ap length all, length-append b (contents rest));
      rest =
          contents-push_front (drop n b) rest
          ∙ sym (drop-append_le n b (contents rest) (omega arith))
          ∙ ap (drop n) (sym all);
      valid = push_front-IsValid (drop n b) rest v;
    }

discard_whole :
    (llb rest : Buffer) (b : List ℕ) (n discarded : ℕ) {out : ℕ × Buffer}
    → llb.nodes ≡ b ∷ rest.nodes
    → length b ≤ n
    → Discards rest (n - length b) (discarded + length b) out
    → Discards llb n discarded out
discard_whole llb rest b n discarded e h d =
    let all : contents llb ≡ b ++ contents rest = ap flatten e in
    record {
      count = omega (arith, d.count, ap length all, length-append b (contents rest));
      rest = d.rest ∙ sym (drop-append_ge n b (contents rest) h) ∙ ap (drop n) (sym all);
      valid = d.valid;
    }

discard_nil :
    (llb : Buffer) (n discarded : ℕ)
    → llb.nodes ≡ []
    → IsValid llb
    → Discards llb n discarded (discarded, llb)
discard_nil llb n discarded e v =
    let all : contents llb ≡ [] = ap flatten e in
    record {
      count = omega (arith, ap length all);
      rest = all ∙ sym (drop-nil n) ∙ ap (drop n) (sym all);
      valid = v;
    }

discard_zero :
    (llb : Buffer) (n discarded : ℕ)
    → n ≡ 0
    → IsValid llb
    → Discards llb n discarded (discarded, llb)
discard_zero llb n discarded e v = record {
  count = omega arith;
  rest = sym (drop-zero n (contents llb) e);
  valid = v;
}

module _ (fuel : ℕ) (llb : Buffer) (n discarded : ℕ)
    (loop : (rest : Buffer) (k d : ℕ)
      → IsValid rest
      → length rest.nodes ≤ fuel
      → Discards rest k d (discard_loop fuel rest k d))
    (v : IsValid llb) (h : length llb.nodes ≤ suc fuel) where
  discard_popped :
      (popped : Option (List ℕ × Buffer))
      → Pops llb popped
      → Discards llb n discarded (elim popped [
        | none ↦ (discarded, llb)
        | some (b, rest) ↦
            if ltb n (length b)
            then (discarded + n, push_front (drop n b) rest)
            else discard_loop fuel rest (n - length b) (discarded + length b)
      ])
  discard_popped _ (nil e) = discard_nil llb n discarded e v
  discard_popped _ (took b rest e w) = elim (Bool-cases (ltb n (length b))) [
    | inl part ↦ rw part (discard_part llb rest b n discarded e w (ground arith))
    | inr whole ↦ rw whole (
        discard_whole llb rest b n discarded e (ground arith)
          (loop rest (n - length b) (discarded + length b) w (omega (arith, ap length e))))
  ]

discard_loop-Discards :
    (fuel : ℕ) (llb : Buffer) (n discarded : ℕ)
    → IsValid llb
    → length llb.nodes ≤ fuel
    → Discards llb n discarded (discard_loop fuel llb n discarded)
unfolding discard_loop
discard_loop-Discards zero llb n discarded v h =
    discard_nil llb n discarded (length_nil llb.nodes (omega arith)) v
discard_loop-Discards (suc fuel) llb n discarded v h = elim (Bool-cases (n == 0)) [
  | inl z ↦ rw z (discard_zero llb n discarded (ground arith) v)
  | inr more ↦ rw more (
      discard_popped fuel llb n discarded (discard_loop-Discards fuel) v h (pop llb)
        (pop-Pops llb v))
]

-- On a valid linked buffer `Discard(n)` returns the smaller of n and Buffered, 0 for n ≤ 0, and
-- takes exactly that many bytes off the front, also in the middle of a node; the counters stay
-- right.
pub list_discard_lem :
    (llb : Buffer) (k : ℤ) → IsValid llb → Discards llb (pos_part k) 0 (discard llb k)
unfolding discard
list_discard_lem llb k v = elim (Bool-cases (pos_part k == 0)) [
  | inl z ↦ rw z (discard_zero llb (pos_part k) 0 (ground arith) v)
  | inr more ↦ rw more (discard_loop-Discards (length llb.nodes) llb (pos_part k) 0 v (omega arith))
]
