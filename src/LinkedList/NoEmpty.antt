-- ===== src/LinkedList/NoEmpty.antt =====
-- Lists without an empty node: `PushBack` adds none, and discarding leaves none.
use mathlib.Core.Path.{subst}
use gtcp.Prelude.{
  ℕ, Bool, zero, suc, ◌+◌, ◌-◌, ◌<◌, ◌≡◌, inl, inr, true, false, Option, none, some, List, [], ◌∷◌,
  arith, ltb, leb, ◌==◌, if◌then◌else◌, length, take, drop, Bool-cases,
}
use gtcp.Prelude.Int.{ℤ, pos_part}
use gtcp.Prelude.Slices.{flatten, byte_lengths}
use gtcp.LinkedList.{Buffer, pop, push_front, peek_nodes, peek_with, discard_loop, discard}
use gtcp.LinkedList.Queue.{IsValid, Pops, nil, took, pop-Pops}

abbrev pub NoEmpty : List (List ℕ) → Type 0
NoEmpty [] = Unit
NoEmpty (b ∷ bs) = (0 < length b) × NoEmpty bs

-- Then the first slices hold a byte if all of them do.
pub first_byte :
    (m : ℕ) (bs : List (List ℕ))
    → NoEmpty bs
    → 0 < length (flatten bs)
    → 0 < length (flatten (take (suc m) bs))
first_byte m [] s h = absurd (omega arith)
first_byte m (b ∷ bs) s h = omega (byte_lengths, s.0)

pub some_bytes :
    (nodes : List (List ℕ))
    → NoEmpty nodes
    → (elim nodes [ [] ↦ true | _ ↦ false ]) ≡ false
    → 0 < length (flatten nodes)
some_bytes [] s h = absurd (ground arith)
some_bytes (b ∷ bs) s h = omega (byte_lengths, s.0)

cut-NoEmpty :
    (b : List ℕ) (bs : List (List ℕ)) (test : Bool)
    → 0 < length b
    → NoEmpty bs
    → NoEmpty (b ∷ (if test then [] else bs))
cut-NoEmpty b bs true h s = (h, _)
cut-NoEmpty b bs false h s = (h, s)

pub peek_nodes-NoEmpty :
    (nodes : List (List ℕ)) (limit cum : ℕ) → NoEmpty nodes → NoEmpty (peek_nodes nodes limit cum)
unfolding peek_nodes
peek_nodes-NoEmpty [] limit cum s = _
peek_nodes-NoEmpty (b ∷ rest) limit cum s =
    cut-NoEmpty b (peek_nodes rest limit (cum + length b)) (leb limit (cum + length b)) s.0
      (peek_nodes-NoEmpty rest limit (cum + length b) s.1)

pub peek_with-NoEmpty :
    (bs nodes : List (List ℕ)) (limit cum : ℕ)
    → NoEmpty nodes
    → NoEmpty (peek_with bs nodes limit cum)
unfolding peek_with
peek_with-NoEmpty [] nodes limit cum s = peek_nodes-NoEmpty nodes limit cum s
peek_with-NoEmpty (b ∷ bs) nodes limit cum s = elim (Bool-cases (ltb 0 (length b))) [
  | inl more ↦ rw more (
      cut-NoEmpty b (peek_with bs nodes limit (cum + length b)) (leb limit (cum + length b))
        (ground arith) (peek_with-NoEmpty bs nodes limit (cum + length b) s))
  | inr none_here ↦ rw none_here (peek_with-NoEmpty bs nodes limit cum s)
]

module _ (fuel : ℕ) (n discarded : ℕ)
    (loop : (rest : Buffer) (k d : ℕ)
      → IsValid rest
      → NoEmpty rest.nodes
      → NoEmpty (discard_loop fuel rest k d).1.nodes) where
  discard_popped-NoEmpty :
      (llb : Buffer) (popped : Option (List ℕ × Buffer))
      → NoEmpty llb.nodes
      → Pops llb popped
      → let out : ℕ × Buffer = elim popped [
        | none ↦ (discarded, llb)
        | some (b, rest) ↦
            if ltb n (length b)
            then (discarded + n, push_front (drop n b) rest)
            else discard_loop fuel rest (n - length b) (discarded + length b)
      ] in
        NoEmpty out.1.nodes
  unfolding push_front
  discard_popped-NoEmpty llb _ s (nil e) = s
  discard_popped-NoEmpty llb _ s (took b rest e w) =
      let (h, s') : NoEmpty (b ∷ rest.nodes) = subst NoEmpty e s in
      elim (Bool-cases (ltb n (length b))) [
        | inl part ↦ let short : n < length b = ground arith in rw part (omega byte_lengths, s')
        | inr whole ↦ rw whole (loop rest (n - length b) (discarded + length b) w s')
      ]

discard_loop-NoEmpty :
    (fuel : ℕ) (llb : Buffer) (n discarded : ℕ)
    → IsValid llb
    → NoEmpty llb.nodes
    → NoEmpty (discard_loop fuel llb n discarded).1.nodes
unfolding discard_loop
discard_loop-NoEmpty zero llb n discarded v s = s
discard_loop-NoEmpty (suc fuel) llb n discarded v s = elim (Bool-cases (n == 0)) [
  | inl z ↦ rw z s
  | inr more ↦ rw more (
      discard_popped-NoEmpty fuel n discarded (discard_loop-NoEmpty fuel) llb (pop llb) s
        (pop-Pops llb v))
]

pub discard-NoEmpty :
    (llb : Buffer) (k : ℤ) → IsValid llb → NoEmpty llb.nodes → NoEmpty (discard llb k).1.nodes
unfolding discard
discard-NoEmpty llb k v s = elim (Bool-cases (pos_part k == 0)) [
  | inl z ↦ rw z s
  | inr more ↦ rw more (discard_loop-NoEmpty (length llb.nodes) llb (pos_part k) 0 v s)
]
