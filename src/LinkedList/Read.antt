-- ===== src/LinkedList/Read.antt =====
-- `Read` of pkg/buffer/linkedlist copies the front of the list out, across nodes, and takes it off.
use native.Mathlib.Decide.{dec_lt}
use gtcp.Prelude.{
  ℕ, zero, suc, ◌+◌, ◌-◌, ◌≤◌, ◌<◌, min, ◌≡◌, sym, ap, ◌∙◌, inl, inr, true, false, Option, none,
  some, List, [], ◌∷◌, ◌++◌, arith, ltb, ◌==◌, if◌then◌else◌, length, take, drop, length-append,
  take-append-drop, Bool-cases,
}
use gtcp.Prelude.Slices.{
  flatten, copy_at, drop-append_ge, drop-append_le, drop-zero, drop-nil, length_nil, copy_at_full,
  copy_at-copy_at, take-nil, length-copy_at,
}
use gtcp.LinkedList.{Buffer, pop, push_front, read_loop, read}
use gtcp.LinkedList.Queue.{
  contents, IsValid, Pops, nil, took, pop-Pops, push_front-IsValid, contents-push_front,
}

-- What reading into `p` does, `n` bytes of which are filled.
pub record Reads (llb : Buffer) (p : List ℕ) (n : ℕ) (out : ℕ × List ℕ × Buffer) : Type 0 where
  pub count : out.0 ≡ n + min (length p - n) (length (contents llb))
  pub filled : out.1 ≡ copy_at p n (contents llb)
  pub rest : contents out.2 ≡ drop (length p - n) (contents llb)
  pub valid : IsValid out.2

copy_at_nothing : (p : List ℕ) (n : ℕ) → copy_at p n [] ≡ p
copy_at_nothing p n =
    ap (λ (x : List ℕ). take n p ++ (x ++ drop n p)) (take-nil (length (drop n p)))
    ∙ take-append-drop n p

read_nil :
    (llb : Buffer) (p : List ℕ) (n : ℕ) → llb.nodes ≡ [] → IsValid llb → Reads llb p n (n, p, llb)
read_nil llb p n e v =
    let all : contents llb ≡ [] = ap flatten e in
    record {
      count = omega (arith, ap length all);
      filled = sym (copy_at_nothing p n) ∙ ap (copy_at p n) (sym all);
      rest = all ∙ sym (drop-nil (length p - n)) ∙ ap (drop (length p - n)) (sym all);
      valid = v;
    }

module _ (llb rest : Buffer) (b p : List ℕ) (n : ℕ) (e : llb.nodes ≡ b ∷ rest.nodes)
    (v : IsValid rest) (open_end : n < length p) where
  all : contents llb ≡ b ++ contents rest
  all = ap flatten e

  -- The node is longer than the room that is left.
  read_part :
      length p - n < length b
      → let m = length p - n in Reads llb p n (n + m, copy_at p n b, push_front (drop m b) rest)
  read_part h = record {
    count = omega (arith, ap length all, length-append b (contents rest));
    filled =
        sym (ap (copy_at p n) all ∙ copy_at_full p n (omega arith) b (contents rest) (omega arith));
    rest =
        contents-push_front (drop (length p - n) b) rest
        ∙ sym (drop-append_le (length p - n) b (contents rest) (omega arith))
        ∙ ap (drop (length p - n)) (sym all);
    valid = push_front-IsValid (drop (length p - n) b) rest v;
  }

  -- The node fits, and fills the slice.
  read_exact : n + length b ≡ length p → Reads llb p n (n + length b, copy_at p n b, rest)
  read_exact h = record {
    count = omega (arith, ap length all, length-append b (contents rest));
    filled =
        sym (ap (copy_at p n) all ∙ copy_at_full p n (omega arith) b (contents rest) (omega arith));
    rest =
        sym (drop-zero (length p - n - length b) (contents rest) (omega arith))
        ∙ sym (drop-append_ge (length p - n) b (contents rest) (omega arith))
        ∙ ap (drop (length p - n)) (sym all);
    valid = v;
  }

  -- The node fits, and the loop goes on behind it.
  read_whole :
      {out : ℕ × List ℕ × Buffer}
      → n + length b < length p
      → Reads rest (copy_at p n b) (n + length b) out
      → Reads llb p n out
  read_whole h r =
      let same = length-copy_at p n b (omega arith) in
      record {
        count = omega (arith, r.count, ap length all, length-append b (contents rest), same);
        filled =
            r.filled
            ∙ copy_at-copy_at p n (omega arith) b (contents rest) (omega arith)
            ∙ ap (copy_at p n) (sym all);
        rest =
            r.rest
            ∙ ap (λ k. drop k (contents rest)) (omega (arith, same))
            ∙ sym (drop-append_ge (length p - n) b (contents rest) (omega arith))
            ∙ ap (drop (length p - n)) (sym all);
        valid = r.valid;
      }

-- The list behind a node of which `m` bytes were copied.
abbrev behind : List ℕ → Buffer → ℕ → Buffer
behind b rest m = if ltb m (length b) then push_front (drop m b) rest else rest

module _ (fuel : ℕ) (llb : Buffer) (p : List ℕ) (n : ℕ)
    (loop : (rest : Buffer) (q : List ℕ) (k : ℕ)
      → IsValid rest
      → length rest.nodes ≤ fuel
      → k < length q
      → Reads rest q k (read_loop fuel rest q k))
    (v : IsValid llb) (h : length llb.nodes ≤ suc fuel) (open_end : n < length p) where
  abbrev after : List ℕ → Buffer → ℕ → ℕ × List ℕ × Buffer
  after b rest m =
      if n + m == length p
      then (n + m, copy_at p n b, behind b rest m)
      else read_loop fuel (behind b rest m) (copy_at p n b) (n + m)

  read_took :
      (b : List ℕ) (rest : Buffer)
      → llb.nodes ≡ b ∷ rest.nodes
      → IsValid rest
      → Reads llb p n (after b rest (min (length p - n) (length b)))
  read_took b rest e w = elim (dec_lt (length p - n) (length b)) [
    | yes part ↦
        let m : min (length p - n) (length b) ≡ length p - n = omega arith in
        let short : ltb (length p - n) (length b) ≡ true = ground arith in
        let full : n + (length p - n) == length p ≡ true = ground arith in
        rw (m, short, full) (read_part llb rest b p n e w open_end part)
    | no fits ↦
        let m : min (length p - n) (length b) ≡ length b = omega arith in
        let whole : ltb (length b) (length b) ≡ false = ground arith in
        rw (m, whole)
          (elim (Bool-cases (n + length b == length p)) [
            | inl full ↦ rw full (read_exact llb rest b p n e w open_end (ground arith))
            | inr more ↦
                let room : n + length b < length p = ground arith in
                rw more (
                  read_whole llb rest b p n e w open_end room (
                    loop rest (copy_at p n b) (n + length b) w (omega (arith, ap length e))
                      (omega (arith, length-copy_at p n b))))
          ])
  ]

  read_popped :
      (popped : Option (List ℕ × Buffer))
      → Pops llb popped
      → Reads llb p n (elim popped [
        | none ↦ (n, p, llb)
        | some (b, rest) ↦ after b rest (min (length p - n) (length b))
      ])
  read_popped _ (nil e) = read_nil llb p n e v
  read_popped _ (took b rest e w) = read_took b rest e w

read_loop-Reads :
    (fuel : ℕ) (llb : Buffer) (p : List ℕ) (n : ℕ)
    → IsValid llb
    → length llb.nodes ≤ fuel
    → n < length p
    → Reads llb p n (read_loop fuel llb p n)
unfolding read_loop
read_loop-Reads zero llb p n v h l = read_nil llb p n (length_nil llb.nodes (omega arith)) v
read_loop-Reads (suc fuel) llb p n v h l =
    read_popped fuel llb p n (read_loop-Reads fuel) v h l (pop llb) (pop-Pops llb v)

-- On a valid linked buffer `Read(p)` returns min(len p, Buffered); p then starts with the front
-- of the contents, across nodes, and is unchanged behind it, the list keeps the rest of the
-- contents, and its counters of nodes and bytes are right.
pub list_read_lem : (llb : Buffer) (p : List ℕ) → IsValid llb → Reads llb p 0 (read llb p)
unfolding read
list_read_lem llb p v = elim (Bool-cases (length p == 0)) [
  | inl z ↦ rw z (record {
    count = ground arith;
    filled = nothing (length_nil p (ground arith));
    rest = sym (drop-zero (length p - 0) (contents llb) (ground arith));
    valid = v;
  })
  | inr more ↦ rw more (read_loop-Reads (length llb.nodes) llb p 0 v (omega arith) (ground arith))
]
  where
    nothing : p ≡ [] → p ≡ copy_at p 0 (contents llb)
    nothing e = rw (e, drop-nil (length (contents llb)))
