-- ===== src/LinkedList.antt =====
-- pkg/buffer/linkedlist/linked_list_buffer.go: a queue of byte slices. The chain of nodes from `head`
-- is the list of their slices, and `tail` is its last node; nodes are not shared. The counters
-- `size` and `bytes` are kept beside it, as in the source. The field `bs` is scratch space for the
-- slices that `Peek` returns.
pub mod Queue
pub mod Discard
pub mod Read
pub mod Look
pub mod NoEmpty
pub mod WriteTo
pub mod ReadFrom
mod Tests
use gtcp.Prelude.{
  ℕ, zero, suc, ◌+◌, ◌-◌, ◌^◌, Bool, true, false, Option, none, some, List, [], ◌∷◌, ◌++◌, ltb, leb,
  ◌==◌, if◌then◌else◌, min, length, take, drop,
}
use gtcp.Prelude.Int.{ℤ, pos_part}
use gtcp.Prelude.Slices.{copy, copy_at}
use gtcp.Alloc.{Alloc}

pub record Buffer : Type 0 where
  pub nodes : List (List ℕ)
  pub size : ℕ
  pub bytes : ℕ

abbrev pub empty : Buffer
empty = record { nodes = []; size = 0; bytes = 0 }

-- The head node, taken off; `none` is nil.
unfoldable pub pop : Buffer → Option (List ℕ × Buffer)
pop llb = elim llb.nodes [
  | [] ↦ none
  | b ∷ rest ↦ some (b, record { nodes = rest; size = llb.size - 1; bytes = llb.bytes - length b })
]

unfoldable pub push_front : List ℕ → Buffer → Buffer
push_front b llb = record {
  nodes = b ∷ llb.nodes;
  size = llb.size + 1;
  bytes = llb.bytes + length b;
}

unfoldable pub push_back : List ℕ → Buffer → Buffer
push_back b llb = record {
  nodes = llb.nodes ++ b ∷ [];
  size = llb.size + 1;
  bytes = llb.bytes + length b;
}

unfoldable pub len : Buffer → ℕ
len llb = llb.size

unfoldable pub buffered : Buffer → ℕ
buffered llb = llb.bytes

unfoldable pub is_empty : Buffer → Bool
is_empty llb = elim llb.nodes [ [] ↦ true | _ ↦ false ]

module _ (alloc : Alloc) where
  -- `PushFront` and `PushBack`: a copy of `p`, unless it is empty.
  unfoldable pub push_front_copy : List ℕ → Buffer → Buffer
  push_front_copy p llb =
      let n = length p in if n == 0 then llb else push_front (copy (alloc.get n) p) llb

  unfoldable pub push_back_copy : List ℕ → Buffer → Buffer
  push_back_copy p llb =
      let n = length p in if n == 0 then llb else push_back (copy (alloc.get n) p) llb

-- The loop of `Read`, with `n` bytes of `p` filled so far. The fuel is the number of nodes, so that
-- it ends when the list does.
unfoldable pub read_loop : ℕ → Buffer → List ℕ → ℕ → ℕ × List ℕ × Buffer
read_loop zero llb p n = (n, p, llb)
read_loop (suc fuel) llb p n = elim (pop llb) [
  | none ↦ (n, p, llb)
  | some (b, rest) ↦
      let m = min (length p - n) (length b) in
      let p' = copy_at p n b in
      let rest' = if ltb m (length b) then push_front (drop m b) rest else rest in
      if n + m == length p then (n + m, p', rest') else read_loop fuel rest' p' (n + m)
]

-- The count, the new contents of `p` and the new list. The error is nil on every path.
unfoldable pub read : Buffer → List ℕ → ℕ × List ℕ × Buffer
read llb p = if length p == 0 then (0, p, llb) else read_loop (length llb.nodes) llb p 0

-- The loop of `Discard`, with `n` bytes to go and `discarded` gone.
unfoldable pub discard_loop : ℕ → Buffer → ℕ → ℕ → ℕ × Buffer
discard_loop zero llb n discarded = (discarded, llb)
discard_loop (suc fuel) llb n discarded = if n == 0 then (discarded, llb) else elim (pop llb) [
  | none ↦ (discarded, llb)
  | some (b, rest) ↦
      if ltb n (length b)
      then (discarded + n, push_front (drop n b) rest)
      else discard_loop fuel rest (n - length b) (discarded + length b)
]

unfoldable pub discard : Buffer → ℤ → ℕ × Buffer
discard llb k =
    let n = pos_part k in if n == 0 then (0, llb) else discard_loop (length llb.nodes) llb n 0

-- `math.MaxInt32`
abbrev pub max_int32 : ℕ
max_int32 = 2 ^ 31 - 1

abbrev pub limit_of : ℤ → ℕ
limit_of k = if pos_part k == 0 then max_int32 else pos_part k

-- The loop over the nodes: slices are collected until `cum` reaches the limit.
unfoldable pub peek_nodes : List (List ℕ) → ℕ → ℕ → List (List ℕ)
peek_nodes [] limit cum = []
peek_nodes (b ∷ rest) limit cum =
    let more = peek_nodes rest limit (cum + length b) in
    b ∷ (if leb limit (cum + length b) then [] else more)

unfoldable pub peek : Buffer → ℤ → List (List ℕ)
peek llb k = peek_nodes llb.nodes (limit_of k) 0

-- `PeekWithBytes`: the slices `bs` that are not empty come first.
unfoldable pub peek_with : List (List ℕ) → List (List ℕ) → ℕ → ℕ → List (List ℕ)
peek_with [] nodes limit cum = peek_nodes nodes limit cum
peek_with (b ∷ bs) nodes limit cum =
    let skip = peek_with bs nodes limit cum in
    let more = peek_with bs nodes limit (cum + length b) in
    if ltb 0 (length b) then b ∷ (if leb limit (cum + length b) then [] else more) else skip

unfoldable pub peek_with_bytes : Buffer → ℤ → List (List ℕ) → List (List ℕ)
peek_with_bytes llb k bs = peek_with bs llb.nodes (limit_of k) 0

-- Every node is popped, then the fields are cleared.
unfoldable pub reset : Buffer → Buffer
reset llb = empty
