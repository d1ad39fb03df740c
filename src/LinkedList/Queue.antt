-- ===== src/LinkedList/Queue.antt =====
-- What the linked buffer holds, its invariant, and the operations at its two ends.
use gtcp.Prelude.{
  ℕ, ◌-◌, ◌≡◌, refl, sym, ap, ◌∙◌, inl, inr, Option, none, some, List, [], ◌∷◌, ◌++◌, arith, length,
  length-append, append-nil, ◌==◌, Bool-cases,
}
use gtcp.Prelude.Slices.{flatten, flatten-append, copy, copy_fits, drop_all, length_nil}
use gtcp.Alloc.{Alloc}
use gtcp.LinkedList.{Buffer, pop, push_front, push_back, push_front_copy, push_back_copy}

-- The bytes, oldest first.
abbrev pub contents : Buffer → List ℕ
contents llb = flatten llb.nodes

-- The counters tell the number of nodes and of bytes.
pub record IsValid (llb : Buffer) : Type 0 where
  pub size_counts : llb.size ≡ length llb.nodes
  pub bytes_counts : llb.bytes ≡ length (contents llb)

-- What `pop` does: nothing on an empty list, and otherwise it takes the first node off.
pub data Pops (llb : Buffer) : Option (List ℕ × Buffer) → Type 0 where
  nil : llb.nodes ≡ [] → Pops llb none
  took :
      (b : List ℕ) (rest : Buffer)
      → llb.nodes ≡ b ∷ rest.nodes
      → IsValid rest
      → Pops llb (some (b, rest))

abbrev behind_head : List ℕ → List (List ℕ) → Buffer → Buffer
behind_head b rest llb = record { nodes = rest; size = llb.size - 1; bytes = llb.bytes - length b }

pop_nil : (llb : Buffer) → llb.nodes ≡ [] → pop llb ≡ none
unfolding pop
pop_nil llb e = rw (e, pop)

pop_cons :
    (llb : Buffer) (b : List ℕ) (rest : List (List ℕ))
    → llb.nodes ≡ b ∷ rest
    → pop llb ≡ some (b, behind_head b rest llb)
unfolding pop
pop_cons llb b rest e = rw (e, pop)

pop_cases :
    (llb : Buffer) (nodes : List (List ℕ)) → IsValid llb → llb.nodes ≡ nodes → Pops llb (pop llb)
pop_cases llb [] v e = rw (pop_nil llb e) (nil e)
pop_cases llb (b ∷ rest) v e = rw (pop_cons llb b rest e) (
    took b (behind_head b rest llb) e (record {
      size_counts = omega (arith, v.size_counts, ap length e);
      bytes_counts =
          omega (
            arith,
            v.bytes_counts,
            ap (λ xs. length (flatten xs)) e,
            length-append b (flatten rest),
          );
    }))

pub pop-Pops : (llb : Buffer) → IsValid llb → Pops llb (pop llb)
pop-Pops llb v = pop_cases llb llb.nodes v refl

pub push_front-IsValid : (b : List ℕ) (llb : Buffer) → IsValid llb → IsValid (push_front b llb)
unfolding push_front
push_front-IsValid b llb v = ground (arith, length-append b (contents llb))

pub contents-push_front :
    (b : List ℕ) (llb : Buffer) → contents (push_front b llb) ≡ b ++ contents llb
unfolding push_front
contents-push_front b llb = refl

pub nodes-push_front : (b : List ℕ) (llb : Buffer) → (push_front b llb).nodes ≡ b ∷ llb.nodes
unfolding push_front
nodes-push_front b llb = refl

pub contents-push_back :
    (b : List ℕ) (llb : Buffer) → contents (push_back b llb) ≡ contents llb ++ b
unfolding push_back
contents-push_back b llb =
    flatten-append llb.nodes (b ∷ []) ∙ ap (λ (x : List ℕ). contents llb ++ x) (append-nil b)

pub push_back-IsValid : (b : List ℕ) (llb : Buffer) → IsValid llb → IsValid (push_back b llb)
unfolding push_back
push_back-IsValid b llb v = record {
  size_counts = omega (arith, v.size_counts, length-append llb.nodes (b ∷ []));
  bytes_counts = omega (
    arith,
    v.bytes_counts,
    ap length (flatten-append llb.nodes (b ∷ [])),
    length-append (contents llb) (b ++ []),
    length-append b [],
  );
}

module _ (alloc : Alloc) (p : List ℕ) (llb : Buffer) (v : IsValid llb) where
  copied : copy (alloc.get (length p)) p ≡ p
  copied =
      copy_fits (alloc.get (length p)) p (omega (arith, alloc.length-get (length p)))
      ∙ ap (λ (x : List ℕ). p ++ x)
          (drop_all (length p) (alloc.get (length p)) (omega (arith, alloc.length-get (length p))))
      ∙ append-nil p

  -- On a valid linked buffer `PushBack(p)` puts the bytes of p behind the contents and the
  -- counters stay right.
  pub push_back_copy_lem :
      (contents (push_back_copy alloc p llb) ≡ contents llb ++ p)
      × IsValid (push_back_copy alloc p llb)
  unfolding push_back_copy
  push_back_copy_lem = elim (Bool-cases (length p == 0)) [
    | inl z ↦ rw (z, length_nil p (ground arith)) (sym (append-nil (contents llb)), v)
    | inr l ↦ rw (l, copied) (contents-push_back p llb, push_back-IsValid p llb v)
  ]

  -- On a valid linked buffer `PushFront(p)` puts the bytes of p before the contents and the
  -- counters stay right.
  pub push_front_copy_lem :
      (contents (push_front_copy alloc p llb) ≡ p ++ contents llb)
      × IsValid (push_front_copy alloc p llb)
  unfolding push_front_copy
  push_front_copy_lem = elim (Bool-cases (length p == 0)) [
    | inl z ↦ rw (z, length_nil p (ground arith)) (refl, v)
    | inr l ↦ rw (l, copied) (contents-push_front p llb, push_front-IsValid p llb v)
  ]
