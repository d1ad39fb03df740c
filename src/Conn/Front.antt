-- ===== src/Conn/Front.antt =====
-- The slices offered to a system call are a front part of the bytes that wait, so what the kernel takes
-- of them is what leaves the buffer.
use gtcp.Prelude.{
  ℕ, ◌≤◌, ◌≡◌, refl, sym, ap, ◌∙◌, List, ◌++◌, length, take, drop, append_assoc, take-append-drop,
}
use gtcp.Prelude.Int.{ℤ}
use gtcp.Prelude.Slices.{flatten, byte_lengths, take-take, flatten-append}
use gtcp.Prelude.Splits.{take-append_self}
use gtcp.Elastic
use gtcp.Elastic.Contents as Outbound
use gtcp.Elastic.Look.{elastic_peek_lem}

abbrev pub IsFront : List ℕ → List ℕ → Type 0
IsFront xs ys = xs ≡ take (length xs) ys

pub append-IsFront : (xs ys : List ℕ) → IsFront xs (xs ++ ys)
append-IsFront xs ys = sym (take-append_self (length xs) xs ys refl)

pub IsFront-trans : (xs ys zs : List ℕ) → IsFront xs ys → IsFront ys zs → IsFront xs zs
IsFront-trans xs ys zs f g =
    let short : length xs ≤ length ys = omega (byte_lengths, ap length f) in
    f ∙ ap (take (length xs)) g ∙ take-take (length xs) (length ys) zs short

pub flatten-take-IsFront : (m : ℕ) (bs : List (List ℕ)) → IsFront (flatten (take m bs)) (flatten bs)
flatten-take-IsFront m bs =
    append-IsFront (flatten (take m bs)) (flatten (drop m bs))
    ∙ ap (take (length (flatten (take m bs))))
        (sym (flatten-append (take m bs) (drop m bs)) ∙ ap flatten (take-append-drop m bs))

-- The slices that `Peek` shows, or the first so many of them.
pub peeked-IsFront :
    (mb : Elastic.Buffer) (k : ℤ)
    → Outbound.IsValid mb
    → IsFront (flatten (Elastic.peek mb k)) (Outbound.contents mb)
peeked-IsFront mb k v = (elastic_peek_lem mb k v).front

pub slices-IsFront :
    (mb : Elastic.Buffer) (k : ℤ) (m : ℕ)
    → Outbound.IsValid mb
    → IsFront (flatten (take m (Elastic.peek mb k))) (Outbound.contents mb)
slices-IsFront mb k m v =
    IsFront-trans (flatten (take m (Elastic.peek mb k))) (flatten (Elastic.peek mb k))
      (Outbound.contents mb) (flatten-take-IsFront m (Elastic.peek mb k)) (peeked-IsFront mb k v)

-- A call that took the first `k` bytes of `offered`.
module _ (bytes offered : List ℕ) (front : IsFront offered bytes) (k : ℕ)
    (fits : k ≤ length offered) where
  pub taken_front : take k offered ≡ take k bytes
  taken_front = ap (take k) front ∙ take-take k (length offered) bytes fits

  pub moved :
      (before after : List ℕ)
      → after ≡ before ++ take k offered
      → after ++ drop k bytes ≡ before ++ bytes
  moved before after h =
      ap (λ (x : List ℕ). x ++ drop k bytes) (h ∙ ap (λ (x : List ℕ). before ++ x) taken_front)
      ∙ append_assoc before (take k bytes) (drop k bytes)
      ∙ ap (λ (x : List ℕ). before ++ x) (take-append-drop k bytes)
