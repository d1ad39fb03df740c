-- ===== src/Conn/Leftover.antt =====
-- The slices that a system call left over are the bytes behind those that it took.
use gtcp.Prelude.{
  ℕ, ◌-◌, ◌≤◌, ◌<◌, ◌≡◌, refl, sym, ◌∙◌, inl, inr, Option, some, List, [], ◌∷◌, arith, ltb, length,
  drop, Bool-cases,
}
use gtcp.Prelude.Slices.{flatten, byte_lengths, drop-append_le, drop-append_ge}
use gtcp.Conn.{leftover}

pub record Left (bs : List (List ℕ)) (sent : ℕ) (out : Option (List (List ℕ))) : Type 0 where
  pub rest : List (List ℕ)
  pub found : out ≡ some rest
  pub unsent : flatten rest ≡ drop sent (flatten bs)

pub leftover_lem :
    (bs : List (List ℕ)) (sent : ℕ) → sent < length (flatten bs) → Left bs sent (leftover bs sent)
unfolding leftover
leftover_lem [] sent h = absurd (omega arith)
leftover_lem (b ∷ bs) sent h = elim (Bool-cases (ltb sent (length b))) [
  | inl here ↦ rw here (record {
    rest = drop sent b ∷ bs;
    found = refl;
    unsent = sym (drop-append_le sent b (flatten bs) (ground arith));
  })
  | inr behind ↦
      let long : length b ≤ sent = ground arith in
      let l = leftover_lem bs (sent - length b) (omega byte_lengths) in
      rw behind (record {
        rest = l.rest;
        found = l.found;
        unsent = l.unsent ∙ sym (drop-append_ge sent b (flatten bs) long);
      })
]
