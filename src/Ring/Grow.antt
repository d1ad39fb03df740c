-- ===== src/Ring/Grow.antt =====
-- `grow` of pkg/buffer/ring/ring_buffer.go moves the contents to a new slice.
use gtcp.Prelude.{
  ℕ, ◌<◌, ◌≡◌, refl, sym, ap, ap₂, ◌∙◌, inl, inr, true, Option, some, List, ◌++◌, arith, length,
  drop, Bool-cases,
}
use gtcp.Prelude.Slices.{byte_lengths, copy_fits, take_all, take-append_le, drop_all}
use gtcp.Errors.{Error}
use gtcp.Alloc.{Alloc}
use gtcp.Ring.{Buffer, buffered, regrown, read, grow}
use gtcp.Ring.Growth.{grow_capacity}
use gtcp.Ring.Window.{window, window_flat}
use gtcp.Ring.View.{contents, IsValid, length-contents, buffered_nonempty}
use gtcp.Ring.Read.{Reads, read_lem}

module _ (rb : Buffer) (v : IsValid rb) (nb : List ℕ) (cap : ℕ) (sized : length nb ≡ cap)
    (room : buffered rb < cap) where
  -- The buffer that `grow` leaves, around the new slice `nb`.
  abbrev moved : Buffer
  moved = regrown (read rb nb).3 (read rb nb).2 cap (buffered rb)

  drained : (read rb nb).3.is_empty ≡ true
  drained = elim (Bool-cases (read rb nb).3.is_empty) [
    | inl e ↦ e
    | inr e ↦ absurd (omega (arith, buffered_nonempty out.3 got.valid e, left))
  ]
    where
      out : ℕ × Option Error × List ℕ × Buffer
      out = read rb nb

      got : Reads rb nb out
      got = read_lem rb v nb

      left : buffered out.3 ≡ 0
      left =
          sym (length-contents out.3 got.valid)
          ∙ ap length
              (got.rest ∙ drop_all (length nb) (contents rb) (omega (arith, length-contents rb v)))

  new_bytes : (read rb nb).2 ≡ contents rb ++ drop (buffered rb) nb
  new_bytes =
      (read_lem rb v nb).filled
      ∙ copy_fits nb (contents rb) (omega (arith, length-contents rb v))
      ∙ ap (λ n. contents rb ++ drop n nb) (length-contents rb v)

  moved-buffered : buffered moved ≡ buffered rb
  unfolding buffered
  moved-buffered = ground (arith, drained)

  pub moved-IsValid : IsValid moved
  moved-IsValid = record { sized = length_new; positions = ground (arith, drained) }
    where
      length_new : length (read rb nb).2 ≡ cap
      length_new = ap length new_bytes ∙ omega (byte_lengths, length-contents rb v)

  pub contents-moved : contents moved ≡ contents rb
  contents-moved =
      ap₂ (λ b n. window b 0 n) new_bytes moved-buffered
      ∙ window_flat (contents rb ++ drop (buffered rb) nb) 0 (buffered rb)
          (omega (byte_lengths, length-contents rb v))
      ∙ take-append_le (buffered rb) (contents rb) (drop (buffered rb) nb)
          (omega (arith, length-contents rb v))
      ∙ take_all (buffered rb) (contents rb) (omega (arith, length-contents rb v))

-- What `grow` does to a valid buffer, when it does not panic.
pub record Grown (rb : Buffer) (cap : ℕ) (out : Option Buffer) : Type 0 where
  pub result : Buffer
  pub returned : out ≡ some result
  pub same : contents result ≡ contents rb
  pub valid : IsValid result
  pub sized : result.size ≡ cap
  pub from_start : result.r ≡ 0

module _ (alloc : Alloc) (rb : Buffer) (v : IsValid rb) where
  -- On a valid ring, where `grow` chooses a capacity of more bytes than are buffered, it does
  -- not panic and keeps the contents; the result is valid and its size is that capacity.
  pub grow_lem :
      (new_cap cap : ℕ)
      → grow_capacity rb.size new_cap ≡ some cap
      → buffered rb < cap
      → Grown rb cap (grow alloc rb new_cap)
  unfolding grow
  grow_lem new_cap cap e room =
      let nb = alloc.get cap in
      record {
        result = regrown (read rb nb).3 (read rb nb).2 cap (buffered rb);
        returned = rw (e, grow);
        same = contents-moved rb v nb cap (alloc.length-get cap) room;
        valid = moved-IsValid rb v nb cap (alloc.length-get cap) room;
        sized = refl;
        from_start = refl;
      }

  -- The buffer that `grow` returns, as the code builds it.
  pub grow_returns :
      (new_cap cap : ℕ)
      → grow_capacity rb.size new_cap ≡ some cap
      → let out = read rb (alloc.get cap) in
        grow alloc rb new_cap ≡ some (regrown out.3 out.2 cap (buffered rb))
  unfolding grow
  grow_returns new_cap cap e = rw (e, grow)

  pub buffered-Grown :
      {cap : ℕ} {out : Option Buffer} (r : Grown rb cap out) → buffered r.result ≡ buffered rb
  buffered-Grown r =
      sym (length-contents r.result r.valid) ∙ ap length r.same ∙ length-contents rb v
