-- ===== src/Ring/ReadFrom/FromStart.antt =====
-- `ReadFrom` on a ring that reads from its start, as a new one or one that was reset does: the free
-- bytes are all behind `w`, and however short the reads are, their bytes go behind the contents.
use gtcp.Prelude.{
  ℕ, zero, suc, ◌+◌, ◌-◌, ◌^◌, ◌≤◌, ◌<◌, ◌≡◌, refl, sym, ap, ◌∙◌, inl, inr, ◌⊎◌, true, false, none,
  some, List, ◌++◌, arith, length, append-nil, leb,
}
use mathlib.Core.Path.{subst}
use gtcp.Prelude.Slices.{byte_lengths, length_nil}
use gtcp.Alloc.{Alloc}
use gtcp.Io.{Reader}
use gtcp.Ring.{Buffer, buffered, available}
use gtcp.Ring.View.{contents, IsValid, length-contents}
use gtcp.Ring.Store.{Stores}
use gtcp.Ring.Growth.{min_read}
use gtcp.Ring.ReadFrom.{placed, read_from, fill_twice, room_to_read, Outcome}
use gtcp.Ring.ReadFrom.Placed.{placed-nothing, placed-Stores}
use gtcp.Ring.ReadFrom.Laws.{
  Room, room_to_read-Room, same_nonempty, Ends, ReadsAll, same-ReadsAll, after_read-ReadsAll,
}

module _ (reader : Reader) where
  open reader use {Source, read, bytes_fit}

  -- The first call finds room for its bytes, and leaves no empty ring behind.
  abbrev Gives : Buffer → Source → Type 0
  Gives rb src = (rb.is_empty ≡ false) ⊎ ((k : ℕ) → 0 < k → 0 < length (read src k).0)

  module _ (rb : Buffer) (v : IsValid rb) (start : rb.r ≡ 0) (roomy : min_read ≤ available rb) where
    space : (0 < length rb.buf - rb.w) × (length rb.buf - rb.w ≤ available rb)
    unfolding available
    space = ground arith

    module _ (src : Source) (gives : Gives rb src) where
      abbrev p : List ℕ
      p = (read src (length rb.buf - rb.w)).0

      abbrev src' : Source
      src' = (read src (length rb.buf - rb.w)).2

      abbrev rb' : Buffer
      rb' = placed rb rb.w p

      abbrev q : List ℕ
      q = (read src' rb.r).0

      first-Stores : Stores rb p rb'
      first-Stores =
          placed-Stores rb v p (elim gives [ inl h ↦ inl h | inr h ↦ inr (h _ space.0) ])
            (omega arith) (bytes_fit src _)
            (omega (arith, bytes_fit src (length rb.buf - rb.w), space.1))

      -- There is nothing in front of `r`.
      second-nothing : placed rb' 0 q ≡ rb'
      second-nothing =
          ap (placed rb' 0) (length_nil q (omega (arith, bytes_fit src' rb.r)))
          ∙ placed-nothing rb' first-Stores.valid refl 0 (omega arith)

      second_appended : contents (placed rb' 0 q) ≡ contents rb' ++ q
      second_appended =
          ap contents second-nothing
          ∙ sym (append-nil (contents rb'))
          ∙ ap (λ (x : List ℕ). contents rb' ++ x)
              (sym (length_nil q (omega (arith, bytes_fit src' rb.r))))

      second-IsValid : IsValid (placed rb' 0 q)
      second-IsValid = subst IsValid (sym second-nothing) first-Stores.valid

      fill_twice-ReadsAll :
          (again : Buffer → ℕ → Source → Outcome reader) (n : ℕ)
          → ((read src (length rb.buf - rb.w)).1 ≡ none
              → (read src' rb.r).1 ≡ none
              → ReadsAll reader
                  (placed rb' 0 q)
                  (n + length p + length q)
                  (read src' rb.r).2
                  (again (placed rb' 0 q) (n + length p + length q) (read src' rb.r).2))
          → ReadsAll reader rb n src (fill_twice reader again rb n src)
      unfolding fill_twice
      fill_twice-ReadsAll again n ih =
          after_read-ReadsAll reader n _ src _ _ refl first-Stores.appended first-Stores.valid (λ e.
            after_read-ReadsAll reader (n + length p) rb.r src' _ _ refl second_appended
              second-IsValid (λ f. ih e f))

  module _ (alloc : Alloc) where
    pub enter :
        (f : ℕ) (rb g : Buffer) (n : ℕ) (src : Source)
        → room_to_read alloc rb ≡ some g
        → g.r ≡ 0
        → read_from alloc reader (suc f) rb n src
          ≡ fill_twice reader (read_from alloc reader f) g n src
    unfolding read_from
    enter f rb g n src e start =
        let first : leb g.r g.w ≡ true = ground arith in rw (e, first, read_from)

    -- A ring that is ready, and the fuel for the calls after the next two.
    record Ready (f b : ℕ) (rb : Buffer) (src : Source) : Type 0 where
      valid : IsValid rb
      start : rb.r ≡ 0
      small : rb.size ≤ 2 ^ 61
      few : buffered rb + b ≤ 2 ^ 59
      ends : Ends reader f b src
      gives : Gives rb src

    module _ {f b : ℕ} {rb : Buffer} {src : Source} (h : Ready (suc f) b rb src) where
      made : Room rb (room_to_read alloc rb)
      made = room_to_read-Room alloc rb h.valid h.small

      abbrev g : Buffer
      g = made.result

      g_start : g.r ≡ 0
      g_start = made.from_start h.start

      g-Gives : Gives g src
      g-Gives = elim h.gives [
        | inl e ↦ inl (same_nonempty rb g h.valid made.valid made.same e)
        | inr k ↦ inr k
      ]

      abbrev offered : ℕ
      offered = length g.buf - g.w

      abbrev then_g : Buffer
      then_g =
          placed (rb' g made.valid g_start made.roomy src g-Gives) 0
            (q g made.valid g_start made.roomy src g-Gives)

      held :
          buffered then_g
          ≡ buffered rb + length (read src offered).0 + length (read (read src offered).2 g.r).0
      held = omega (
        byte_lengths,
        length-contents then_g (second-IsValid g made.valid g_start made.roomy src g-Gives),
        length-contents rb h.valid,
        ap length (second_appended g made.valid g_start made.roomy src g-Gives),
        ap length (first-Stores g made.valid g_start made.roomy src g-Gives).appended,
        ap length made.same,
      )

      room : 0 < offered
      room = (space g made.valid g_start made.roomy).0

      next-Ready :
          (read src offered).1 ≡ none
          → (read (read src offered).2 g.r).1 ≡ none
          → Ready f (b - length (read src offered).0) then_g (read (read src offered).2 g.r).2
      next-Ready e e' = record {
        valid = second-IsValid g made.valid g_start made.roomy src g-Gives;
        start = g_start;
        small = omega (arith, made.bounded, h.small, h.few);
        few = omega (
          arith,
          held,
          h.few,
          (h.ends offered room).0,
          bytes_fit (read src offered).2 g.r,
          g_start,
        );
        ends =
            subst
              (λ k.
                (read (read src offered).2 k).1 ≡ none
                → Ends reader f (b - length (read src offered).0) (read (read src offered).2 k).2)
              (sym g_start) ((h.ends offered room).1 e) e';
        gives = inl refl;
      }

    loop-ReadsAll :
        (f b : ℕ) (rb : Buffer) (n : ℕ) (src : Source)
        → Ready f b rb src
        → ReadsAll reader rb n src (read_from alloc reader f rb n src)
    loop-ReadsAll zero b rb n src h = absurd h.ends
    loop-ReadsAll (suc f) b rb n src h =
        subst (ReadsAll reader rb n src)
          (sym (enter f rb (g h) n src (made h).returned (g_start h)))
          (same-ReadsAll reader (made h).same (
            fill_twice-ReadsAll (g h) (made h).valid (g_start h) (made h).roomy src (g-Gives h)
              (read_from alloc reader f) n (λ e e'. loop-ReadsAll f _ _ _ _ (next-Ready h e e'))))

    -- For a valid ring that reads from its start and has a size of at most 2 ^ 61, and a reader
    -- that ends within f rounds of a call with room and one without, whose bytes and those held
    -- are at most 2 ^ 59: if the ring is not empty, or the reader's first call gives a byte,
    -- `ReadFrom` returns within f rounds, however short the reads are; all bytes that the
    -- reader gave are behind the contents, the count is theirs, and the error is that of the
    -- last call, unless it is io.EOF.
    pub ring_read_from_lem :
        (f b : ℕ) (rb : Buffer) (src : Source)
        → IsValid rb
        → rb.r ≡ 0
        → rb.size ≤ 2 ^ 61
        → buffered rb + b ≤ 2 ^ 59
        → Ends reader f b src
        → (rb.is_empty ≡ false) ⊎ ((k : ℕ) → 0 < k → 0 < length (read src k).0)
        → ReadsAll reader rb 0 src (read_from alloc reader f rb 0 src)
    ring_read_from_lem f b rb src v start small few ends gives =
        loop-ReadsAll f b rb 0 src (record {
          valid = v;
          start = start;
          small = small;
          few = few;
          ends = ends;
          gives = gives;
        })
