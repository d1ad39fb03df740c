-- ===== src/Ring/ReadFrom/Faults.antt =====
-- Two ways in which `ReadFrom` spoils a ring: by reading in front of `r` after a read that did not
-- reach the end of the slice, and by reading nothing into an empty ring.
use native.Mathlib.Nat.{mod-eq_of_lt}
use gtcp.Prelude.{
  ℕ, suc, ◌+◌, ◌-◌, ◌%◌, ◌^◌, ◌≤◌, ◌<◌, ◌≡◌, refl, sym, ap, ap₂, ◌∙◌, inl, inr, true, false, none,
  some, List, [], ◌++◌, arith, length, leb, ltb, Bool-cases, take, drop,
}
use gtcp.Prelude.Slices.{
  byte_lengths, copy_at, copy_at_fits, drop-append_ge, drop-drop, take-add, length-copy_at,
}
use gtcp.Prelude.Splits.{drop-append_self}
use gtcp.Alloc.{Alloc}
use gtcp.Errors.{Error}
use gtcp.Io.{Reader, unless_eof}
use gtcp.Run.{returns}
use gtcp.Ring.{Buffer, buffered, available}
use gtcp.Ring.Window.{window, window_flat}
use gtcp.Ring.View.{contents, IsValid, buffered-add-available, r-ne-w}
use gtcp.Ring.Store.{Stores}
use gtcp.Ring.Growth.{min_read}
use gtcp.Ring.ReadFrom.{placed, read_from, fill_twice, room_to_read, Outcome}
use gtcp.Ring.ReadFrom.Placed.{placed-Stores}
use gtcp.Ring.ReadFrom.Laws.{room_to_read-Room, same_nonempty}
use gtcp.Ring.ReadFrom.FromStart.{enter}

module _ (buf q : List ℕ) (r : ℕ) (front : length q ≤ r) (fits : r ≤ length buf) where
  drop-front : drop r (copy_at buf 0 q) ≡ drop r buf
  drop-front =
      ap (drop r) (copy_at_fits buf 0 q (omega arith))
      ∙ drop-append_ge r q (drop (0 + length q) buf) front
      ∙ drop-drop (r - length q) (0 + length q) buf
      ∙ ap (λ k. drop k buf) same
    where
      same : 0 + length q + (r - length q) ≡ r
      same = omega arith

  window-front : (n : ℕ) → r + n ≤ length buf → window (copy_at buf 0 q) r n ≡ window buf r n
  window-front n le =
      window_flat (copy_at buf 0 q) r n (omega (arith, length-copy_at buf 0 q (omega arith)))
      ∙ ap (take n) drop-front
      ∙ sym (window_flat buf r n le)

module _ (buf p : List ℕ) (w : ℕ) (fits : w + length p ≤ length buf) where
  drop-stored : drop (w + length p) (copy_at buf w p) ≡ drop (w + length p) buf
  drop-stored =
      ap (drop (w + length p)) (copy_at_fits buf w p fits)
      ∙ drop-append_self (w + length p) (take w buf ++ p) (drop (w + length p) buf)
          (omega byte_lengths)

window_longer :
    (buf : List ℕ) (r w n : ℕ)
    → r ≤ w
    → w + n ≤ length buf
    → window buf r (w + n - r) ≡ window buf r (w - r) ++ take n (drop w buf)
window_longer buf r w n le fits =
    window_flat buf r (w + n - r) (omega arith)
    ∙ ap (λ k. take k (drop r buf)) split
    ∙ take-add (w - r) n (drop r buf)
    ∙ ap₂ ◌++◌ (sym (window_flat buf r (w - r) (omega arith)))
        (ap (take n) (drop-drop (w - r) r buf ∙ ap (λ k. drop k buf) back))
  where
    split : w + n - r ≡ w - r + n
    split = omega arith

    back : r + (w - r) ≡ w
    back = omega arith

buffered_behind : (rb : Buffer) → rb.r < rb.w → buffered rb ≡ rb.w - rb.r
unfolding buffered
buffered_behind rb lt = ground arith

module _ (rb : Buffer) (v : IsValid rb) (full : rb.is_empty ≡ false) (le : rb.r ≤ rb.w)
    (roomy : min_read ≤ available rb) (p q : List ℕ) (front : length q ≤ rb.r)
    (short : rb.w + length p + length q < rb.size) where
  abbrev one : Buffer
  one = placed rb rb.w p

  abbrev two : Buffer
  two = placed one 0 q

  apart : (rb.r < rb.w) × (length p ≤ available rb)
  unfolding available
  apart = ground (arith, r-ne-w rb v full, buffered-add-available rb v)

  one-Stores : Stores rb p one
  one-Stores = placed-Stores rb v p (inl full) le (omega (arith, v.sized)) apart.1

  one-w : one.w ≡ rb.w + length p
  one-w = mod-eq_of_lt {n = rb.w + length p} {m = rb.size} (omega arith)

  two-w : two.w ≡ rb.w + length p + length q
  two-w =
      ap (λ k. (k + length q) % rb.size) one-w
      ∙ mod-eq_of_lt {n = rb.w + length p + length q} {m = rb.size} short

  -- The bytes that are in the ring where those of the second read should be.
  abbrev pub stale : List ℕ
  stale = take (length q) (drop (rb.w + length p) rb.buf)

  stale-contents : contents two ≡ contents rb ++ p ++ stale
  stale-contents =
      ap (window two.buf rb.r)
        (buffered_behind two (omega (arith, two-w, apart.0)) ∙ ap (λ k. k - rb.r) two-w)
      ∙ window-front one.buf q rb.r front (omega (arith, v.sized, same))
          (rb.w + length p + length q - rb.r) (omega (arith, v.sized, same))
      ∙ window_longer one.buf rb.r (rb.w + length p) (length q) (omega arith)
          (omega (arith, v.sized, same))
      ∙ ap₂ ◌++◌
          (ap (λ k. window one.buf rb.r (k - rb.r)) (sym one-w)
            ∙ ap (window one.buf rb.r) (sym (buffered_behind one (omega (arith, one-w, apart.0))))
            ∙ one-Stores.appended)
          (ap (take (length q)) (drop-stored rb.buf p rb.w (omega (arith, v.sized))))
    where
      same : length one.buf ≡ length rb.buf
      same = length-copy_at rb.buf rb.w p (omega (arith, v.sized))

-- A round that ends at its second call.
second-ends :
    (reader : Reader) (again : Buffer → ℕ → reader.Source → Outcome reader) (rb : Buffer) (n : ℕ)
    (src : reader.Source) (e : Error)
    → let first = reader.read src (length rb.buf - rb.w) in
      let second = reader.read first.2 rb.r in
      first.1 ≡ none
      → second.1 ≡ some e
      → fill_twice reader again rb n src
        ≡ returns (
          n + length first.0 + length second.0,
          unless_eof e,
          placed (placed rb rb.w first.0) 0 second.0,
          second.2,
        )
unfolding fill_twice
second-ends reader again rb n src e none_yet ends = rw (none_yet, ends)

first-ends :
    (reader : Reader) (again : Buffer → ℕ → reader.Source → Outcome reader) (rb : Buffer) (n : ℕ)
    (src : reader.Source) (e : Error)
    → let first = reader.read src (length rb.buf - rb.w) in
      first.1 ≡ some e
      → fill_twice reader again rb n src
        ≡ returns (n + length first.0, unless_eof e, placed rb rb.w first.0, first.2)
unfolding fill_twice
first-ends reader again rb n src e ends = rw ends

buffered_meeting : (rb : Buffer) → rb.is_empty ≡ false → rb.r ≡ rb.w → buffered rb ≡ rb.size
unfolding buffered
buffered_meeting rb full e = ground arith

zero_mod : (n : ℕ) → 0 % n ≡ 0
zero_mod n = omega arith

-- Nothing stored into an empty ring leaves `w` at 0.
stays_at_0 :
    (rb g : Buffer) (p : List ℕ)
    → IsValid rb
    → IsValid g
    → contents g ≡ contents rb
    → rb.is_empty ≡ true
    → p ≡ []
    → (placed g g.w p).w ≡ 0
stays_at_0 rb g p v v' same empty no_bytes = elim (Bool-cases g.is_empty) [
  | inr h ↦
      let e : rb.is_empty ≡ false = same_nonempty g rb v' v (sym same) h in absurd (ground arith)
  | inl h ↦ ap (λ k. k % g.size) (at_0 h) ∙ zero_mod g.size
]
  where
    at_0 : g.is_empty ≡ true → g.w + length p ≡ 0
    at_0 h = ground (arith, ap length no_bytes)

module _ (alloc : Alloc) (reader : Reader) where
  open reader use {Source, read}

  enter_roomy :
      (f : ℕ) (rb : Buffer) (n : ℕ) (src : Source)
      → min_read ≤ available rb
      → rb.r ≤ rb.w
      → read_from alloc reader (suc f) rb n src
        ≡ fill_twice reader (read_from alloc reader f) rb n src
  unfolding read_from room_to_read
  enter_roomy f rb n src roomy le =
      let enough : ltb (available rb) min_read ≡ false = ground arith in
      let first : leb rb.r rb.w ≡ true = ground arith in rw (enough, first, read_from)

  -- What is in the ring does not depend on the bytes of the second read.
  pub record ReadsStale (rb : Buffer) (p q : List ℕ) (e : Error) (src : Source)
      (out : Outcome reader) : Type 0 where
    pub result : Buffer
    pub returned : out ≡ returns (length p + length q, unless_eof e, result, src)
    pub wrong :
        contents result ≡ contents rb ++ p ++ take (length q) (drop (rb.w + length p) rb.buf)

  -- On a valid ring that is not empty, with r not above w and 512 bytes free, when the first
  -- call of the reader gives p without an error and the second, into the bytes in front of r,
  -- gives q and an error, and both together stay below the end of the slice: `ReadFrom` counts
  -- q, but behind p the ring holds as many old bytes of the slice instead of q.
  pub read_from_stale :
      (f : ℕ) (rb : Buffer) (src : Source) (e : Error)
      → IsValid rb
      → rb.is_empty ≡ false
      → rb.r ≤ rb.w
      → min_read ≤ available rb
      → let first = read src (length rb.buf - rb.w) in
        let second = read first.2 rb.r in
        first.1 ≡ none
        → second.1 ≡ some e
        → rb.w + length first.0 + length second.0 < rb.size
        → ReadsStale rb first.0 second.0 e second.2 (read_from alloc reader (suc f) rb 0 src)
  read_from_stale f rb src e v full le roomy none_yet ends short =
      let first = read src (length rb.buf - rb.w) in
      let second = read first.2 rb.r in
      let count : 0 + length first.0 + length second.0 ≡ length first.0 + length second.0 =
        omega arith in
      record {
        result = placed (placed rb rb.w first.0) 0 second.0;
        returned =
            enter_roomy f rb 0 src roomy le
            ∙ second-ends reader (read_from alloc reader f) rb 0 src e none_yet ends
            ∙ ap
                (λ k.
                  returns (k, unless_eof e, placed (placed rb rb.w first.0) 0 second.0, second.2))
                count;
        wrong =
            stale-contents rb v full le roomy first.0 second.0 (reader.bytes_fit first.2 rb.r)
              short;
      }

  pub record ReadsNothing (rb : Buffer) (e : Error) (out : Outcome reader) : Type 0 where
    pub result : Buffer
    pub source : Source
    pub returned : out ≡ returns (0, unless_eof e, result, source)
    pub full : buffered result ≡ result.size
    pub some_room : min_read ≤ result.size

  -- On a valid empty ring with a size of at most 2 ^ 61 and a reader whose calls give no bytes
  -- and the same error, `ReadFrom` returns the count 0 and leaves a ring that says it is full,
  -- of at least 512 bytes.
  pub read_from_nothing :
      (f : ℕ) (rb : Buffer) (src : Source) (e : Error)
      → IsValid rb
      → rb.is_empty ≡ true
      → rb.size ≤ 2 ^ 61
      → ((k : ℕ) → (read src k).0 ≡ [])
      → ((k : ℕ) → (read src k).1 ≡ some e)
      → ReadsNothing rb e (read_from alloc reader (suc f) rb 0 src)
  read_from_nothing f rb src e v empty small no_bytes ends =
      let room = room_to_read-Room alloc rb v small in
      let g : Buffer = room.result in
      let start : g.r ≡ 0 = room.from_start (ground arith) in
      let call = read src (length g.buf - g.w) in
      let count : 0 + length call.0 ≡ 0 =
        omega (arith, ap length (no_bytes (length g.buf - g.w))) in
      record {
        result = placed g g.w (read src (length g.buf - g.w)).0;
        source = (read src (length g.buf - g.w)).2;
        returned =
            enter reader alloc f rb g 0 src room.returned start
            ∙ first-ends reader (read_from alloc reader f) g 0 src e (ends (length g.buf - g.w))
            ∙ ap (λ k. returns (k, unless_eof e, placed g g.w call.0, call.2)) count;
        full =
            buffered_meeting (placed g g.w call.0) refl
              (start ∙ sym (stays_at_0 rb g call.0 v room.valid room.same empty (no_bytes _)));
        some_room = omega (arith, room.roomy, buffered-add-available g room.valid);
      }
