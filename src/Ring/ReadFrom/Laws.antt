-- ===== src/Ring/ReadFrom/Laws.antt =====
-- `ReadFrom` on a ring that reads from its start, as a new one or one that was reset does: the free
-- bytes are all behind `w`, and however short the reads are, their bytes go behind the contents.
use gtcp.Prelude.{
  ℕ, zero, suc, ◌+◌, ◌-◌, ◌*◌, ◌^◌, ◌≤◌, ◌<◌, ◌≡◌, refl, ap, ◌∙◌, inl, inr, true, false, Option,
  none, some, List, ◌++◌, arith, length, append_assoc, ltb, Bool-cases, max,
}
use native.Mathlib.Decide.{dec_lt}
use gtcp.Prelude.Slices.{byte_lengths}
use gtcp.Alloc.{Alloc}
use gtcp.Errors.{Error}
use gtcp.Io.{Reader, unless_eof}
use gtcp.Run.{Run, returns}
use gtcp.Ring.{Buffer, buffered, available, grow}
use gtcp.Ring.GrowthBounds.{grow_capacity-Grows}
use gtcp.Ring.View.{
  contents, IsValid, buffered-add-available, length-contents, buffered_empty, buffered_nonempty,
}
use gtcp.Ring.Grow.{grow_lem, buffered-Grown}
use gtcp.Ring.Growth.{min_read}
use gtcp.Ring.ReadFrom.{room_to_read, after_read}

-- What making room leaves.
pub record Room (rb : Buffer) (out : Option Buffer) : Type 0 where
  pub result : Buffer
  pub returned : out ≡ some result
  pub same : contents result ≡ contents rb
  pub valid : IsValid result
  pub from_start : rb.r ≡ 0 → result.r ≡ 0
  pub roomy : min_read ≤ available result
  pub bounded : result.size ≤ max rb.size (2 * buffered rb + 1024)

room_to_read-grow :
    (alloc : Alloc) (rb g : Buffer)
    → available rb < min_read
    → grow alloc rb (buffered rb + min_read) ≡ some g
    → room_to_read alloc rb ≡ some g
unfolding room_to_read
room_to_read-grow alloc rb g h e =
    let short : ltb (available rb) min_read ≡ true = ground arith in rw (short, e, room_to_read)

pub room_to_read-Room :
    (alloc : Alloc) (rb : Buffer) → IsValid rb → rb.size ≤ 2 ^ 61 → Room rb (room_to_read alloc rb)
unfolding room_to_read
room_to_read-Room alloc rb v small = elim (dec_lt (available rb) min_read) [
  | no h ↦ record {
    result = rb;
    returned = ground arith;
    same = refl;
    valid = v;
    from_start = λ e. e;
    roomy = omega arith;
    bounded = omega arith;
  }
  | yes h ↦
      let sum = buffered-add-available rb v in
      let cap = grow_capacity-Grows rb.size (buffered rb + min_read) small (omega arith) in
      let g =
        grow_lem alloc rb v (buffered rb + min_read) cap.result cap.chosen
          (omega (arith, cap.enough)) in
      record {
        result = g.result;
        returned = room_to_read-grow alloc rb g.result h g.returned;
        same = g.same;
        valid = g.valid;
        from_start = λ _. g.from_start;
        roomy = omega (
          arith,
          cap.enough,
          g.sized,
          buffered-add-available g.result g.valid,
          buffered-Grown alloc rb v g,
        );
        bounded = omega (arith, cap.tight, g.sized);
      }
]

-- Rings with the same contents are empty together.
pub same_nonempty :
    (rb rb' : Buffer)
    → IsValid rb
    → IsValid rb'
    → contents rb' ≡ contents rb
    → rb.is_empty ≡ false
    → rb'.is_empty ≡ false
same_nonempty rb rb' v v' e full = elim (Bool-cases rb'.is_empty) [
  | inr h ↦ h
  | inl h ↦ absurd (
      omega (
        arith,
        ap length e,
        length-contents rb v,
        length-contents rb' v',
        buffered_nonempty rb v full,
        buffered_empty rb' v' h,
      ))
]

module _ (reader : Reader) where
  open reader use {Source, read, given, gives, bytes_fit}

  -- Within `k` rounds, of a call that offers room and then one that offers none, and after at most `b`
  -- bytes, the reader returns an error.
  abbrev pub Ends : ℕ → ℕ → Source → Type 0
  Ends zero b s = ⊥
  Ends (suc k) b s =
      (n : ℕ)
      → 0 < n
      → let (p, err, s') = read s n in
        (length p ≤ b) × (err ≡ none → (read s' 0).1 ≡ none → Ends k (b - length p) (read s' 0).2)

  -- The bytes of all calls go behind the contents, and the count is theirs. The error is that of the
  -- last call, unless it is io.EOF.
  pub record ReadsAll (rb : Buffer) (n : ℕ) (src : Source)
      (out : Run (ℕ × Option Error × Buffer × Source)) : Type 0 where
    pub result : Buffer
    pub before : Source
    pub room : ℕ
    pub err : Error
    pub bytes : List ℕ
    pub failed : (read before room).1 ≡ some err
    pub returned : out ≡ returns (n + length bytes, unless_eof err, result, (read before room).2)
    pub appended : contents result ≡ contents rb ++ bytes
    pub delivered : given (read before room).2 ≡ given src ++ bytes
    pub valid : IsValid result

  -- A call that gave `p`, and then the rest.
  prefixed :
      {rb rb' : Buffer} {n : ℕ} {src src' : Source} {out : Run (ℕ × Option Error × Buffer × Source)}
      (p : List ℕ)
      → contents rb' ≡ contents rb ++ p
      → given src' ≡ given src ++ p
      → ReadsAll rb' (n + length p) src' out
      → ReadsAll rb n src out
  prefixed {rb} {n = n} {src = src} p held gave a = record {
    result = a.result;
    before = a.before;
    room = a.room;
    err = a.err;
    bytes = p ++ a.bytes;
    failed = a.failed;
    returned =
        a.returned
        ∙ ap (λ k. returns (k, unless_eof a.err, a.result, (read a.before a.room).2))
            (omega byte_lengths);
    appended =
        a.appended ∙ ap (λ (x : List ℕ). x ++ a.bytes) held ∙ append_assoc (contents rb) p a.bytes;
    delivered =
        a.delivered ∙ ap (λ (x : List ℕ). x ++ a.bytes) gave ∙ append_assoc (given src) p a.bytes;
    valid = a.valid;
  }

  pub same-ReadsAll :
      {rb rb' : Buffer} {n : ℕ} {src : Source} {out : Run (ℕ × Option Error × Buffer × Source)}
      → contents rb' ≡ contents rb
      → ReadsAll rb' n src out
      → ReadsAll rb n src out
  same-ReadsAll same a = record {
    result = a.result;
    before = a.before;
    room = a.room;
    err = a.err;
    bytes = a.bytes;
    failed = a.failed;
    returned = a.returned;
    appended = a.appended ∙ ap (λ (x : List ℕ). x ++ a.bytes) same;
    delivered = a.delivered;
    valid = a.valid;
  }

  -- The call that ends it.
  stops :
      {rb rb' : Buffer} (n k : ℕ) (src : Source) (e : Error)
      → (read src k).1 ≡ some e
      → contents rb' ≡ contents rb ++ (read src k).0
      → IsValid rb'
      → ReadsAll rb n src (returns (n + length (read src k).0, unless_eof e, rb', (read src k).2))
  stops {rb} {rb'} n k src e f held v = record {
    result = rb';
    before = src;
    room = k;
    err = e;
    bytes = (read src k).0;
    failed = f;
    returned = refl;
    appended = held;
    delivered = gives src k;
    valid = v;
  }

  -- A call whose bytes went behind the contents, and what follows it when it has no error.
  pub after_read-ReadsAll :
      {rb rb' : Buffer} (n k : ℕ) (src : Source) (e : Option Error)
      (more : Run (ℕ × Option Error × Buffer × Source))
      → (read src k).1 ≡ e
      → contents rb' ≡ contents rb ++ (read src k).0
      → IsValid rb'
      → (e ≡ none → ReadsAll rb' (n + length (read src k).0) (read src k).2 more)
      → ReadsAll rb n src (after_read reader e (n + length (read src k).0) rb' (read src k).2 more)
  after_read-ReadsAll n k src (some e) more f held v ih = stops n k src e f held v
  after_read-ReadsAll n k src none more f held v ih =
      prefixed (read src k).0 held (gives src k) (ih refl)
