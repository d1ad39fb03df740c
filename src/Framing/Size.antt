-- ===== src/Framing/Size.antt =====
-- Taking messages off does not make the ring larger.
use gtcp.Prelude.{◌≤◌, inl, inr, ◌||◌, none, some, arith, ltb, Bool-cases}
use gtcp.Prelude.Int.{ℤ, pos, ltb_ℤ, leb_ℤ}
use gtcp.Ring
use gtcp.Ring.Discard.{discard_lem}
use gtcp.Elastic.RingBuffer
use gtcp.Elastic.RingBuffer.{RingBuffer, capacity, done}
use gtcp.Elastic.RingBuffer.Contents
use gtcp.Inbound

capacity-done : (rb : Ring.Buffer) → capacity (done (some rb)) ≤ Ring.capacity rb
unfolding capacity done
capacity-done rb = elim (Bool-cases rb.is_empty) [
  | inl drained ↦ rw drained (omega arith)
  | inr some_left ↦ rw some_left (omega arith)
]

capacity-reset : (b : RingBuffer) → capacity (RingBuffer.reset b) ≤ capacity b
unfolding RingBuffer.reset capacity Ring.reset Ring.capacity
capacity-reset none = omega arith
capacity-reset (some rb) = omega arith

capacity-ring_discard :
    (b : RingBuffer) (n : ℤ) → Contents.IsValid b → capacity (RingBuffer.discard b n).2 ≤ capacity b
unfolding RingBuffer.discard capacity Ring.capacity
capacity-ring_discard none n v = omega arith
capacity-ring_discard (some rb) n v =
    omega (arith, capacity-done (Ring.discard rb n).1, (discard_lem rb v n).size_kept)

pub capacity-discard :
    (b : RingBuffer) (n : ℤ) → Contents.IsValid b → capacity (Inbound.discard b n).2 ≤ capacity b
unfolding Inbound.discard
capacity-discard b n v =
    let all = ltb_ℤ (pos (RingBuffer.buffered b)) n || leb_ℤ n (pos 0) in
    let test = ltb (RingBuffer.discard b n).0 (RingBuffer.buffered b) in
    elim (Bool-cases all) [
      | inl yes_all ↦ rw yes_all (capacity-reset b)
      | inr some_bytes ↦ elim (Bool-cases (RingBuffer.is_empty b)) [
        | inl empty ↦ rw (some_bytes, empty) (omega arith)
        | inr full ↦ elim (Bool-cases test) [
          | inl less ↦ rw (some_bytes, full, less) (capacity-ring_discard b n v)
          | inr rest ↦ rw (some_bytes, full, rest) (capacity-ring_discard b n v)
        ]
      ]
    ]
