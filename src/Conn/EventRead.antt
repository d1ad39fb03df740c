-- ===== src/Conn/EventRead.antt =====
-- `eventRead`: what arrives goes behind the bytes of the inbound buffer, in order, until a call fails or
-- the peer has closed.
use gtcp.Prelude.{
  ℕ, suc, ◌+◌, ◌^◌, ◌≤◌, ◌≡◌, refl, sym, ap, ◌∙◌, inl, inr, true, Option, none, some, List, [], ◌∷◌,
  ◌++◌, arith, length, if◌then◌else◌, Bool-cases, append-nil, append_assoc,
}
use gtcp.Prelude.Slices.{byte_lengths}
use gtcp.Alloc.{Alloc}
use gtcp.RingPool.{RingPool}
use gtcp.Errors.{Error}
use gtcp.Run.{Run, returns}
use gtcp.Sys.{is_errno, econnreset}
use gtcp.Elastic.RingBuffer
use gtcp.Elastic.RingBuffer.Contents as Inbound
use gtcp.Conn.{Conn, ReadResult, got, read_failed, event_read}

-- The bytes that arrive before the calls stop, and what they stop with; EINTR does not stop them.
abbrev pub arrived : List ReadResult → List ℕ
arrived [] = []
arrived (read_failed e ∷ rs) = let more = arrived rs in if is_errno 4 (some e) then more else []
arrived (got [] ∷ rs) = []
arrived (got (b ∷ bs) ∷ rs) = (b ∷ bs) ++ arrived rs

abbrev pub stopped_by : List ReadResult → Option Error
stopped_by [] = none
stopped_by (read_failed e ∷ rs) =
    let more = stopped_by rs in
    if is_errno 4 (some e) then more else if is_errno 11 (some e) then none else some e
stopped_by (got [] ∷ rs) = some econnreset
stopped_by (got (b ∷ bs) ∷ rs) = stopped_by rs

pub record Receives (c : Conn) (rs : List ReadResult)
    (ran : Run (Option Error × Conn × List ReadResult)) : Type 0 where
  pub inbound : RingBuffer.RingBuffer
  pub left : List ReadResult
  pub returned : ran ≡ returns (stopped_by rs, record c { inbound = inbound }, left)
  pub in_order : Inbound.contents inbound ≡ Inbound.contents c.inbound ++ arrived rs
  pub valid : Inbound.IsValid inbound

nothing_arrived :
    (c : Conn) (rs left : List ReadResult) (e : Option Error)
    → Inbound.IsValid c.inbound
    → arrived rs ≡ []
    → stopped_by rs ≡ e
    → Receives c rs (returns (e, c, left))
nothing_arrived c rs left e v a b = record {
  inbound = c.inbound;
  left = left;
  returned = ap (λ x. returns (x, c, left)) (sym b);
  in_order = sym (
      ap (λ (x : List ℕ). Inbound.contents c.inbound ++ x) a
      ∙ append-nil (Inbound.contents c.inbound));
  valid = v;
}

arrived_again :
    (e : Error) (rs : List ReadResult)
    → is_errno 4 (some e) ≡ true
    → arrived (read_failed e ∷ rs) ≡ arrived rs
arrived_again e rs again = rw (arrived, again) refl

module _ (alloc : Alloc) (pool : RingPool) where
  -- With a valid inbound ring of a size of at most 2 ^ 61 and at most 2 ^ 60 bytes held and
  -- arriving, `eventRead` returns: the bytes that arrive go behind those held, in order, until
  -- a read fails with another error than EINTR or returns no byte, however many they are
  -- (`ReadBufferCap` plays no part); the error is nil for EAGAIN, ECONNRESET when no byte was
  -- returned, and that of the read otherwise; nothing else of the connection changes.
  pub event_read_lem :
      (rs : List ReadResult) (c : Conn)
      → Inbound.IsValid c.inbound
      → RingBuffer.capacity c.inbound ≤ 2 ^ 61
      → length (Inbound.contents c.inbound) + length (arrived rs) ≤ 2 ^ 60
      → Receives c rs (event_read alloc pool rs c)
  unfolding event_read
  event_read_lem [] c v small room = nothing_arrived c [] [] none v refl refl
  event_read_lem (read_failed e ∷ rs) c v small room = elim (Bool-cases (is_errno 4 (some e))) [
    | inl again ↦
        let r =
          event_read_lem rs c v small (omega (arith, ap length (arrived_again e rs again), room)) in
        rw again (record {
          inbound = r.inbound;
          left = r.left;
          returned = rw (stopped_by, again) r.returned;
          in_order =
              r.in_order
              ∙ ap (λ (x : List ℕ). Inbound.contents c.inbound ++ x)
                  (sym (arrived_again e rs again));
          valid = r.valid;
        })
    | inr stop ↦ rw stop (
        nothing_arrived c (read_failed e ∷ rs) rs (if is_errno 11 (some e) then none else some e) v
          (rw (arrived, stop) refl) (rw (stopped_by, stop) refl))
  ]
  event_read_lem (got [] ∷ rs) c v small room =
      nothing_arrived c (got [] ∷ rs) rs (some econnreset) v refl refl
  event_read_lem (got (b ∷ bs) ∷ rs) c v small room =
      let room' : length (Inbound.contents c.inbound) + suc (length (bs ++ arrived rs)) ≤ 2 ^ 60 =
        room in
      let w =
        Inbound.ring_buffer_write_lem alloc pool c.inbound (b ∷ bs) v small (omega byte_lengths) in
      let r =
        event_read_lem rs (record c { inbound = w.result }) w.valid
          (omega (byte_lengths, w.bounded)) (omega (byte_lengths, ap length w.appended)) in
      rw (event_read, w.returned)
        (record {
          inbound = r.inbound;
          left = r.left;
          returned = r.returned;
          in_order =
              r.in_order
              ∙ ap (λ (x : List ℕ). x ++ arrived rs) w.appended
              ∙ append_assoc (Inbound.contents c.inbound) (b ∷ bs) (arrived rs);
          valid = r.valid;
        })
