-- ===== src/Conn/Drain.antt =====
-- The loop of `Close` that sends what waits, until it is out or a call fails.
use gtcp.Prelude.{
  ℕ, zero, suc, ◌<◌, ◌≡◌, ◌⊎◌, refl, sym, ap, ◌∙◌, inl, inr, true, false, Option, none, some, List,
  [], ◌++◌, arith, length, take, drop, Bool-cases,
}
use gtcp.Prelude.Int.{ℤ, pos, pos_part}
use gtcp.Prelude.Slices.{flatten, byte_lengths, drop-zero}
use gtcp.Errors.{Error}
use gtcp.Run.{Run, returns}
use gtcp.Sys.{Sys}
use gtcp.LinkedList.NoEmpty.{NoEmpty}
use gtcp.Elastic
use gtcp.Elastic.NoEmpty.{discard-NoEmpty, holds_bytes, shows_bytes}
use gtcp.Elastic.Contents as Outbound
use gtcp.Elastic.Read.{elastic_discard_lem}
use gtcp.Conn.{drain, iov_max}
use gtcp.Conn.Front.{slices-IsFront, moved}

module _ (sys : Sys) where
  open sys use {Net, delivered}

  -- A call that is offered some bytes takes one of them, or fails.
  abbrev pub Progress : Type 0
  Progress =
      (s : Net) (fd : ℤ) (ps : List (List ℕ))
      → 0 < length (flatten ps)
      → (sys.writev s fd ps).1 ≡ none
      → 0 < pos_part (sys.writev s fd ps).0

  -- The call that the loop makes when it finds `out` and `net`, and what it leaves of `out`.
  abbrev pub attempt : ℤ → Elastic.Buffer → Net → ℤ × Option Error × Net
  attempt fd out net = sys.writev net fd (take iov_max (Elastic.peek out (pos 0)))

  abbrev pub unsent : ℤ → Elastic.Buffer → Net → Elastic.Buffer
  unsent fd out net = (Elastic.discard out (attempt fd out net).0).2

  -- One of the calls that the loop makes from `out` and `net` on fails: this one, or, when it does
  -- not, one of those after it.
  pub data CallFails (fd : ℤ) : Elastic.Buffer → Net → Type 0 where
    now :
        {out : Elastic.Buffer} {net : Net} (e : Error)
        → Elastic.is_empty out ≡ false
        → (attempt fd out net).1 ≡ some e
        → CallFails fd out net
    later :
        {out : Elastic.Buffer} {net : Net}
        → Elastic.is_empty out ≡ false
        → (attempt fd out net).1 ≡ none
        → CallFails fd (unsent fd out net) (attempt fd out net).2
        → CallFails fd out net

  pub no_call :
      (fd : ℤ) (out : Elastic.Buffer) (net : Net)
      → Elastic.is_empty out ≡ true
      → CallFails fd out net
      → ⊥
  no_call fd out net empty (now e waiting failed) = cc
  no_call fd out net empty (later waiting ok more) = cc

  -- What sending the rest does: nothing is lost or sent twice, and all goes out unless a call fails.
  pub record Drains (fd : ℤ) (out : Elastic.Buffer) (net : Net) (ran : Run (Elastic.Buffer × Net))
      : Type 0 where
    pub result : Elastic.Buffer × Net
    pub returned : ran ≡ returns result
    pub in_order :
        delivered result.1 ++ Outbound.contents result.0 ≡ delivered net ++ Outbound.contents out
    pub sent : (Outbound.contents result.0 ≡ []) ⊎ CallFails fd out net
    pub valid : Outbound.IsValid result.0

  -- One call of the loop.
  module _ (fd : ℤ) (out : Elastic.Buffer) (net : Net) (v : Outbound.IsValid out) where
    abbrev offered : List (List ℕ)
    offered = take iov_max (Elastic.peek out (pos 0))

    abbrev call : ℤ × Option Error × Net
    call = sys.writev net fd offered

    call_moves :
        delivered call.2 ++ drop (pos_part call.0) (Outbound.contents out)
        ≡ delivered net ++ Outbound.contents out
    call_moves =
        moved (Outbound.contents out) (flatten offered) (slices-IsFront out (pos 0) iov_max v)
          (pos_part call.0) (sys.writev_fits net fd offered) (delivered net) (delivered call.2)
          (sys.writev_takes net fd offered)

    drain_failed :
        (e : Error)
        → Elastic.is_empty out ≡ false
        → call.1 ≡ some e
        → Drains fd out net (returns (out, call.2))
    drain_failed e waiting h = record {
      result = (out, call.2);
      returned = refl;
      in_order =
          ap (λ (x : List ℕ). delivered call.2 ++ x)
            (sym (
              drop-zero (pos_part call.0) (Outbound.contents out)
                (sys.writev_failed net fd offered e h)))
          ∙ call_moves;
      sent = inr (now e waiting h);
      valid = v;
    }

    drain_on :
        {ran : Run (Elastic.Buffer × Net)}
        → Elastic.is_empty out ≡ false
        → call.1 ≡ none
        → Drains fd (Elastic.discard out call.0).2 call.2 ran
        → Drains fd out net ran
    drain_on waiting ok r = record {
      result = r.result;
      returned = r.returned;
      in_order =
          r.in_order
          ∙ ap (λ (x : List ℕ). delivered call.2 ++ x) (elastic_discard_lem out call.0 v).rest
          ∙ call_moves;
      sent = elim r.sent [ inl all ↦ inl all | inr failed ↦ inr (later waiting ok failed) ];
      valid = r.valid;
    }

    drained :
        (ran : Run (Elastic.Buffer × Net)) (e : Option Error)
        → call.1 ≡ e
        → Elastic.is_empty out ≡ false
        → (call.1 ≡ none → Drains fd (Elastic.discard out call.0).2 call.2 ran)
        → Drains fd out net (elim e [ some e' ↦ returns (out, call.2) | none ↦ ran ])
    drained ran (some e) h waiting rest = drain_failed e waiting h
    drained ran none h waiting rest = drain_on waiting h (rest h)

    shorter :
        Progress
        → NoEmpty out.list_buffer.nodes
        → Elastic.is_empty out ≡ false
        → call.1 ≡ none
        → length (Outbound.contents (Elastic.discard out call.0).2) < length (Outbound.contents out)
    shorter progress s waiting ok =
        let some_sent = progress net fd offered (shows_bytes out v s 1022 waiting) ok in
        let some_left = holds_bytes out v s waiting in
        omega (byte_lengths, ap length (elastic_discard_lem out call.0 v).rest)

  -- Nothing waits: no call is made.
  pub drain_nothing :
      (fuel : ℕ) (fd : ℤ) (out : Elastic.Buffer) (net : Net)
      → Outbound.IsValid out
      → 0 < fuel
      → Elastic.is_empty out ≡ true
      → Drains fd out net (drain sys fuel fd out net)
  unfolding drain
  drain_nothing zero fd out net v enough empty = absurd (omega arith)
  drain_nothing (suc fuel) fd out net v enough empty =
      rw (drain, empty)
        (record {
          result = (out, net);
          returned = refl;
          in_order = refl;
          sent = inl (Outbound.is_empty_lem out v empty);
          valid = v;
        })

  pub drain-Drains :
      Progress
      → (fuel : ℕ) (fd : ℤ) (out : Elastic.Buffer) (net : Net) → Outbound.IsValid out
      → NoEmpty out.list_buffer.nodes
      → length (Outbound.contents out) < fuel
      → Drains fd out net (drain sys fuel fd out net)
  unfolding drain
  drain-Drains progress zero fd out net v s h = absurd (omega arith)
  drain-Drains progress (suc fuel) fd out net v s h = elim (Bool-cases (Elastic.is_empty out)) [
    | inl empty ↦ drain_nothing (suc fuel) fd out net v (omega arith) empty
    | inr waiting ↦
        rw (drain, waiting)
          (drained fd out net v _ (call fd out net v).1 refl waiting (λ ok.
            drain-Drains progress fuel fd (Elastic.discard out (call fd out net v).0).2
              (call fd out net v).2 (elastic_discard_lem out (call fd out net v).0 v).valid
              (discard-NoEmpty out v s (call fd out net v).0)
              (omega (arith, shorter fd out net v progress s waiting ok))))
  ]
