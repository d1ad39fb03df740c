-- ===== src/Framing/Chunks.antt =====
-- A front part of a stream of messages is some of them and the start of the next, so that it does not
-- matter in which parts the stream arrives.
use native.Mathlib.Decide.{dec_lt}
use gtcp.Prelude.{
  ℕ, ◌+◌, ◌≤◌, ◌<◌, ◌≡◌, refl, sym, ap, ◌∙◌, List, [], ◌∷◌, ◌++◌, arith, length, take, drop,
  append_assoc, take-append-drop,
}
use gtcp.Prelude.Slices.{byte_lengths, take-append_le, drop-append_le}
use gtcp.Prelude.Splits.{take-append_self, drop-append_self}
use gtcp.Framing.{default_header}
use gtcp.Framing.Stream.{
  Frame, head_of, sent, AllFrames, IsPending, in_head, in_body, told, sent_parts, length-head_of,
}

-- The front part `p` of the stream, with `q` behind it.
pub record Splits (fs : List Frame) (rest p q : List ℕ) : Type 0 where
  pub before : List Frame
  pub after : List Frame
  pub tail : List ℕ
  pub whole : fs ≡ before ++ after
  pub parts : p ≡ sent before ++ tail
  pub pending : IsPending tail
  pub all_before : AllFrames before
  pub all_after : AllFrames after
  pub behind : tail ++ q ≡ sent after ++ rest

-- Nothing is complete yet.
none_complete :
    (fs : List Frame) (rest p q : List ℕ)
    → AllFrames fs
    → IsPending p
    → p ++ q ≡ sent fs ++ rest
    → Splits fs rest p q
none_complete fs rest p q all pending e = record {
  before = [];
  after = fs;
  tail = p;
  whole = refl;
  parts = refl;
  pending = pending;
  all_before = _;
  all_after = all;
  behind = e;
}

-- A front part of an incomplete message is one.
front-IsPending : (rest p q : List ℕ) → IsPending rest → p ++ q ≡ rest → IsPending p
front-IsPending rest p q (in_head few) e = in_head (omega (byte_lengths, ap length e))
front-IsPending rest p q (in_body bl fits told few) e = elim (dec_lt (length p) 8) [
  | yes short ↦ in_head short
  | no long ↦
      let same : take 8 p ≡ take 8 rest =
        sym (take-append_le 8 p q (omega arith)) ∙ ap (take 8) e in
      in_body bl (omega arith) (ap default_header.get_body_len same ∙ told)
        (omega (byte_lengths, ap length e))
]

module _ (f : Frame) (fs : List Frame) (rest p q : List ℕ) (all : AllFrames (f ∷ fs))
    (e : p ++ q ≡ sent (f ∷ fs) ++ rest) where
  abbrev first : List ℕ
  first = head_of f ++ f.body

  first-length : length first ≡ 8 + length f.body
  first-length = omega (byte_lengths, length-head_of f)

  e' : p ++ q ≡ head_of f ++ (f.body ++ (sent fs ++ rest))
  e' = e ∙ sent_parts f fs rest

  e'' : p ++ q ≡ first ++ (sent fs ++ rest)
  e'' = e' ∙ sym (append_assoc (head_of f) f.body (sent fs ++ rest))

  body-IsPending : 8 ≤ length p → length p < 8 + length f.body → IsPending p
  body-IsPending long short =
      let same : take 8 p ≡ take 8 (head_of f ++ (f.body ++ (sent fs ++ rest))) =
        sym (take-append_le 8 p q long) ∙ ap (take 8) e' in
      in_body (length f.body) long
        (ap default_header.get_body_len same ∙ told f (f.body ++ (sent fs ++ rest)) all.1 all.2)
        short

  first_complete : 8 + length f.body ≤ length p → p ≡ first ++ drop (8 + length f.body) p
  first_complete long =
      let n = 8 + length f.body in
      sym (take-append-drop n p)
      ∙ ap (λ (x : List ℕ). x ++ drop n p)
          (sym (take-append_le n p q long)
            ∙ ap (take n) e''
            ∙ take-append_self n first (sent fs ++ rest) (sym first-length))

  behind_first : 8 + length f.body ≤ length p → drop (8 + length f.body) p ++ q ≡ sent fs ++ rest
  behind_first long =
      let n = 8 + length f.body in
      sym (drop-append_le n p q long)
      ∙ ap (drop n) e''
      ∙ drop-append_self n first (sent fs ++ rest) (sym first-length)

pub splits :
    (fs : List Frame) (rest p q : List ℕ)
    → AllFrames fs
    → IsPending rest
    → p ++ q ≡ sent fs ++ rest
    → Splits fs rest p q
splits [] rest p q all pending e =
    none_complete [] rest p q all (front-IsPending rest p q pending e) e
splits (f ∷ fs) rest p q all pending e = elim (dec_lt (length p) 8) [
  | yes short ↦ none_complete (f ∷ fs) rest p q all (in_head short) e
  | no long ↦ elim (dec_lt (length p) (8 + length f.body)) [
    | yes short ↦
        none_complete (f ∷ fs) rest p q all (body-IsPending f fs rest p q all e (omega arith) short)
          e
    | no enough ↦
        let n = 8 + length f.body in
        let s =
          splits fs rest (drop n p) q all.3 pending
            (behind_first f fs rest p q all e (omega arith)) in
        record {
          before = f ∷ s.before;
          after = s.after;
          tail = s.tail;
          whole = ap (λ (x : List Frame). f ∷ x) s.whole;
          parts =
              first_complete f fs rest p q all e (omega arith)
              ∙ ap (λ (x : List ℕ). (head_of f ++ f.body) ++ x) s.parts
              ∙ append_assoc (head_of f) f.body (sent s.before ++ s.tail)
              ∙ sym (sent_parts f s.before s.tail);
          pending = s.pending;
          all_before = (all.0, all.1, all.2, s.all_before);
          all_after = s.all_after;
          behind = s.behind;
        }
  ]
]
