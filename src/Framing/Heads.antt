-- ===== src/Framing/Heads.antt =====
-- `Encode` and `Decode` of the default head.
use gtcp.Prelude.{
  ℕ, ◌%◌, ◌-◌, ◌^◌, ◌<◌, ◌≡◌, ap, ap₂, ◌∙◌, List, ◌++◌, arith, length, ltb, false, take, ◌≤◌,
  Bool-cases, inl, inr,
}
use gtcp.Prelude.Int.{ℤ, pos, negsuc}
use gtcp.Framing.{
  DefaultHead, read_int32, head_decode, head_encode, le_bytes, le_value, int32_of, pattern32_of,
}

-- The values of an `int32`.
abbrev pub IsInt32 : ℤ → Type 0
IsInt32 (pos n) = n < 2 ^ 31
IsInt32 (negsuc n) = n < 2 ^ 31

int32_of-IsInt32 : (v : ℕ) → IsInt32 (int32_of v)
int32_of-IsInt32 v = elim (Bool-cases (ltb v (2 ^ 31))) [
  | inl low ↦ rw low (ground arith)
  | inr high ↦ rw high (omega (arith, high_half v high))
]
  where
    high_half : (v : ℕ) → ltb v (2 ^ 31) ≡ false → 2 ^ 31 ≤ v
    high_half v h = ground arith

pub read_int32-IsInt32 : (bytes : List ℕ) (old : ℤ) → IsInt32 old → IsInt32 (read_int32 bytes old)
read_int32-IsInt32 bytes old h = elim (Bool-cases (ltb (length bytes) 4)) [
  | inl few ↦ rw few h
  | inr enough ↦ rw enough (int32_of-IsInt32 (le_value (take 4 bytes)))
]

le_value_four : (v : ℕ) → v < 2 ^ 32 → le_value (le_bytes 4 v) ≡ v
le_value_four v h = omega arith

int32_pattern : (k : ℤ) → IsInt32 k → int32_of (le_value (le_bytes 4 (pattern32_of k))) ≡ k
int32_pattern (pos n) h = ap int32_of (le_value_four (n % 2 ^ 32) (omega arith)) ∙ ground arith
int32_pattern (negsuc n) h =
    ap int32_of (le_value_four (2 ^ 32 - 1 - n % 2 ^ 32) (omega arith)) ∙ ground arith

read_encoded :
    (k old : ℤ) (rest : List ℕ)
    → IsInt32 k
    → read_int32 (le_bytes 4 (pattern32_of k) ++ rest) old ≡ k
read_encoded k old rest h =
    let test : ltb (length (le_bytes 4 (pattern32_of k) ++ rest)) 4 ≡ false = ground arith in
    rw test (int32_pattern k h)

-- Decoding the bytes of `Encode`, with others behind them, gives back the two fields of the
-- default head, for values of an int32.
pub head_decode-head_encode :
    (old h : DefaultHead) (rest : List ℕ)
    → IsInt32 h.body_len
    → IsInt32 h.msg_id
    → head_decode old (head_encode h ++ rest) ≡ h
unfolding head_decode head_encode
head_decode-head_encode old h rest p q =
    ap₂ (λ (a b : ℤ). record { body_len = a; msg_id = b })
      (read_encoded h.body_len old.body_len (le_bytes 4 (pattern32_of h.msg_id) ++ rest) p)
      (read_encoded h.msg_id old.msg_id rest q)
