-- ===== src/Socket/Decimal.antt =====
-- `uint2decimalStr` of internal/socket/socktoaddr.go. A string is its bytes.
use gtcp.Prelude.{
  ℕ, zero, suc, ◌+◌, ◌-◌, ◌*◌, ◌/◌, ◌%◌, ◌^◌, ◌≤◌, ◌<◌, ◌≡◌, refl, sym, ap, ◌∙◌, Option, none, some,
  List, [], ◌∷◌, ◌++◌, arith, leb, ◌==◌, if◌then◌else◌, length, set, drop, append_assoc, append-nil,
  length-set, Bool-cases, inl, inr, length-append, false, true,
}
use gtcp.Prelude.Slices.{drop_all}
use gtcp.Alloc.{Alloc}

-- The loop, at index i of the buffer, and the last digit. `none` is the panic of a write at index -1.
unfoldable pub decimal_loop : List ℕ → ℕ → ℕ → Option (List ℕ)
decimal_loop buf zero val = if leb 10 val then none else some (set buf zero ((48 + val) % 256))
decimal_loop buf (suc i) val =
    let q = val / 10 in
    let rest = decimal_loop (set buf (suc i) ((48 + val - q * 10) % 256)) i q in
    if leb 10 val then rest else some (drop (suc i) (set buf (suc i) ((48 + val) % 256)))

unfoldable pub uint2decimal_str : Alloc → ℕ → Option (List ℕ)
uint2decimal_str alloc val =
    let buf = alloc.get 20 in
    if val == 0 then some (48 ∷ []) else decimal_loop buf (length buf - 1) val

-- The number that digits spell behind n.
abbrev pub value : ℕ → List ℕ → ℕ
value n [] = n
value n (c ∷ cs) = value (n * 10 + (c - 48)) cs

abbrev pub AreDigits : List ℕ → Type 0
AreDigits [] = Unit
AreDigits (c ∷ cs) = (48 ≤ c) × (c ≤ 57) × AreDigits cs

-- `text` is `val` in decimal.
pub record Prints (val : ℕ) (text : List ℕ) : Type 0 where
  pub exact : value 0 text ≡ val
  pub are_digits : AreDigits text
  pub fits : length text ≤ 20
  pub some_digit : 0 < length text

value-append : (n : ℕ) (cs : List ℕ) (d : ℕ) → value n (cs ++ (d ∷ [])) ≡ value n cs * 10 + (d - 48)
value-append n [] d = refl
value-append n (c ∷ cs) d = value-append (n * 10 + (c - 48)) cs d

append-AreDigits :
    (cs : List ℕ) (d : ℕ) → AreDigits cs → 48 ≤ d → d ≤ 57 → AreDigits (cs ++ (d ∷ []))
append-AreDigits [] d all low high = (low, high, tt)
append-AreDigits (c ∷ cs) d (l, h, all) low high = (l, h, append-AreDigits cs d all low high)

drop-set : (xs : List ℕ) (i v : ℕ) → i < length xs → drop i (set xs i v) ≡ v ∷ drop (suc i) xs
drop-set [] i v h = absurd (omega arith)
drop-set (x ∷ xs) zero v h = refl
drop-set (x ∷ xs) (suc i) v h = drop-set xs i v (omega arith)

-- 10 ^ (i + 1)
abbrev room : ℕ → ℕ
room zero = 10
room (suc i) = 10 * room i

-- The digits go in front of what the buffer holds behind i.
record Fills (buf : List ℕ) (i val : ℕ) : Type 0 where
  text : List ℕ
  result : decimal_loop buf i val ≡ some (text ++ drop (suc i) buf)
  exact : value 0 text ≡ val
  are_digits : AreDigits text
  fits : length text ≤ suc i
  some_digit : 0 < length text

decimal_loop_more :
    (buf : List ℕ) (i val : ℕ)
    → leb 10 val ≡ true
    → decimal_loop buf (suc i) val
      ≡ decimal_loop (set buf (suc i) (48 + val - val / 10 * 10)) i (val / 10)
unfolding decimal_loop
decimal_loop_more buf i val more =
    let digit : (48 + val - val / 10 * 10) % 256 ≡ 48 + val - val / 10 * 10 = omega arith in
    rw (more, digit) refl

decimal_loop-Fills : (buf : List ℕ) (i val : ℕ) → i < length buf → val < room i → Fills buf i val
unfolding decimal_loop
decimal_loop-Fills buf zero val inside small =
    let one : leb 10 val ≡ false = ground arith in
    let digit : (48 + val) % 256 ≡ 48 + val = omega arith in
    record {
      text = (48 + val) ∷ [];
      result = rw (one, digit, sym (drop-set buf zero (48 + val) inside)) refl;
      exact = omega arith;
      are_digits = (omega arith, omega arith, tt);
      fits = omega arith;
      some_digit = omega arith;
    }
decimal_loop-Fills buf (suc i) val inside small = elim (Bool-cases (leb 10 val)) [
  | inr few ↦
      let digit : (48 + val) % 256 ≡ 48 + val = ground arith in
      record {
        text = (48 + val) ∷ [];
        result = rw (few, digit, drop-set buf (suc i) (48 + val) inside) refl;
        exact = omega arith;
        are_digits = (omega arith, ground arith, tt);
        fits = omega arith;
        some_digit = omega arith;
      }
  | inl more ↦
      let d : ℕ = 48 + val - val / 10 * 10 in
      let buf' : List ℕ = set buf (suc i) d in
      let ih =
        decimal_loop-Fills buf' i (val / 10) (omega (arith, length-set buf (suc i) d))
          (omega arith) in
      record {
        text = ih.text ++ (d ∷ []);
        result =
            decimal_loop_more buf i val more
            ∙ ih.result
            ∙ ap (λ l. some (ih.text ++ l)) (drop-set buf (suc i) d inside)
            ∙ ap some (sym (append_assoc ih.text (d ∷ []) (drop (suc (suc i)) buf)));
        exact = omega (arith, value-append 0 ih.text d, ih.exact);
        are_digits = append-AreDigits ih.text d ih.are_digits (omega arith) (omega arith);
        fits = omega (arith, length-append ih.text (d ∷ []), ih.fits);
        some_digit = omega (arith, length-append ih.text (d ∷ []));
      }
]

-- For every number below 2 ^ 64 `uint2decimalStr` stays inside its buffer of 20 bytes, and the
-- text it returns has at least one byte, only decimal digits, and the value of the number.
pub uint2decimal_str_lem :
    (alloc : Alloc) (val : ℕ)
    → val < 2 ^ 64
    → (text : List ℕ) × (uint2decimal_str alloc val ≡ some text) × Prints val text
unfolding uint2decimal_str
uint2decimal_str_lem alloc val small = elim (Bool-cases (val == 0)) [
  | inl none_left ↦ (
    48 ∷ [],
    rw none_left refl,
    record {
      exact = ground arith;
      are_digits = (omega arith, omega arith, tt);
      fits = omega arith;
      some_digit = omega arith;
    },
  )
  | inr positive ↦
      let size : length (alloc.get 20) ≡ 20 = alloc.length-get 20 in
      let run = decimal_loop-Fills (alloc.get 20) 19 val (omega (arith, size)) (omega arith) in
      (
        run.text,
        rw (positive, size, run.result)
            (ap some (
              ap (λ l. run.text ++ l) (drop_all 20 (alloc.get 20) (omega (arith, size)))
              ∙ append-nil run.text)),
        record {
          exact = run.exact;
          are_digits = run.are_digits;
          fits = run.fits;
          some_digit = run.some_digit;
        },
      )
]
