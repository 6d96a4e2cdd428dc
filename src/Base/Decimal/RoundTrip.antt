-- ===== src/Base/Decimal/RoundTrip.antt =====
-- `int` reads back what the format directives print.
use meeting_mgr.Base.{
  ℕ, zero, suc, ◌+◌, ◌-◌, ◌*◌, ◌/◌, ◌%◌, ◌<◌, ◌≡◌, refl, ap, ◌∙◌, inl, inr, Bool, true, false, some,
  [], ◌∷◌, ◌++◌, arith, ◌==◌, Bool-cases, length, replicate, All-append, All, leb, ◌&&◌, is_empty,
  sym,
}
use meeting_mgr.Base.Text.{Text, is_space, strip, Visible, strip_of_Visible}
use meeting_mgr.Base.Decimal.{
  ℤ, pos, negsuc, emit, decimal, padded, six_digits, is_digit, scan, signed, int_of,
}

digit_bounds : (n : ℕ) → is_digit (b'0' + n % 10) ≡ true
unfolding is_digit
digit_bounds n = ground arith

not-is_digit-underscore : (n : ℕ) → ((b'0' + n % 10) == b'_') ≡ false
not-is_digit-underscore n = ground arith

scan_digit :
    (after : Bool) (n : ℕ) (t : Text) (k : ℕ)
    → scan after ((b'0' + n % 10) ∷ t) k ≡ scan true t (k * 10 + n % 10)
unfolding scan
scan_digit after n t k = rw (digit_bounds n) (ap (scan true t) (omega arith))

scan_zero : (after : Bool) (t : Text) → scan after (b'0' ∷ t) 0 ≡ scan true t 0
unfolding scan is_digit
scan_zero after t = refl

-- Before a rest, the digits of `n` add up to `n`.
scan-emit :
    (fuel n : ℕ) (rest : Text) (after : Bool)
    → n < fuel
    → scan after (emit fuel n rest) 0 ≡ scan true rest n
unfolding emit
scan-emit zero n rest after h = absurd (omega arith)
scan-emit (suc fuel) n rest after h = elim (Bool-cases (n / 10 == 0)) [
  | inl last ↦ rw last (scan_digit after n rest 0 ∙ ap (scan true rest) (ground arith))
  | inr more ↦ rw more (
      scan-emit fuel (n / 10) ((b'0' + n % 10) ∷ rest) after (ground arith)
      ∙ scan_digit true n rest (n / 10)
      ∙ ap (scan true rest) (omega arith))
]

scan-zeros :
    (k : ℕ) (t : Text) (n : ℕ)
    → ((after : Bool) → scan after t 0 ≡ some n)
    → (after : Bool) → scan after (replicate k b'0' ++ t) 0 ≡ some n
scan-zeros zero t n h after = h after
scan-zeros (suc k) t n h after = scan_zero after (replicate k b'0' ++ t) ∙ scan-zeros k t n h true

scan-padded : (width n : ℕ) (after : Bool) → scan after (padded width (decimal n)) 0 ≡ some n
unfolding padded decimal
scan-padded width n after =
    scan-zeros (width - length (decimal n)) (decimal n) n
      (λ b. scan-emit (suc n) n [] b (omega arith) ∙ scan_end n) after
  where
    scan_end : (k : ℕ) → scan true [] k ≡ some k
    scan_end k = unfold scan in refl

digit-Visible : (n : ℕ) → is_space (b'0' + n % 10) ≡ false
unfolding is_space
digit-Visible n = ground arith

emit-Visible : (fuel n : ℕ) (rest : Text) → Visible rest → Visible (emit fuel n rest)
unfolding emit
emit-Visible zero n rest h = h
emit-Visible (suc fuel) n rest h = elim (Bool-cases (n / 10 == 0)) [
  | inl last ↦ rw last (digit-Visible n, h)
  | inr more ↦ rw more (emit-Visible fuel (n / 10) _ (digit-Visible n, h))
]

zeros-Visible : (k : ℕ) → Visible (replicate k b'0')
unfolding is_space
zeros-Visible zero = tt
zeros-Visible (suc k) = (refl, zeros-Visible k)

padded-Visible : (width n : ℕ) → Visible (padded width (decimal n))
unfolding padded decimal
padded-Visible width n =
    All-append (λ c. is_space c ≡ false) (replicate (width - length (decimal n)) b'0') (decimal n)
      (zeros-Visible (width - length (decimal n))) (emit-Visible (suc n) n [] tt)

-- A text that the scanner accepts from both states does not begin with a sign.
signed_of_scan :
    (t : Text) (n : ℕ) → ((after : Bool) → scan after t 0 ≡ some n) → signed t ≡ some (pos n)
unfolding signed scan is_digit
signed_of_scan [] n h = ground (arith, h false)
signed_of_scan (c ∷ t) n h = ground (arith, h false)

six_digits-Visible : (z : ℤ) → Visible (six_digits z)
unfolding six_digits
six_digits-Visible (pos n) = padded-Visible 6 n
six_digits-Visible (negsuc n) = (unfold is_space in refl, padded-Visible 5 (suc n))

signed-six_digits : (z : ℤ) → signed (six_digits z) ≡ some z
unfolding six_digits signed
signed-six_digits (pos n) = signed_of_scan (padded 6 (decimal n)) n (scan-padded 6 n)
signed-six_digits (negsuc n) = rw (scan-padded 5 (suc n) false)

-- Every integer is read back from its six-digit form, however long that is.
pub int_of-six_digits : (z : ℤ) → int_of (six_digits z) ≡ some z
unfolding int_of
int_of-six_digits z =
    ap signed (strip_of_Visible (six_digits z) (six_digits-Visible z)) ∙ signed-six_digits z

padded_none : (t : Text) → padded 0 t ≡ t
unfolding padded
padded_none t = rw (no_room (length t)) refl
  where
    no_room : (n : ℕ) → 0 - n ≡ 0
    no_room n = omega arith

-- And so is a number from its plain digits.
pub int_of-decimal : (n : ℕ) → int_of (decimal n) ≡ some (pos n)
unfolding int_of
int_of-decimal n =
    ap (λ t. signed (strip t)) (sym (padded_none (decimal n)))
    ∙ ap signed (strip_of_Visible (padded 0 (decimal n)) (padded-Visible 0 n))
    ∙ signed_of_scan (padded 0 (decimal n)) n (scan-padded 0 n)

-- The characters of a decimal numeral.
abbrev pub AreDigits : Text → Type 0
AreDigits = All (λ c. (leb b'0' c && leb c b'9') ≡ true)

emit-AreDigits : (fuel n : ℕ) (rest : Text) → AreDigits rest → AreDigits (emit fuel n rest)
unfolding emit
emit-AreDigits zero n rest h = h
emit-AreDigits (suc fuel) n rest h = elim (Bool-cases (n / 10 == 0)) [
  | inl last ↦ rw last (decimal_digit n, h)
  | inr more ↦ rw more (emit-AreDigits fuel (n / 10) _ (decimal_digit n, h))
]
  where
    decimal_digit : (k : ℕ) → (leb b'0' (b'0' + k % 10) && leb (b'0' + k % 10) b'9') ≡ true
    decimal_digit k = ground arith

pub decimal-AreDigits : (n : ℕ) → AreDigits (decimal n)
unfolding decimal
decimal-AreDigits n = emit-AreDigits (suc n) n [] tt

emit_grows : (fuel n : ℕ) (c : ℕ) (rest : Text) → is_empty (emit fuel n (c ∷ rest)) ≡ false
unfolding emit
emit_grows zero n c rest = refl
emit_grows (suc fuel) n c rest = elim (Bool-cases (n / 10 == 0)) [
  | inl last ↦ rw last refl
  | inr more ↦ rw more (emit_grows fuel (n / 10) (b'0' + n % 10) (c ∷ rest))
]

pub decimal_not_empty : (n : ℕ) → is_empty (decimal n) ≡ false
unfolding decimal emit
decimal_not_empty n = elim (Bool-cases (n / 10 == 0)) [
  | inl last ↦ rw last refl
  | inr more ↦ rw more (emit_grows n (n / 10) (b'0' + n % 10) [])
]
