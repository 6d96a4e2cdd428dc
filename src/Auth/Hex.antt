-- ===== src/Auth/Hex.antt =====
-- Hexadecimal texts read back, and what a stored hash accepts.
use meeting_mgr.Base.{
  ℕ, ◌+◌, ◌*◌, ◌/◌, ◌%◌, ◌<◌, ◌≡◌, refl, sym, ap, ap₂, ◌∙◌, ◌↔◌, inl, inr, Bool, true, false, not,
  ◌&&◌, some, List, [], ◌∷◌, ◌++◌, arith, ltb, ◌==◌, Bool-cases, is_empty, All,
}
use meeting_mgr.Base.Text.{Text, text_eq, text_eq_iff}
use meeting_mgr.Auth.Password.{
  hex_digit, hex, hex_value, is_blank, fromhex, partition, hash_password, compare_digests,
  verify_text, verify_password,
}

abbrev pub AreBytes : List ℕ → Type 0
AreBytes = All (λ b. b < 256)

hex_value-hex_digit : (n : ℕ) → n < 16 → hex_value (hex_digit n) ≡ some n
unfolding hex_value
hex_value-hex_digit n h = elim (Bool-cases (ltb n 10)) [
  | inl e ↦ rw e (ground (arith, e, h))
  | inr e ↦ rw e (ground (arith, e, h))
]

digit_is_plain :
    (n : ℕ) → n < 16 → (is_blank (hex_digit n) ≡ false) × ((hex_digit n == b'$') ≡ false)
digit_is_plain n h = (ground (arith, h), ground (arith, h))

high_digit : (b : ℕ) → b < 256 → b / 16 < 16
high_digit b h = omega (arith, h)

low_digit : (b : ℕ) → b % 16 < 16
low_digit b = omega arith

byte_of_digits : (b : ℕ) → (b / 16) * 16 + b % 16 ≡ b
byte_of_digits b = omega arith

pub fromhex-hex : (bytes : List ℕ) → AreBytes bytes → fromhex (hex bytes) ≡ some bytes
unfolding fromhex hex
fromhex-hex [] h = refl
fromhex-hex (b ∷ bytes) (h, hs) =
    rw
      (
        (digit_is_plain (b / 16) (high_digit b h)).0,
        hex_value-hex_digit (b / 16) (high_digit b h),
        hex_value-hex_digit (b % 16) (low_digit b),
        fromhex-hex bytes hs,
      )
      (ap (λ n. some (n ∷ bytes)) (byte_of_digits b))

partition-hex :
    (bytes : List ℕ) (text : Text)
    → AreBytes bytes
    → partition b'$' (hex bytes ++ b'$' ∷ text) ≡ (hex bytes, true, text)
unfolding partition hex
partition-hex [] text h = refl
partition-hex (b ∷ bytes) text (h, hs) =
    rw
      (
        (digit_is_plain (b / 16) (high_digit b h)).1,
        (digit_is_plain (b % 16) (low_digit b)).1,
        partition-hex bytes text hs,
      )
      refl

has_mark : (xs ys : Text) → is_empty (xs ++ b'$' ∷ ys) ≡ false
has_mark [] ys = refl
has_mark (x ∷ xs) ys = refl

module _ (pbkdf2 : Text → List ℕ → List ℕ)
    (digests : (p : Text) (salt : List ℕ) → AreBytes (pbkdf2 p salt)) where
  -- The comparison that a stored hash comes down to.
  pub verify-hash :
      (p q : Text) (salt : List ℕ)
      → AreBytes salt
      → verify_password pbkdf2 q (some (hash_password pbkdf2 p salt))
        ≡ text_eq (pbkdf2 q salt) (pbkdf2 p salt)
  unfolding verify_password verify_text hash_password
  verify-hash p q salt h =
      let digest = pbkdf2 p salt in
      let check =
        λ (x : Text × Bool × Text). x.1 && compare_digests pbkdf2 q (fromhex x.0) (fromhex x.2) in
      ap (λ b. not b && check (partition b'$' (hex salt ++ b'$' ∷ hex digest)))
        (has_mark (hex salt) (hex digest))
      ∙ ap check (partition-hex salt (hex digest) h)
      ∙ ap₂ (compare_digests pbkdf2 q) (fromhex-hex salt h) (fromhex-hex digest (digests p salt))

  -- A password meets the hash of another exactly if their digests for its salt are the same.
  pub verify_decides :
      (p q : Text) (salt : List ℕ)
      → AreBytes salt
      → (verify_password pbkdf2 q (some (hash_password pbkdf2 p salt)) ≡ true)
        ↔ (pbkdf2 q salt ≡ pbkdf2 p salt)
  verify_decides p q salt h =
      let (to, from) = text_eq_iff (pbkdf2 q salt) (pbkdf2 p salt) in
      (λ e. to (sym (verify-hash p q salt h) ∙ e), λ e. verify-hash p q salt h ∙ from e)
