-- ===== src/Base/Decimal.antt =====
-- Decimal numerals: Python's `f"{n}"`, `f"{n:06d}"` and `int(text)`, on ASCII digits.
pub mod RoundTrip
use meeting_mgr.Base.{
  ℕ, zero, suc, ◌+◌, ◌-◌, ◌*◌, ◌/◌, ◌%◌, ◌≡◌, refl, Bool, true, false, ◌&&◌, [], ◌∷◌, ◌++◌, Option,
  none, some, leb, ◌==◌, if◌then◌else◌, length, replicate,
}
use meeting_mgr.Base.Text.{Text, codes, strip}

-- An `int`: `negsuc n` is -(n + 1).
pub data ℤ : Type 0 where
  pos : ℕ → ℤ
  negsuc : ℕ → ℤ

-- The digits of `n` before `rest`; fuel above `n` is enough, since each round divides by ten.
unfoldable pub emit : ℕ → ℕ → Text → Text
emit zero n rest = rest
emit (suc fuel) n rest =
    let digit : ℕ = b'0' + n % 10 in
    let more = emit fuel (n / 10) (digit ∷ rest) in if n / 10 == 0 then digit ∷ rest else more

unfoldable pub decimal : ℕ → Text
unfolding emit
decimal n = emit (suc n) n []

-- Zero padding to a width.
unfoldable pub padded : ℕ → Text → Text
padded width t = replicate (width - length t) b'0' ++ t

-- `f"{n:06d}"`: the sign counts in the width.
unfoldable pub six_digits : ℤ → Text
unfolding decimal padded
six_digits (pos n) = padded 6 (decimal n)
six_digits (negsuc n) = b'-' ∷ padded 5 (decimal (suc n))

is_digit : ℕ → Bool
is_digit c = leb b'0' c && leb c b'9'

-- Digits with single underscores between them; the flag says that a digit came last.
scan : Bool → Text → ℕ → Option ℕ
unfolding is_digit
scan after [] n = if after then some n else none
scan after (c ∷ t) n =
    let digit = scan true t (n * 10 + (c - b'0')) in
    let underscore = scan false t n in
    if is_digit c then digit else if c == b'_' && after then underscore else none

-- `-n`
abbrev pub negate : ℕ → ℤ
negate zero = pos 0
negate (suc n) = negsuc n

signed : Text → Option ℤ
unfolding scan
signed [] = none
signed (c ∷ t) =
    if c == b'-'
    then elim (scan false t 0) [ none ↦ none | some n ↦ some (negate n) ]
    else if c == b'+'
    then elim (scan false t 0) [ none ↦ none | some n ↦ some (pos n) ]
    else elim (scan false (c ∷ t) 0) [ none ↦ none | some n ↦ some (pos n) ]

-- `int(text)`; `none` is a ValueError.
unfoldable pub int_of : Text → Option ℤ
unfolding signed strip
int_of t = signed (strip t)

parse_plain : int_of (codes " 000042") ≡ some (pos 42)
unfolding int_of
parse_plain = refl

parse_bad : int_of (codes "4__2") ≡ none
unfolding int_of
parse_bad = refl

print_negative : six_digits (negsuc 6) ≡ codes "-00007"
unfolding six_digits
print_negative = refl
