-- ===== src/Base/Text.antt =====
-- Texts that the program takes apart (storage keys, tokens, names), as lists of code points, with
-- the methods of Python's `str` that it calls.
use Prim.Native.Char.{code}
use meeting_mgr.Base.{
  ℕ, ◌-◌, String, ◌≡◌, refl, ap, ◌↔◌, Bool, true, false, ◌&&◌, ◌||◌, List, [], ◌∷◌, ◌++◌, arith,
  leb, ◌==◌, if◌then◌else◌, length, take, drop, length-append, drop-append, take-append, is_empty,
  All,
}

abbrev pub Text : Type 0
Text = List ℕ

-- The code points of a literal. `String` has its own `[]` and `∷`.
abbrev pub codes : String → Text
codes String.[] = []
codes (String.◌∷◌ c s) = code c ∷ codes s

-- `s == t`
unfoldable pub text_eq : Text → Text → Bool
text_eq [] [] = true
text_eq [] (c ∷ t) = false
text_eq (b ∷ s) [] = false
text_eq (b ∷ s) (c ∷ t) = b == c && text_eq s t

-- `t.startswith(p)`
unfoldable pub starts_with : Text → Text → Bool
starts_with [] t = true
starts_with (b ∷ p) [] = false
starts_with (b ∷ p) (c ∷ t) = b == c && starts_with p t

-- `t.endswith(s)`
unfoldable pub ends_with : Text → Text → Bool
unfolding text_eq
ends_with s t = leb (length s) (length t) && text_eq (drop (length t - length s) t) s

-- `t.removeprefix(p)`
unfoldable pub remove_prefix : Text → Text → Text
unfolding starts_with
remove_prefix p t = if starts_with p t then drop (length p) t else t

-- `t.removesuffix(s)`
unfoldable pub remove_suffix : Text → Text → Text
unfolding ends_with
remove_suffix s t = if ends_with s t then take (length t - length s) t else t

-- `str.isspace` of one character.
unfoldable pub is_space : ℕ → Bool
is_space c =
    (leb 9 c && leb c 13)
    || (leb 28 c && leb c 32)
    || c == 0x85
    || c == 0xa0
    || c == 0x1680
    || (leb 0x2000 c && leb c 0x200a)
    || c == 0x2028
    || c == 0x2029
    || c == 0x202f
    || c == 0x205f
    || c == 0x3000

-- `t.lstrip()`
unfoldable pub lstrip : Text → Text
unfolding is_space
lstrip [] = []
lstrip (c ∷ t) = let rest = lstrip t in if is_space c then rest else c ∷ t

-- `t.rstrip()`
unfoldable pub rstrip : Text → Text
unfolding is_space
rstrip [] = []
rstrip (c ∷ t) = let rest = rstrip t in if is_space c && is_empty rest then [] else c ∷ rest

-- `t.strip()`
unfoldable pub strip : Text → Text
unfolding lstrip rstrip
strip t = rstrip (lstrip t)

pub text_eq_iff : (s t : Text) → (text_eq s t ≡ true) ↔ (s ≡ t)
unfolding text_eq
text_eq_iff [] [] = ((λ _. refl), (λ _. refl))
text_eq_iff [] (c ∷ t) = ((λ h. cc), (λ h. cc))
text_eq_iff (b ∷ s) [] = ((λ h. cc), (λ h. cc))
text_eq_iff (b ∷ s) (c ∷ t) = ground (arith, text_eq_iff s t)

pub text_eq_refl : (s : Text) → text_eq s s ≡ true
text_eq_refl s = (text_eq_iff s s).1 refl

pub starts_with-append : (p t : Text) → starts_with p (p ++ t) ≡ true
unfolding starts_with
starts_with-append [] t = refl
starts_with-append (c ∷ p) t = ground (arith, starts_with-append p t)

pub remove_prefix-append : (p t : Text) → remove_prefix p (p ++ t) ≡ t
unfolding remove_prefix
remove_prefix-append p t = rw (starts_with-append p t) (drop-append p t)

length-sub : (t s : Text) → length (t ++ s) - length s ≡ length t
length-sub t s = omega (arith, length-append t s)

suffix_fits : (t s : Text) → leb (length s) (length (t ++ s)) ≡ true
suffix_fits t s = ground (arith, length-append t s)

pub remove_suffix-append : (s t : Text) → remove_suffix s (t ++ s) ≡ t
unfolding remove_suffix
remove_suffix-append s t =
    rw (suffix_fits t s, length-sub t s, drop-append t s, text_eq_refl s) (take-append t s)

abbrev pub Visible : Text → Type 0
Visible = All (λ c. is_space c ≡ false)

pub strip_of_Visible : (t : Text) → Visible t → strip t ≡ t
unfolding strip
strip_of_Visible [] h = refl
strip_of_Visible (c ∷ t) h = rw (h.0, lstrip) (rstrip_of_Visible (c ∷ t) h)
  where
    rstrip_of_Visible : (u : Text) → Visible u → rstrip u ≡ u
    rstrip_of_Visible [] k = refl
    rstrip_of_Visible (d ∷ u) k = rw (k.0, rstrip) (ap (◌∷◌ d) (rstrip_of_Visible u k.1))
