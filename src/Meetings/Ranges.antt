-- ===== src/Meetings/Ranges.antt =====
-- Which Range headers reach the storage.
use meeting_mgr.Base.{
  ℕ, ◌≡◌, refl, sym, ap, ◌∙◌, subst, ◌⊎◌, inl, inr, Bool, true, false, not, ◌&&◌, ◌||◌, Option,
  none, some, [], ◌∷◌, ◌++◌, arith, ◌==◌, if◌then◌else◌, ==_iff, Bool-cases, length, drop, any,
  is_empty,
}
use meeting_mgr.Base.Text.{
  Text, codes, starts_with, remove_prefix, starts_with-append, remove_prefix-append,
}
use meeting_mgr.Meetings.Audio.{is_bytes_range, bytes_mark, valid_range}
use meeting_mgr.Auth.Password.{partition}
use meeting_mgr.BotCredentials.Bearer.{is_digit_char, isdigit}

-- bytes=<digits>-<digits>, where the second digits may be missing.
abbrev pub IsBytesRange : Text → Type 0
IsBytesRange header =
    (start_s : Text) × (end_s : Text) × (header ≡ codes "bytes=" ++ (start_s ++ b'-' ∷ end_s))
    × (isdigit start_s ≡ true)
    × ((end_s ≡ []) ⊎ (isdigit end_s ≡ true))

partition_joins :
    (sep : ℕ) (t : Text)
    → (partition sep t).1 ≡ true
    → t ≡ (partition sep t).0 ++ sep ∷ (partition sep t).2
unfolding partition
partition_joins sep [] h = cc h
partition_joins sep (c ∷ t) h = elim (Bool-cases (c == sep)) [
  | inl e ↦ rw e (ap (λ d. d ∷ t) ((==_iff c sep).0 e))
  | inr e ↦ rw e (ap (◌∷◌ c) (partition_joins sep t (ground (arith, e, h))))
]

partition_at :
    (start_s end_s : Text)
    → any (λ c. not (is_digit_char c)) start_s ≡ false
    → partition b'-' (start_s ++ b'-' ∷ end_s) ≡ (start_s, true, end_s)
unfolding partition
partition_at [] end_s h = refl
partition_at (c ∷ start_s) end_s h =
    rw (no_dash c (ground (arith, h)), partition_at start_s end_s (ground (arith, h))) refl
  where
    no_dash : (c : ℕ) → is_digit_char c ≡ true → (c == b'-') ≡ false
    no_dash c e = ground (arith, e)

starts_with-drop : (p t : Text) → starts_with p t ≡ true → t ≡ p ++ drop (length p) t
unfolding starts_with
starts_with-drop [] t h = refl
starts_with-drop (b ∷ p) [] h = cc h
starts_with-drop (b ∷ p) (c ∷ t) h = ground (arith, h, ==_iff b c, starts_with-drop p t)

prefix_joins : (p t : Text) → starts_with p t ≡ true → t ≡ p ++ remove_prefix p t
unfolding remove_prefix
prefix_joins p t h = rw h (starts_with-drop p t h)

all_digits : (t : Text) → isdigit t ≡ true → any (λ c. not (is_digit_char c)) t ≡ false
unfolding isdigit
all_digits t h = ground (arith, h)

end_cases : (t : Text) → (is_empty t || isdigit t) ≡ true → (t ≡ []) ⊎ (isdigit t ≡ true)
end_cases [] h = inl refl
end_cases (c ∷ t) h = inr h

accepted :
    (header : Text)
    → starts_with bytes_mark header ≡ true
    → is_bytes_range (partition b'-' (remove_prefix bytes_mark header)) ≡ true
    → IsBytesRange header
accepted header h k =
    let t = remove_prefix bytes_mark header in
    let parts = partition b'-' t in
    (
      parts.0,
      parts.2,
      prefix_joins bytes_mark header h
          ∙ ap (λ u. bytes_mark ++ u) (partition_joins b'-' t (ground (arith, k))),
      ground (arith, k),
      end_cases parts.2 (ground (arith, k)),
    )

is_accepted :
    (start_s end_s : Text)
    → isdigit start_s ≡ true
    → (end_s ≡ []) ⊎ (isdigit end_s ≡ true)
    → let header = codes "bytes=" ++ (start_s ++ b'-' ∷ end_s) in
      valid_range (some header) ≡ some header
unfolding valid_range
is_accepted start_s end_s h k =
    let t = start_s ++ b'-' ∷ end_s in
    let ends : (is_empty end_s || isdigit end_s) ≡ true = elim k [
      | inl e ↦ ap (λ u. is_empty u || isdigit u) e
      | inr e ↦ ground (arith, e)
    ] in
    let joined : is_bytes_range (start_s, true, end_s) ≡ true = ground (arith, h, ends) in
    let whole_header : Bool → Text → Option Text =
      λ b u. if b && is_bytes_range (partition b'-' u) then some (bytes_mark ++ t) else none in
    ap (λ b. whole_header b (remove_prefix bytes_mark (bytes_mark ++ t)))
      (starts_with-append bytes_mark t)
    ∙ ap (whole_header true) (remove_prefix-append bytes_mark t)
    ∙ ap (λ p. if is_bytes_range p then some (bytes_mark ++ t) else none)
        (partition_at start_s end_s (all_digits start_s h))
    ∙ ap (λ b. if b then some (bytes_mark ++ t) else none) joined

-- A Range header is passed on as it is exactly if it reads bytes=, digits, a dash and then nothing
-- or digits; of any other header nothing is passed on.
pub valid_range_decides :
    (header : Text)
    → ((valid_range (some header) ≡ some header) × IsBytesRange header)
      ⊎ ((valid_range (some header) ≡ none) × ¬ IsBytesRange header)
unfolding valid_range
valid_range_decides header =
    let t = remove_prefix bytes_mark header in
    elim (Bool-cases (starts_with bytes_mark header && is_bytes_range (partition b'-' t))) [
      | inl e ↦ inl (
        ap (λ b. if b then some header else none) e,
        accepted header (ground (arith, e)) (ground (arith, e)),
      )
      | inr e ↦
          let dropped : valid_range (some header) ≡ none =
            ap (λ b. if b then some header else none) e in
          inr (
            dropped,
            λ (start_s, end_s, same, h, k). clash header (
                sym dropped
                ∙ subst (λ u. valid_range (some u) ≡ some u) (sym same)
                    (is_accepted start_s end_s h k)),
          )
    ]
  where
    clash : (u : Text) → none ≡ some u → ⊥
    clash u h = cc h
