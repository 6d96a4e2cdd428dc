-- ===== src/RetentionApi/Validation.antt =====
-- Which retention policies a client may set.
use meeting_mgr.Base.{◌≤◌, ◌≡◌, refl, ◌⊎◌, inl, inr, Option, none, some, arith, ltb, Bool-cases}
use meeting_mgr.Base.Decimal.{ℤ, pos, negsuc}
use meeting_mgr.Db.State.{World, ok, err}
use meeting_mgr.RetentionApi.{RetentionPolicyIn, days_of, unprocessable, validate}

-- A day count is not negative.
abbrev pub IsCount : Option ℤ → Type 0
IsCount (some (negsuc n)) = ⊥
IsCount _ = Unit

-- The audio goes no later than the Meeting, where both have a day count.
abbrev pub IsOrdered : Option ℤ → Option ℤ → Type 0
IsOrdered (some (pos audio_days)) (some (pos meeting_days)) = audio_days ≤ meeting_days
IsOrdered _ _ = Unit

abbrev pub IsLegal : RetentionPolicyIn → Type 0
IsLegal body =
    IsCount body.audio_retention_days
    × IsCount body.meeting_retention_days
    × IsOrdered body.audio_retention_days body.meeting_retention_days

-- The verdict on a policy.
abbrev pub IsJudged : RetentionPolicyIn → World → Type 0
IsJudged body w =
    (IsLegal body
      × (validate body w
          ≡ (ok (days_of body.audio_retention_days, days_of body.meeting_retention_days), w)))
    ⊎ ((¬ IsLegal body) × (validate body w ≡ (err unprocessable, w)))

-- The validator passes a policy exactly if neither day count is negative and, where both are set,
-- the audio goes no later than the Meeting; the counts that it passes on are those sent, and every
-- other policy gets an error; nothing is changed.
pub validate_decides :
    (audio_days meeting_days : Option ℤ) (w : World)
    → IsJudged
        (record { audio_retention_days = audio_days; meeting_retention_days = meeting_days })
        w
unfolding validate
validate_decides (some (negsuc a)) m w = inr (λ l. l.0, refl)
validate_decides none (some (negsuc m)) w = inr (λ l. l.1, refl)
validate_decides (some (pos a)) (some (negsuc m)) w = inr (λ l. l.1, refl)
validate_decides none none w = inl ((tt, tt, tt), refl)
validate_decides none (some (pos m)) w = inl ((tt, tt, tt), refl)
validate_decides (some (pos a)) none w = inl ((tt, tt, tt), refl)
validate_decides (some (pos a)) (some (pos m)) w = elim (Bool-cases (ltb m a)) [
  | inl e ↦ inr (λ l. ground (arith, e, l.2), ground (arith, e))
  | inr e ↦ inl ((tt, tt, ground (arith, e)), ground (arith, e))
]
