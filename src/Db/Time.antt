-- ===== src/Db/Time.antt =====
-- `datetime` and `timedelta` in microseconds; a datetime counts from `datetime.min`.
use meeting_mgr.Base.{ℕ, ◌-◌, ◌*◌, ltb}
use meeting_mgr.Db.State.{overflow_error}
use meeting_mgr.Db.Action.{Action, pure, ◌>>◌, raise_if}

abbrev pub seconds : ℕ → ℕ
seconds n = n * 1000000

abbrev pub days : ℕ → ℕ
days n = n * 86400000000

-- The largest number of days that a `timedelta` holds.
abbrev pub max_days : ℕ
max_days = 999999999

-- `timedelta(days=n)`
unfoldable pub timedelta_days : ℕ → Action ℕ
timedelta_days n = do raise_if (ltb max_days n) overflow_error; pure (days n)

-- `now - delta`, which raises an OverflowError before `datetime.min`.
unfoldable pub minus : ℕ → ℕ → Action ℕ
minus now delta = do raise_if (ltb now delta) overflow_error; pure (now - delta)
