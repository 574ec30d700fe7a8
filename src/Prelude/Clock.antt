-- ===== src/Prelude/Clock.antt =====
-- Go's `time` package as the code uses it. A `time.Time` is a number of nanoseconds since the zero
-- time; a `time.Duration` is an integer of nanoseconds, which `Sub` saturates to 64 bits.
use docker_net_doctor.Prelude.{
  ℕ, ◌+◌, ◌-◌, ◌*◌, ◌≤◌, ◌<◌, ◌≡◌, min, arith, leb, if◌then◌else◌, true, false,
}
use docker_net_doctor.Prelude.Int.{ℤ, pos, negsuc, pos_part, neg_part, leb_ℤ}

-- 1<<63 - 1.
abbrev pub max_duration : ℕ
max_duration = 9223372036854775807

-- t.Sub(u).
unfoldable pub time_sub : ℕ → ℕ → ℤ
time_sub t u =
    if leb u t then pos (min (t - u) max_duration) else negsuc (min (u - t - 1) max_duration)

-- t.Add(d), for a result that is not before the zero time.
unfoldable pub time_add : ℕ → ℤ → ℕ
time_add t d = t + pos_part d - neg_part d

abbrev pub seconds : ℕ → ℕ
seconds n = n * 1000000000

-- A time that has not reached `u + d` is less than `d` after `u`.
pub time_sub-lt : (t u : ℕ) (d : ℕ) → t < u + d → leb_ℤ (pos d) (time_sub t u) ≡ false
unfolding time_sub
time_sub-lt t u d h = ground arith

-- Once `u + d` is reached, at least `d` has passed, for each duration of 64 bits.
pub time_sub-ge :
    (t u : ℕ) (d : ℕ) → d ≤ max_duration → u + d ≤ t → leb_ℤ (pos d) (time_sub t u) ≡ true
unfolding time_sub
time_sub-ge t u d m h = ground arith
