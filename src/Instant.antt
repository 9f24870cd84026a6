-- ===== src/Instant.antt =====
-- Times, as milliseconds since 1970, for `Date.now()` and for the ISO texts that `toISOString`
-- writes. Such a text has a year of four digits up to 9999, and from 10000 on a `+` with six
-- digits; `+` sorts before every digit, which is what a comparison of two texts by `<` sees.
use pinch.Prelude.{ℕ, ◌<◌, ◌≡◌, Bool, false, true, ltb, if◌then◌else◌, arith}

-- The first instant of the year 10000.
abbrev pub year_10000 : ℕ
year_10000 = 253_402_300_800_000

-- The last instant that a `Date` holds; beyond it `toISOString` throws a RangeError.
abbrev pub max_instant : ℕ
max_instant = 8_640_000_000_000_000

-- `a < b` on the ISO texts of two instants.
unfoldable pub iso_before : ℕ → ℕ → Bool
iso_before a b =
    if ltb a year_10000
    then (if ltb b year_10000 then ltb a b else false)
    else if ltb b year_10000
    then true
    else ltb a b

-- Up to the year 9999 the texts are ordered as the instants are.
pub iso_before-lt : (a b : ℕ) → a < year_10000 → b < year_10000 → iso_before a b ≡ ltb a b
unfolding iso_before
iso_before-lt a b h k = ground arith
