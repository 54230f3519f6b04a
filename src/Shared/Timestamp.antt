-- ===== src/Shared/Timestamp.antt =====
-- Dates as the source passes them: texts that `Date.parse` reads.
use Prim.Native.Nat.{ℕ, zero, suc, ◌+◌, ◌-◌, ◌*◌, ◌/◌, ◌%◌}
use gdm_platform.Common.{Text, text, Option, some, [], ◌∷◌, ◌++◌, if◌then◌else◌, ltb, ◌≡◌, refl}

-- A text with the milliseconds since 1970 that `Date.parse` gives for it; `none` stands for NaN.
-- Dates before 1970 are left out.
pub record Timestamp : Type 0 where
  pub text : Text
  pub time : Option ℕ

-- The last `n` decimal digits of a number.
abbrev pub padded : ℕ → ℕ → Text
padded zero n = []
padded (suc w) n = padded w (n / 10) ++ (n % 10 + 48) ∷ []

decimal_from : ℕ → ℕ → Text
decimal_from zero n = []
decimal_from (suc fuel) n =
    let rest = decimal_from fuel (n / 10) in
    if ltb n 10 then (n + 48) ∷ [] else rest ++ (n % 10 + 48) ∷ []

-- `String(n)` of an integer: a number has at most as many digits as its value plus one.
unfoldable pub decimal : ℕ → Text
unfolding decimal_from
decimal n = decimal_from (suc n) n

-- Year, month and day of a day number, by the 400-year cycle that begins on 1 March.
civil : ℕ → ℕ × ℕ × ℕ
civil days =
    let z = days + 719468 in
    let era = z / 146097 in
    let doe = z % 146097 in
    let yoe = (doe + doe / 36524 - doe / 1460 - doe / 146096) / 365 in
    let doy = doe + yoe / 100 - (365 * yoe + yoe / 4) in
    let mp = (5 * doy + 2) / 153 in
    let month = if ltb mp 10 then mp + 3 else mp - 9 in
    (yoe + era * 400 + (if ltb month 3 then 1 else 0), month, doy - (153 * mp + 2) / 5 + 1)

-- `new Date(ms).toISOString()` for the years up to 9999.
unfoldable pub iso_text : ℕ → Text
unfolding civil
iso_text ms =
    let (year, month, day) = civil (ms / 86400000) in
    padded 4 year
    ++ text "-"
    ++ padded 2 month
    ++ text "-"
    ++ padded 2 day
    ++ text "T"
    ++ padded 2 (ms / 3600000 % 24)
    ++ text ":"
    ++ padded 2 (ms / 60000 % 60)
    ++ text ":"
    ++ padded 2 (ms / 1000 % 60)
    ++ text "."
    ++ padded 3 (ms % 1000)
    ++ text "Z"

-- The date that `toISOString` writes parses to its own milliseconds.
abbrev pub to_iso : ℕ → Timestamp
to_iso ms = record { text = iso_text ms; time = some ms }

iso_text_example : iso_text 1772323199007 ≡ text "2026-02-28T23:59:59.007Z"
unfolding iso_text
iso_text_example = refl

decimal_example : decimal 1203 ≡ text "1203"
unfolding decimal
decimal_example = refl
