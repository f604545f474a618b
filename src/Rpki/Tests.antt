-- ===== src/Rpki/Tests.antt =====
-- Runs of the validator, and the theorems at concrete inputs.
use pathforge.Base.{◌≡◌, [], ◌∷◌, none, some, arith, ◌==◌, checked, wrapping, refl}
use pathforge.Rpki.{
  Roa, RovState, RpkiValidator, loose, not_found, covers, validate, covering, judge,
}
use pathforge.Rpki.Origin.{IsUsual, IsVerdict, validate-IsVerdict, covers_default}

-- 10.0.0.0/8 up to /24, for AS 65001.
abbrev office : Roa
office = record { prefix = 0x0A00_0000; prefix_len = 8; max_length = 24; origin_as = 65001 }

abbrev table : RpkiValidator
table = record { mode = loose; roas = office ∷ [] }

office-IsUsual : IsUsual office
office-IsUsual = record { len_lo = omega arith; len_hi = omega arith; prefix_u32 = omega arith }

validate-IsVerdict_example :
    (state : RovState) × (validate checked table 0x0A01_0000 16 65002 ≡ some state)
    × IsVerdict table 0x0A01_0000 16 65002 state
validate-IsVerdict_example =
    validate-IsVerdict checked table 0x0A01_0000 16 65002 (office-IsUsual, tt) (omega arith)

-- A length above the maximum is not found, and not invalid as the comment of the file has it.
longer_run : validate checked table 0x0A01_0000 25 65001 ≡ some not_found
unfolding validate covering covers judge
longer_run = refl

abbrev everywhere : Roa
everywhere = record { prefix = 0; prefix_len = 0; max_length = 32; origin_as = 65001 }

covers_default_example :
    (covers checked everywhere 0x0A00_0000 8 ≡ none)
    × (covers wrapping everywhere 0x0A00_0000 8 ≡ some (0 == 0x0A00_0000))
covers_default_example =
    covers_default everywhere 0x0A00_0000 8 refl (omega arith) (omega arith) (omega arith)
