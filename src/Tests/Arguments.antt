-- ===== src/Tests/Arguments.antt =====
-- pintos/src/userprog/syscall.c: a string of three bytes at 1000, in memory below 8192.
use ospersonal.Common.{ℕ, ◌<◌, ◌≡◌, ◌↔◌, true, ltb, ◌==◌, if◌then◌else◌, arith}
use ospersonal.Validate.{UserMemory, validate_string}
use ospersonal.Validate.Strings.{IsString, validate_string-IsString}

abbrev low_memory : UserMemory
low_memory = record { present = λ a. ltb a 8192; byte = λ a. if a == 1003 then 0 else 65 }

validate_string-IsString_example :
    (validate_string low_memory 1000 ≡ true)
    ↔ ((len : ℕ) × (len < 512) × IsString low_memory 1000 len)
validate_string-IsString_example = validate_string-IsString low_memory 1000 (omega arith)
