-- ===== src/Validation/Codes.antt =====
-- `fmtret` of include/malcpp/impl/compile_time_validation.hpp: a result of the validation is read as it
-- was made.
use mini_async_log_c.Common.{ℕ, ◌+◌, ◌-◌, ◌*◌, ◌^◌, ◌<◌, ◌≡◌, arith}
use mini_async_log_c.Common.Bits.{bit_or_fields}
use mini_async_log_c.Validation.{
  Fmterr, success_with_refs, success, notfound, invalid_modifiers, excess_placeholders,
  excess_arguments, unclosed_lbracket, missing_refdtor, misplaced_refdtor, repeated_refdtor,
  excess_refdtor, invalid_type, code, make, get_code, get_arg,
}

make_fields : (e : Fmterr) (arg : ℕ) → arg < 2 ^ 16 → make e arg ≡ arg + code e * 2 ^ 16
unfolding make
make_fields success_with_refs arg h = bit_or_fields 16 arg 1 h
make_fields success arg h = bit_or_fields 16 arg 0 h
make_fields notfound arg h = bit_or_fields 16 arg (2 ^ 16 - 1) h
make_fields invalid_modifiers arg h = bit_or_fields 16 arg (2 ^ 16 - 2) h
make_fields excess_placeholders arg h = bit_or_fields 16 arg (2 ^ 16 - 3) h
make_fields excess_arguments arg h = bit_or_fields 16 arg (2 ^ 16 - 4) h
make_fields unclosed_lbracket arg h = bit_or_fields 16 arg (2 ^ 16 - 5) h
make_fields missing_refdtor arg h = bit_or_fields 16 arg (2 ^ 16 - 6) h
make_fields misplaced_refdtor arg h = bit_or_fields 16 arg (2 ^ 16 - 7) h
make_fields repeated_refdtor arg h = bit_or_fields 16 arg (2 ^ 16 - 8) h
make_fields excess_refdtor arg h = bit_or_fields 16 arg (2 ^ 16 - 9) h
make_fields invalid_type arg h = bit_or_fields 16 arg (2 ^ 16 - 10) h

code_small : (e : Fmterr) → code e < 2 ^ 16
code_small success_with_refs = omega arith
code_small success = omega arith
code_small notfound = omega arith
code_small invalid_modifiers = omega arith
code_small excess_placeholders = omega arith
code_small excess_arguments = omega arith
code_small unclosed_lbracket = omega arith
code_small missing_refdtor = omega arith
code_small misplaced_refdtor = omega arith
code_small repeated_refdtor = omega arith
code_small excess_refdtor = omega arith
code_small invalid_type = omega arith

pub get_code-make : (e : Fmterr) (arg : ℕ) → arg < 2 ^ 16 → get_code (make e arg) ≡ code e
unfolding get_code
get_code-make e arg h = rw (make_fields e arg h) (omega (arith, h, code_small e))

pub get_arg-make : (e : Fmterr) (arg : ℕ) → arg < 2 ^ 16 → get_arg (make e arg) ≡ arg
unfolding get_arg
get_arg-make e arg h = rw (make_fields e arg h) (omega (arith, h, code_small e))
