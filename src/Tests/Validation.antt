-- ===== src/Tests/Validation.antt =====
-- Calls of the C++ interface: formats and types of arguments on which the theorems about their
-- validation are run.
use mini_async_log_c.Common.{ℕ, ◌≡◌, ◌≢◌, refl, true, none, List, [], ◌∷◌, arith}
use mini_async_log_c.Serial.Values.{LogArgument, vdouble, vstrref, type_double, type_strref}
use mini_async_log_c.EntryParser.Types.{lit}
use mini_async_log_c.EntryParser.Text.{parse_text}
use mini_async_log_c.EntryParser.Text.Render.{Format, plain, place, written, IsFormat}
use mini_async_log_c.Validation.{
  success, success_with_refs, code, get_code, validate, validate_references,
}
use mini_async_log_c.Validation.Modifiers.Integral
use mini_async_log_c.Validation.LoggedTypes.{
  LoggedType, builtin, double, uint32, malc_strref, malc_refdtor,
}
use mini_async_log_c.Validation.Sound.{printed_types, Accepts, validate-Reads}
use mini_async_log_c.Validation.Exact.{verdict, validate-verdict}
use mini_async_log_c.Validation.Printed.{
  printed, parse_text-validated, parse_text-validated_returns,
}
use mini_async_log_c.Tests.EntryParser.{plain_out, no_tables, parser}

-- A call with a number, a text by reference and its destructor.
abbrev pub call_types : List LoggedType
call_types = builtin double ∷ malc_strref ∷ malc_refdtor ∷ []

abbrev pub call_format : List ℕ
call_format = lit "{{a{+8.3} b{}"

abbrev call_args : List (ℕ × LogArgument)
call_args = (type_double, vdouble 5) ∷ (type_strref, vstrref 1 2) ∷ []

validates : get_code (validate call_types call_format) ≡ code success
unfolding validate get_code
validates = refl

call_references : get_code (validate_references call_types) ≡ code success_with_refs
unfolding validate_references get_code
call_references = refl

-- A digit behind the 'w' of a precision is accepted.
digit_after_w : Integral.validate (lit ".w1") ≡ true
unfolding Integral.validate
digit_after_w = refl

validate-Reads_example :
    (f : Format) × IsFormat f × (written f ≡ call_format) × Accepts f (printed_types call_types)
validate-Reads_example = validate-Reads call_types call_format (omega arith) validates

parse_text-validated_example :
    (f : Format) × IsFormat f
    × (written f ≡ call_format)
    × (parse_text plain_out no_tables call_format call_args parser
        ≡ printed plain_out no_tables f call_args (record parser { str = [] }))
parse_text-validated_example =
    parse_text-validated plain_out no_tables call_types call_format call_args parser (omega arith)
      validates (refl, (refl, tt))

parse_text-validated_returns_example :
    parse_text plain_out no_tables call_format call_args parser ≢ none
parse_text-validated_returns_example =
    parse_text-validated_returns plain_out no_tables call_types call_format call_args parser
      (omega arith) validates (refl, (refl, tt)) (refl, (refl, tt))

-- "x{#y}": modifiers that a number does not accept.
abbrev bad_format : Format
bad_format = place (lit "x") (lit "#y") (plain [])

validate-verdict_example :
    validate (builtin uint32 ∷ []) (written bad_format) ≡ verdict 1 (builtin uint32 ∷ []) bad_format
validate-verdict_example = validate-verdict (builtin uint32 ∷ []) bad_format (
  ((λ e. absurd (omega arith)), tt),
  (
    (
      ((λ e. absurd (omega arith)), (λ e. absurd (omega arith))),
      (((λ e. absurd (omega arith)), (λ e. absurd (omega arith))), tt),
    ),
    tt,
  ),
)
