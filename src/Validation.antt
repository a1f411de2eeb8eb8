-- ===== src/Validation.antt =====
-- include/malcpp/impl/compile_time_validation.hpp: what the C++ interface verifies of the format and of
-- the arguments of a log call when the call is compiled. Results of 16 and 32 bits are their patterns.
pub mod Literal
pub mod Modifiers
pub mod LoggedTypes
pub mod Report
pub mod Places
pub mod Characters
pub mod Codes
pub mod Sound
pub mod Exact
pub mod Floats
pub mod Printed
pub mod Compiles
pub mod References
pub mod Aligned
pub mod Delivered
use mini_async_log_c.Common.{
  ℕ, suc, ◌+◌, ◌*◌, ◌/◌, ◌%◌, ◌^◌, ◌-◌, bit_or, Bool, true, false, Option, none, some, List, [],
  ◌∷◌, if◌then◌else◌, not, leb, ltb, ◌==◌, drop,
}
use mini_async_log_c.Serial.Values.{type_error}
use Literal.{find, substr}
use LoggedTypes.{
  LoggedType, type_id, no_modifiers, validate_format_modifiers, is_refdtor, is_refvalue,
}

pub data Fmterr : Type 0 where
  success_with_refs success notfound invalid_modifiers excess_placeholders excess_arguments
        unclosed_lbracket missing_refdtor misplaced_refdtor repeated_refdtor excess_refdtor
        invalid_type :
      Fmterr

-- As an `int16_t`.
abbrev pub code : Fmterr → ℕ
code success_with_refs = 1
code success = 0
code notfound = 2 ^ 16 - 1
code invalid_modifiers = 2 ^ 16 - 2
code excess_placeholders = 2 ^ 16 - 3
code excess_arguments = 2 ^ 16 - 4
code unclosed_lbracket = 2 ^ 16 - 5
code missing_refdtor = 2 ^ 16 - 6
code misplaced_refdtor = 2 ^ 16 - 7
code repeated_refdtor = 2 ^ 16 - 8
code excess_refdtor = 2 ^ 16 - 9
code invalid_type = 2 ^ 16 - 10

-- `fmtret`
abbrev pub valbits : ℕ
valbits = 16

-- The conversion of an `int16_t` to `unsigned`.
abbrev pub to_unsigned : ℕ → ℕ
to_unsigned c = if ltb c (2 ^ 15) then c else c + (2 ^ 32 - 2 ^ 16)

unfoldable pub make : Fmterr → ℕ → ℕ
make e arg = bit_or arg (to_unsigned (code e) * 2 ^ valbits % 2 ^ 32)

unfoldable pub get_code : ℕ → ℕ
get_code v = v / 2 ^ valbits % 2 ^ 16

unfoldable pub get_arg : ℕ → ℕ
get_arg v = v % 2 ^ valbits

-- What `validate_next` returns: the position behind a placeholder, or an error.
pub data Next : Type 0 where
  behind : ℕ → Next
  error : Fmterr → Next

-- From the characters that are left, and the position.
unfoldable pub find_lbracket : List ℕ → ℕ → Bool → Option ℕ
find_lbracket [] pos prev = if prev then some pos else none
find_lbracket (c ∷ rest) pos prev =
    let escaped = find_lbracket rest (suc pos) false in
    let next = find_lbracket rest (suc pos) (c == b'{') in
    if prev then (if not (c == b'{') then some pos else escaped) else next

abbrev pub find_rbracket : List ℕ → ℕ → Option ℕ
find_rbracket l pos = find b'}' (drop pos l) pos

abbrev pub validate_next_step3_validation : ℕ → Bool → Next
validate_next_step3_validation end true = behind (end + 1)
validate_next_step3_validation end false = error invalid_modifiers

-- The first argument is `validate_format_modifiers` of the type.
abbrev pub validate_next_step2_rbracket : (List ℕ → Bool) → List ℕ → ℕ → Option ℕ → Next
validate_next_step2_rbracket valid l beg none = error unclosed_lbracket
validate_next_step2_rbracket valid l beg (some end) =
    validate_next_step3_validation end (valid (substr l beg end))

abbrev pub validate_next_step1_lbracket : (List ℕ → Bool) → List ℕ → Option ℕ → Next
validate_next_step1_lbracket valid l none = error notfound
validate_next_step1_lbracket valid l (some beg) =
    validate_next_step2_rbracket valid l beg (find_rbracket l beg)

unfoldable pub validate_next : (List ℕ → Bool) → List ℕ → Next
unfolding find_lbracket find substr
validate_next valid l = validate_next_step1_lbracket valid l (find_lbracket l 0 false)

-- `format_string`. What an error behind the last argument means.
unfoldable pub process_last_error : ℕ → Next → ℕ
unfolding make
process_last_error n (behind end) = make excess_placeholders n
process_last_error n (error notfound) = make success n
process_last_error n (error unclosed_lbracket) = make unclosed_lbracket n
process_last_error n (error _) = make excess_placeholders n

-- With the rest of the validation, from the position at which it goes on.
unfoldable pub verify_next : ℕ → ℕ → (ℕ → ℕ) → Next → ℕ
unfolding make
verify_next n litpos go_on (behind end) = go_on (litpos + end)
verify_next n litpos go_on (error notfound) = make excess_arguments n
verify_next n litpos go_on (error e) = make e n

-- `iterate` and `consume`: the arguments from the one of number `n`, and the format from `litpos`.
unfoldable pub iterate : ℕ → List LoggedType → List ℕ → ℕ → ℕ
unfolding validate_next validate_format_modifiers process_last_error verify_next make
iterate n [] l litpos = process_last_error n (validate_next no_modifiers (drop litpos l))
iterate n (t ∷ types) l litpos =
    let go_on = iterate (suc n) types l in
    if is_refdtor t
    then go_on litpos
    else if type_id t == type_error
    then make invalid_type n
    else verify_next n litpos go_on (validate_next (validate_format_modifiers t) (drop litpos l))

unfoldable pub validate : List LoggedType → List ℕ → ℕ
unfolding iterate
validate types l = iterate 1 types l 0

-- `refvalues`: the counts of references and of destructors, and whether the last argument is one.
unfoldable pub do_validate : List LoggedType → ℕ → ℕ → Bool → ℕ
unfolding make
do_validate [] reftypes dtors dtorlast =
    if ltb 0 dtors
    then (if reftypes == 0
        then make excess_refdtor 0
        else if dtors == 1
        then (if dtorlast then make success_with_refs 0 else make misplaced_refdtor 0)
        else make repeated_refdtor 0)
    else if reftypes == 0
    then make success 0
    else make missing_refdtor 0
do_validate (t ∷ types) reftypes dtors dtorlast =
    do_validate types (if is_refvalue t then reftypes + 1 else reftypes)
      (if is_refdtor t then dtors + 1 else dtors) (is_refdtor t)

unfoldable pub validate_references : List LoggedType → ℕ
unfolding do_validate
validate_references types = do_validate types 0 0 false
