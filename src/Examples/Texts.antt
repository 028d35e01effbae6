-- ===== src/Examples/Texts.antt =====
-- The theorems on the texts of the command line, of parameter files and of plugins.
use nqbook.Prelude.{
  ◌-◌, ◌*◌, ◌^◌, ◌≡◌, refl, List, [], ◌∷◌, ◌++◌, some, none, arith, length, ltb, if◌then◌else◌,
}
use nqbook.Prelude.Int.{pos, negsuc, int64}
use nqbook.Prelude.Outcome.{ok}
use nqbook.Prelude.Text.{Text, codes, eq_text, has, digits, decimal}
use nqbook.Config.{
  KeyValues, parse_duration, parse_sampler_spec, load_params_file, is_comment, is_blank, trim_back,
}
use nqbook.Config.Durations.{minutes, hours, nanoseconds, unit_text, parse_duration-decimal}
use nqbook.Config.Samplers.{of_events, sampler_text, spec_for, parse_sampler_spec-text}
use nqbook.Config.Lines.{file_of, load_params_file-file_of}
use nqbook.Csv.{csv_names}
use nqbook.Csv.Reading.{read_names, read_names-csv_names}
use nqbook.Report.{json_string}
use nqbook.Report.Reading.{has_control, read_json, read_json-json_string}
use nqbook.Params.{new_builder, set_param, build, get_param, parse_int}
use nqbook.Params.Builder.{get_param-set_param}
use nqbook.Params.Numbers.{parse_int-decimal}

parse_duration-decimal_example :
    parse_duration (decimal 5 ++ unit_text minutes) ≡ ok (int64 (5 * nanoseconds minutes))
parse_duration-decimal_example = parse_duration-decimal 5 minutes (omega arith) (omega arith)

-- `5m` is three hundred seconds.
five_minutes : parse_duration (codes "5m") ≡ ok (pos 300000000000)
unfolding digits int64
five_minutes = parse_duration-decimal 5 minutes (omega arith) (omega arith)

-- A number of hours whose nanoseconds pass an int64_t is taken, as a negative time.
too_long : parse_duration (codes "9223372036854775807h") ≡ ok (negsuc 3599999999999)
unfolding digits int64
too_long = parse_duration-decimal 9223372036854775807 hours (omega arith) (omega arith)

abbrev fast : Text
fast = codes "fast"

parse_sampler_spec-text_example :
    parse_sampler_spec (sampler_text fast (of_events 100)) ≡ ok (spec_for fast (of_events 100))
unfolding has
parse_sampler_spec-text_example =
    parse_sampler_spec-text fast (of_events 100) refl refl (omega arith) (omega arith)

abbrev settings : KeyValues
settings = (codes "rate", codes "5 per s") ∷ (codes "seed", codes "42") ∷ []

load_params_file-file_of_example : load_params_file (some (file_of settings)) ≡ ok settings
unfolding has is_comment is_blank trim_back
load_params_file-file_of_example = load_params_file-file_of settings (
  record {
    key_ne_nil = refl;
    key_plain = refl;
    key_open = refl;
    key_flush = refl;
    key_line = refl;
    value_flush = refl;
    value_tight = refl;
    value_line = refl;
    key_tight = refl;
  },
  (
    record {
      key_ne_nil = refl;
      key_plain = refl;
      key_open = refl;
      key_flush = refl;
      key_line = refl;
      value_flush = refl;
      value_tight = refl;
      value_line = refl;
      key_tight = refl;
    },
    tt,
  ),
)

get_param-set_param_example :
    get_param (build (set_param new_builder (codes "seed") (codes "42"))) (codes "seed") ≡ (
      if eq_text (codes "seed") (codes "seed")
      then some (codes "42")
      else get_param (build new_builder) (codes "seed"))
unfolding new_builder has
get_param-set_param_example =
    get_param-set_param new_builder (codes "seed") (codes "42") (codes "seed") (omega arith) tt refl
      refl

-- One more than the greatest int64_t is read as that one.
parse_int-decimal_example :
    parse_int (decimal 9223372036854775808) (codes "seed")
    ≡ ok (pos (if ltb 9223372036854775808 (2 ^ 63) then 9223372036854775808 else 2 ^ 63 - 1))
parse_int-decimal_example = parse_int-decimal 9223372036854775808 (codes "seed")

-- a name with a comma and a quote, and one with a line break
abbrev names : List Text
names = codes "mid, \"fair\"" ∷ codes "bid\nask" ∷ []

read_names-csv_names_example :
    read_names (length names) (csv_names names ++ codes "7,ema") ≡ some (names, 10 ∷ codes "7,ema")
unfolding has
read_names-csv_names_example = read_names-csv_names names (codes "7,ema") (refl, (refl, tt))

-- a string with a bell character is refused
abbrev bell : Text
bell = 7 ∷ codes "\"x\""

read_json-json_string_example :
    read_json (json_string bell ++ codes ", 1")
    ≡ (if has_control bell then none else some (bell, codes ", 1"))
read_json-json_string_example = read_json-json_string bell (codes ", 1")
