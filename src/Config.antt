-- ===== src/Config.antt =====
-- include/Config.h and src/Config.cpp: durations, samplers and parameter files as text. An exception
-- is an error with the text or line that it names.
pub mod Durations
pub mod DurationTexts
pub mod Blanks
pub mod Samplers
pub mod Lines
pub mod Files
pub mod Scanning
use nqbook.Prelude.{
  ℕ, suc, ◌*◌, ◌^◌, Bool, true, false, not, ◌&&◌, ◌||◌, List, [], ◌∷◌, Option, none, some, leb, ltb,
  ◌==◌, if◌then◌else◌,
}
use nqbook.Prelude.Int.{ℤ, pos, negsuc, pos_part, ◌-ℤ◌, leb_ℤ, int64}
use nqbook.Prelude.Outcome.{Result, ok, err, ◌>>=◌, ◌>>◌, guard, require}
use nqbook.Prelude.Text.{Text, codes, is_nil, eq_text, split_at, span_digits, number}
use nqbook.Feature.Sampler.{Trigger, on_time, on_events, on_trades, SamplerSpec, spec_of}

-- std::invalid_argument, with what its message names
pub data ConfigError : Type 0 where
  no_digits no_unit not_positive bad_sampler bad_count bad_trigger : Text → ConfigError
  no_file : ConfigError
  bad_line : ℕ → ConfigError

-- std::from_chars on an int64_t that is 0: the value, the rest of the text, and whether it succeeds
unfoldable pub from_chars : Text → ℤ × Text × Bool
from_chars s =
    let minus : Bool = elim s [ [] ↦ false | c ∷ t ↦ c == b'-' ] in
    let body : Text = elim s [ [] ↦ [] | c ∷ t ↦ if c == b'-' then t else c ∷ t ] in
    let (ds, rest) = span_digits body in
    let n = number 0 ds in
    if is_nil ds
    then (pos 0, s, false)
    else if minus
    then if leb n (2 ^ 63) then (pos 0 -ℤ pos n, rest, true) else (pos 0, rest, false)
    else if ltb n (2 ^ 63)
    then (pos n, rest, true)
    else (pos 0, rest, false)

-- ParseCount
unfoldable pub parse_count : Text → Result ConfigError ℤ
parse_count text =
    let (value, rest, success) = from_chars text in
    if success && is_nil rest
    then if leb_ℤ value (pos 0) then err (bad_count text) else ok value
    else err (bad_count text)

unfoldable pub unit_scale : Text → Option ℕ
unit_scale u =
    if eq_text u (codes "ns")
    then some 1
    else if eq_text u (codes "us")
    then some 1000
    else if eq_text u (codes "ms")
    then some 1000000
    else if eq_text u (codes "s")
    then some 1000000000
    else if eq_text u (codes "m")
    then some 60000000000
    else if eq_text u (codes "h")
    then some 3600000000000
    else none

-- ParseDuration. The product is one of int64_t, whose overflow is undefined; it wraps here, as the
-- machine's product does.
unfoldable pub parse_duration : Text → Result ConfigError ℤ
parse_duration text = do
  let (ds, unit) = span_digits text
  guard (not (is_nil ds)) (no_digits text)
  let value = (from_chars ds).0
  scale ← require (no_unit text) (unit_scale unit)
  guard (not (leb_ℤ value (pos 0))) (not_positive text)
  ok (int64 (pos_part value * scale))

-- SamplerSpec, with the name and the names of the columns
pub record NamedSpec : Type 0 where
  pub name : Text
  pub spec : SamplerSpec
  pub columns : List Text

unfoldable pub named_spec : Text → Trigger → ℤ → NamedSpec
named_spec name t every = record { name = name; spec = spec_of t every; columns = [] }

-- the part of ParseSamplerSpec behind the name
unfoldable pub parse_trigger : Text → Text → Text → Result ConfigError NamedSpec
parse_trigger name trigger every =
    if eq_text trigger (codes "time")
    then (do n ← parse_duration every; ok (named_spec name on_time n))
    else if eq_text trigger (codes "events")
    then (do n ← parse_count every; ok (named_spec name on_events n))
    else if eq_text trigger (codes "trades")
    then (do n ← parse_count every; ok (named_spec name on_trades n))
    else err (bad_trigger trigger)

-- ParseSamplerSpec
unfoldable pub parse_sampler_spec : Text → Result ConfigError NamedSpec
parse_sampler_spec text = do
  (name, rest) ← require (bad_sampler text) (split_at b'=' text)
  guard (not (is_nil name)) (bad_sampler text)
  (trigger, every) ← require (bad_sampler text) (split_at b':' rest)
  guard (not (is_nil trigger) && not (is_nil every)) (bad_sampler text)
  parse_trigger name trigger every

-- Trim: the loop over the front, then the loop over the back
unfoldable pub is_blank : ℕ → Bool
is_blank c = c == b' ' || c == 9 || c == 13

unfoldable pub trim_front : Text → Text
trim_front [] = []
trim_front (c ∷ s) = let rest = trim_front s in if is_blank c then rest else c ∷ s

unfoldable pub trim_back : Text → Text
trim_back [] = []
trim_back (c ∷ s) = let rest = trim_back s in if is_blank c && is_nil rest then [] else c ∷ rest

unfoldable pub trim : Text → Text
trim s = trim_back (trim_front s)

-- std::getline, over the bytes of a file
unfoldable pub get_lines : Text → List Text
get_lines [] = []
get_lines (c ∷ s) =
    let rest = get_lines s in
    if c == 10
    then [] ∷ rest
    else elim rest as (λ _. List Text) [ [] ↦ (c ∷ []) ∷ [] | l ∷ ls ↦ (c ∷ l) ∷ ls ]

abbrev pub KeyValues : Type 0
KeyValues = List (Text × Text)

-- an empty line, or a comment
unfoldable pub is_comment : Text → Bool
is_comment [] = true
is_comment (c ∷ s) = c == b'#'

-- the body of the loop of LoadParamsFile; `none` is a line that it skips
unfoldable pub parse_line : ℕ → Text → Result ConfigError (Option (Text × Text))
parse_line lineno line =
    let t = trim line in
    if is_comment t then ok none else (do
      (key, value) ← require (bad_line lineno) (split_at b'=' t)
      guard (not (is_nil key)) (bad_line lineno)
      ok (some (trim key, trim value)))

-- the pair of a line, in front of those of the later lines
abbrev pub prepend : Option (Text × Text) → KeyValues → KeyValues
prepend none kvs = kvs
prepend (some kv) kvs = kv ∷ kvs

unfoldable pub parse_lines : ℕ → List Text → Result ConfigError KeyValues
parse_lines lineno [] = ok []
parse_lines lineno (l ∷ ls) = do
  o ← parse_line (suc lineno) l
  kvs ← parse_lines (suc lineno) ls
  ok (prepend o kvs)

-- LoadParamsFile, on the bytes of the file if it opens
unfoldable pub load_params_file : Option Text → Result ConfigError KeyValues
load_params_file none = err no_file
load_params_file (some bytes) = parse_lines 0 (get_lines bytes)
