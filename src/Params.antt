-- ===== src/Params.antt =====
-- shared/nqcppsdk/nq/params.hpp: the parameters of a plugin, written by ParamsBuilder and read by
-- Params. strtod is an argument, since doubles are a parameter.
pub mod Builder
pub mod Numbers
use nqbook.Prelude.{
  ℕ, suc, ◌+◌, ◌-◌, ◌*◌, ◌%◌, ◌^◌, Bool, true, false, not, ◌&&◌, ◌||◌, List, [], ◌∷◌, Option, none,
  some, length, take, map, leb, ltb, ◌==◌, if◌then◌else◌,
}
use nqbook.Prelude.Int.{ℤ, pos, ◌-ℤ◌}
use nqbook.Prelude.Outcome.{Result, ok, err, ◌>>=◌, ◌>>◌, guard, require}
use nqbook.Prelude.Text.{Text, codes, is_nil, eq_text, span_digits, number}
use nqbook.Config.{KeyValues}

-- std::invalid_argument, with the key that its message names
pub data ParamError : Type 0 where
  missing_param bad_int bad_double bad_bool : Text → ParamError

-- nq_kv and nq_params, with a null pointer as `none`; `kv` is the memory behind the pointer
pub record RawParams : Type 0 where
  pub symbol : Option Text
  pub tick_size : ℤ
  pub lot_size : ℤ
  pub price_scale : ℤ
  pub qty_scale : ℤ
  pub nkv : ℕ
  pub kv : List (Option Text × Option Text)

-- a string as its `c_str()` is read: up to the first null character
unfoldable pub c_str : Text → Text
c_str [] = []
c_str (c ∷ s) = let rest = c_str s in if c == 0 then [] else c ∷ rest

unfoldable pub text_or_empty : Option Text → Text
text_or_empty none = []
text_or_empty (some s) = s

unfoldable pub is_key : Text → Option Text → Bool
is_key key none = false
is_key key (some k) = eq_text key k

-- the loop of Get
unfoldable pub get_kv : List (Option Text × Option Text) → Text → Option Text
get_kv [] key = none
get_kv ((k, v) ∷ kvs) key =
    let later = get_kv kvs key in if is_key key k then some (text_or_empty v) else later

-- Params::Symbol
unfoldable pub params_symbol : RawParams → Text
params_symbol p = text_or_empty p.symbol

-- Params::Get
unfoldable pub get_param : RawParams → Text → Option Text
get_param p key = get_kv (take p.nkv p.kv) key

-- Params::Require
unfoldable pub require_param : RawParams → Text → Result ParamError Text
require_param p key = require (missing_param key) (get_param p key)

-- isspace
unfoldable pub is_space : ℕ → Bool
is_space c = c == b' ' || (leb 9 c && leb c 13)

unfoldable pub skip_space : Text → Text
skip_space [] = []
skip_space (c ∷ s) = let rest = skip_space s in if is_space c then rest else c ∷ s

-- the value of strtoll for digits with their sign, at the limits of a long long
unfoldable pub clamp_int : Bool → ℕ → ℤ
clamp_int minus n =
    if minus
    then if leb n (2 ^ 63) then pos 0 -ℤ pos n else pos 0 -ℤ pos (2 ^ 63)
    else if ltb n (2 ^ 63)
    then pos n
    else pos (2 ^ 63 - 1)

abbrev pub starts_with : ℕ → Text → Bool
starts_with c [] = false
starts_with c (d ∷ s) = d == c

abbrev pub rest_of : Text → Text
rest_of [] = []
rest_of (c ∷ s) = s

-- strtoll to the base 10: the value, and what `end` points to
unfoldable pub strtoll : Text → ℤ × Text
strtoll s =
    let t = skip_space s in
    let minus = starts_with b'-' t in
    let body = if minus || starts_with b'+' t then rest_of t else t in
    let (ds, rest) = span_digits body in
    if is_nil ds then (pos 0, s) else (clamp_int minus (number 0 ds), rest)

-- Params::ParseInt
unfoldable pub parse_int : Text → Text → Result ParamError ℤ
parse_int v key = do
  let (out, rest) = strtoll (c_str v)
  guard (not (is_nil v) && is_nil rest) (bad_int key)
  ok out

-- Params::GetInt
unfoldable pub get_int : RawParams → Text → ℤ → Result ParamError ℤ
get_int p key fallback = elim (get_param p key) [ none ↦ ok fallback | some v ↦ parse_int v key ]

-- Params::RequireInt
unfoldable pub require_int : RawParams → Text → Result ParamError ℤ
require_int p key = do v ← require_param p key; parse_int v key

-- Params::GetBool
unfoldable pub parse_bool : Text → Text → Result ParamError Bool
parse_bool v key =
    if eq_text v (codes "1") || (eq_text v (codes "true") || eq_text v (codes "yes"))
    then ok true
    else if eq_text v (codes "0") || (eq_text v (codes "false") || eq_text v (codes "no"))
    then ok false
    else err (bad_bool key)

unfoldable pub get_bool : RawParams → Text → Bool → Result ParamError Bool
get_bool p key fallback = elim (get_param p key) [ none ↦ ok fallback | some v ↦ parse_bool v key ]

module _ {V : Type 0} (strtod : Text → V × Text) where
  -- Params::ParseDouble
  unfoldable pub parse_double : Text → Text → Result ParamError V
  parse_double v key = do
    let (out, rest) = strtod (c_str v)
    guard (not (is_nil v) && is_nil rest) (bad_double key)
    ok out

  -- Params::GetDouble
  unfoldable pub get_double : RawParams → Text → V → Result ParamError V
  get_double p key fallback = elim (get_param p key) [
    | none ↦ ok fallback
    | some v ↦ parse_double v key
  ]

  -- Params::RequireDouble
  unfoldable pub require_double : RawParams → Text → Result ParamError V
  require_double p key = do v ← require_param p key; parse_double v key

pub record ParamsBuilder : Type 0 where
  pub symbol : Text
  pub tick_size : ℤ
  pub lot_size : ℤ
  pub price_scale : ℤ
  pub qty_scale : ℤ
  pub kv : KeyValues

unfoldable pub new_builder : ParamsBuilder
new_builder = record {
  symbol = [];
  tick_size = pos 1;
  lot_size = pos 1;
  price_scale = pos 1;
  qty_scale = pos 1;
  kv = [];
}

-- the setters of single fields
unfoldable pub set_symbol : ParamsBuilder → Text → ParamsBuilder
set_symbol b s = record b { symbol = s }

unfoldable pub set_tick_size : ParamsBuilder → ℤ → ParamsBuilder
set_tick_size b v = record b { tick_size = v }

unfoldable pub set_lot_size : ParamsBuilder → ℤ → ParamsBuilder
set_lot_size b v = record b { lot_size = v }

unfoldable pub set_price_scale : ParamsBuilder → ℤ → ParamsBuilder
set_price_scale b v = record b { price_scale = v }

unfoldable pub set_qty_scale : ParamsBuilder → ℤ → ParamsBuilder
set_qty_scale b v = record b { qty_scale = v }

-- the loop of Set
unfoldable pub set_kv : KeyValues → Text → Text → KeyValues
set_kv [] key value = (key, value) ∷ []
set_kv ((k, v) ∷ kvs) key value =
    if eq_text k key then (k, value) ∷ kvs else (k, v) ∷ set_kv kvs key value

-- ParamsBuilder::Set
unfoldable pub set_param : ParamsBuilder → Text → Text → ParamsBuilder
set_param b key value = record b { kv = set_kv b.kv key value }

-- the loop of Build
unfoldable pub raw_kv : KeyValues → List (Option Text × Option Text)
raw_kv [] = []
raw_kv ((k, v) ∷ kvs) = (some (c_str k), some (c_str v)) ∷ raw_kv kvs

-- ParamsBuilder::Build
unfoldable pub build : ParamsBuilder → RawParams
build b = record {
  symbol = some (c_str b.symbol);
  tick_size = b.tick_size;
  lot_size = b.lot_size;
  price_scale = b.price_scale;
  qty_scale = b.qty_scale;
  nkv = length b.kv % 2 ^ 32;
  kv = raw_kv b.kv;
}
