-- ===== src/Config/Lines.antt =====
-- src/Config.cpp: LoadParamsFile on written parameter files.
use nqbook.Prelude.{ℕ, suc, ◌≡◌, refl, ap, ◌∙◌, false, [], ◌∷◌, ◌++◌, some, arith, ◌==◌}
use nqbook.Prelude.Outcome.{ok}
use nqbook.Prelude.Text.{Text, is_nil, has, split_at-append}
use nqbook.Config.{
  KeyValues, is_blank, is_comment, trim, get_lines, parse_line, parse_lines, load_params_file,
}
use nqbook.Config.Blanks.{Flush, Tight, trim-Tight, trim_back_cons, append-Tight}

-- a pair that a line can hold
pub record Writable (key value : Text) : Type 0 where
  pub key_ne_nil : is_nil key ≡ false
  pub key_plain : has b'=' key ≡ false
  pub key_open : is_comment key ≡ false
  pub key_flush : Flush key
  pub key_line : has 10 key ≡ false
  pub value_flush : Flush value
  pub value_tight : Tight value
  pub value_line : has 10 value ≡ false
  pub key_tight : Tight key

abbrev pub AllWritable : KeyValues → Type 0
AllWritable [] = Unit {0}
AllWritable ((k, v) ∷ kvs) = Writable k v × AllWritable kvs

abbrev pub line_of : Text → Text → Text
line_of key value = key ++ b'=' ∷ value

abbrev pub file_of : KeyValues → Text
file_of [] = []
file_of ((k, v) ∷ kvs) = line_of k v ++ 10 ∷ file_of kvs

get_lines-append : (l s : Text) → has 10 l ≡ false → get_lines (l ++ 10 ∷ s) ≡ l ∷ get_lines s
unfolding get_lines has
get_lines-append [] s h = refl
get_lines-append (c ∷ l) s h =
    let here : (c == 10) ≡ false = ground arith in
    rw (here, get_lines-append l s (ground arith)) refl

has-line_of : (k v : Text) → has 10 k ≡ false → has 10 v ≡ false → has 10 (line_of k v) ≡ false
unfolding has
has-line_of [] v h g = g
has-line_of (c ∷ k) v h g = ground (arith, has-line_of k v)

Flush-line_of : (k v : Text) → Flush k → Flush (line_of k v)
unfolding is_blank
Flush-line_of [] v h = refl
Flush-line_of (c ∷ k) v h = h

is_comment-append : (k s : Text) → is_nil k ≡ false → is_comment (k ++ s) ≡ is_comment k
unfolding is_comment
is_comment-append [] s h = cc
is_comment-append (c ∷ k) s h = refl

trim-line_of : (k v : Text) → Writable k v → trim (line_of k v) ≡ line_of k v
unfolding is_blank
trim-line_of k v w =
    trim-Tight (line_of k v) (Flush-line_of k v w.key_flush)
      (append-Tight k (b'=' ∷ v) refl (trim_back_cons b'=' v refl ∙ ap (◌∷◌ b'=') w.value_tight))

parse_line-line_of :
    (n : ℕ) (k v : Text) → Writable k v → parse_line n (line_of k v) ≡ ok (some (k, v))
unfolding parse_line
parse_line-line_of n k v w = simp (
  trim-line_of k v w,
  is_comment-append k (b'=' ∷ v) w.key_ne_nil,
  w.key_open,
  split_at-append b'=' k v w.key_plain,
  w.key_ne_nil,
  trim-Tight k w.key_flush w.key_tight,
  trim-Tight v w.value_flush w.value_tight,
)

parse_lines-file_of :
    (n : ℕ) (kvs : KeyValues) → AllWritable kvs → parse_lines n (get_lines (file_of kvs)) ≡ ok kvs
unfolding parse_lines get_lines
parse_lines-file_of n [] all = refl
parse_lines-file_of n ((k, v) ∷ kvs) (w, all) =
    rw
      (
        get_lines-append (line_of k v) (file_of kvs) (has-line_of k v w.key_line w.value_line),
        parse_line-line_of (suc n) k v w,
        parse_lines-file_of (suc n) kvs all,
      )
      refl

-- A file with a line `key=value` for each pair is loaded to these pairs in their order, where the
-- keys and values have no blanks at their ends and no line breaks, and each key is not empty, has no
-- `=` and does not begin with `#`.
pub load_params_file-file_of :
    (kvs : KeyValues) → AllWritable kvs → load_params_file (some (file_of kvs)) ≡ ok kvs
unfolding load_params_file
load_params_file-file_of kvs all = parse_lines-file_of 0 kvs all
