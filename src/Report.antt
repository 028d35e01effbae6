-- ===== src/Report.antt =====
-- src/Report.cpp: the strings of the JSON that `nqbook check` prints. The printing is left out.
pub mod Reading
use nqbook.Prelude.{ℕ, List, [], ◌∷◌, ◌++◌, ◌==◌, if◌then◌else◌}
use nqbook.Prelude.Text.{Text, codes}
use nqbook.Feature.Sampler.{Trigger, on_time, on_events, on_trades}

-- TriggerName
unfoldable pub trigger_name : Trigger → Text
trigger_name on_time = codes "time"
trigger_name on_events = codes "events"
trigger_name on_trades = codes "trades"

-- the `switch` of JsonString
unfoldable pub json_char : ℕ → Text
json_char c =
    if c == b'"'
    then b'\\' ∷ b'"' ∷ []
    else if c == b'\\'
    then b'\\' ∷ b'\\' ∷ []
    else if c == 10
    then b'\\' ∷ b'n' ∷ []
    else if c == 9
    then b'\\' ∷ b't' ∷ []
    else c ∷ []

-- the loop of JsonString
unfoldable pub json_chars : Text → Text
json_chars [] = []
json_chars (c ∷ s) = json_char c ++ json_chars s

-- JsonString
unfoldable pub json_string : Text → Text
json_string s = b'"' ∷ (json_chars s ++ b'"' ∷ [])
