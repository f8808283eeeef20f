-- ===== src/Codec.antt =====
-- node_discovery/private/src: wiring_endpoint_writer.c and wiring_endpoint_reader.c, the text that a
-- wiring endpoint is in etcd. A write outside a buffer is a fault.
pub mod Scanning
pub mod Storing
pub mod Loading
pub mod Overflow
pub mod RoundTrip
mod Tests
use node_wiring_secure.Base.{
  ℕ, zero, suc, ◌+◌, ◌-◌, Bool, true, false, CString, List, [], ◌∷◌, ◌++◌, Option, none, some,
  ◌>>=◌, if◌then◌else◌, ◌==◌, ◌||◌, ◌&&◌, length, ltb, take,
}
use node_wiring_secure.Celix.{Properties, Status, success, illegal_state}
use node_wiring_secure.Endpoint.{get, set}

-- WIRING_ENDPOINT_PROP_MAX_KEY_LENGTH and WIRING_ENDPOINT_PROP_MAX_VALUE_LENGTH
abbrev pub max_length : ℕ
max_length = 1024

-- MAX_VALUE_LENGTH of etcd.h
abbrev pub max_value_length : ℕ
max_value_length = 4096

-- A text and its terminating zero in a buffer of this size.
unfoldable pub fit : ℕ → CString → Option CString
fit size s = if ltb (length s) size then some s else none

-- '#', '!' and '='
unfoldable pub is_escaped : ℕ → Bool
is_escaped c = c == 35 || c == 33 || c == 61

-- The inner loops of wiringEndpoint_properties_store: a backslash before each of these characters.
unfoldable pub escape : CString → CString
escape [] = []
escape (c ∷ s) = let rest = escape s in if is_escaped c then 92 ∷ c ∷ rest else c ∷ rest

-- "%s=%s\n"
abbrev pub entry_text : CString → CString → CString
entry_text key value = key ++ (61 ∷ value ++ (10 ∷ []))

-- What snprintf writes when outStr is `position` bytes into the buffer: at most the room that is
-- left, less the terminating zero. Behind the end, the room as a size_t is no bound any more.
unfoldable pub print_at : ℕ → CString → Option CString
print_at position line =
    if ltb max_value_length position
    then none
    else some (take (max_value_length - position - 1) line)

-- The outer loop of wiringEndpoint_properties_store. The position grows by the length of the whole
-- line, also where the line is cut. A key is cut to its first bytes, a value is not.
unfoldable pub store_from : ℕ → Properties → Option CString
store_from position [] = some []
store_from position ((k, v) ∷ p) = do
  key ← fit max_length (escape (take max_length k))
  value ← fit max_length (escape v)
  let line = entry_text key value
  written ← print_at position line
  rest ← store_from (position + length line) p
  some (written ++ rest)

-- wiringEndpoint_properties_store, on a buffer that holds the text `before`: without properties it
-- stays as it is.
unfoldable pub store : CString → Properties → Option CString
store before [] = some before
store before (x ∷ p) = store_from 0 (x ∷ p)

-- Where `output` points to.
pub data Place : Type 0 where
  nowhere in_key in_value : Place

-- The variables of the loop over a line; outputPos is the length of the text at the place.
pub record Scan : Type 0 where
  pub place : Place
  pub key : CString
  pub value : CString
  pub after_backslash : Bool

abbrev pub blank_line : Scan
blank_line = record { place = nowhere; key = []; value = []; after_backslash = false }

-- ' ' and '\t'
unfoldable pub is_blank : ℕ → Bool
is_blank c = c == 32 || c == 9

-- '=', ':', '#' and '!'
unfoldable pub is_special : ℕ → Bool
is_special c = c == 61 || c == 58 || c == 35 || c == 33

-- output[outputPos++] = c
unfoldable pub put : ℕ → Scan → Option Scan
put c st = elim st.place [
  | nowhere ↦ none
  | in_key ↦
      if ltb (length st.key) max_length then some (record st { key = st.key ++ (c ∷ []) }) else none
  | in_value ↦
      if ltb (length st.value) max_length
      then some (record st { value = st.value ++ (c ∷ []) })
      else none
]

-- The text at the place, whose end outputPos is.
abbrev pub at_place : Scan → CString
at_place st = elim st.place [ nowhere ↦ [] | in_key ↦ st.key | in_value ↦ st.value ]

abbrev pub is_empty : CString → Bool
is_empty [] = true
is_empty (c ∷ s) = false

abbrev pub is_nowhere : Scan → Bool
is_nowhere st = elim st.place [ nowhere ↦ true | in_key ↦ false | in_value ↦ false ]

abbrev pub is_in_value : Scan → Bool
is_in_value st = elim st.place [ nowhere ↦ false | in_key ↦ false | in_value ↦ true ]

-- output = key, where it is NULL
abbrev pub enter : Scan → Scan
enter st = if is_nowhere st then record st { place = in_key } else st

-- The loop goes on, or the line is a comment.
pub data Step : Type 0 where
  go_on : Scan → Step
  comment : Step

unfoldable pub put_on : ℕ → Scan → Option Step
put_on c st = do st' ← put c st; some (go_on st')

-- The first separator ends the key.
unfoldable pub separate : Scan → Option Step
separate st = do
  key ← fit max_length st.key
  some (go_on (record st { place = in_value; value = [] }))

-- '=', ':', '#' or '!' without a backslash before it
unfoldable pub special : ℕ → Scan → Option Step
special c st =
    if c == 35 || c == 33
    then if is_empty (at_place st) then some comment else put_on c st
    else if is_in_value st
    then put_on c st
    else separate st

-- The three branches at the end of the loop over a line.
unfoldable pub take_in : ℕ → Scan → Option Step
take_in c st =
    if is_special c
    then if st.after_backslash
      then put_on c (record st { after_backslash = false })
      else special c st
    else if c == 92
    then (do
      st' ← if st.after_backslash then put 92 st else some st
      some (go_on (record st' { after_backslash = true })))
    else put_on c (record st { after_backslash = false })

-- One character. A blank before the key is passed over; a later one is put down here, and once more
-- in the last branch.
unfoldable pub step : ℕ → Scan → Option Step
step c st =
    if is_blank c
    then if is_nowhere st then some (go_on st) else (do st' ← put c st; take_in c st')
    else take_in c (enter st)

-- The loop over a line, and the terminating zero: `none` inside for a comment.
unfoldable pub scan_line : CString → Scan → Option (Option Scan)
scan_line [] st = do text ← fit max_length (at_place st); some (some st)
scan_line (c ∷ s) st = do
  next ← step c st
  elim next [ go_on st' ↦ scan_line s st' | comment ↦ some none ]

-- The end of a line: the first entry of a key stays.
unfoldable pub add_entry : (CString → CString) → Option Scan → Properties → Properties
add_entry trim none p = p
add_entry trim (some st) p = elim (get p (trim st.key)) [
  | none ↦ set p (trim st.key) (trim st.value)
  | some v ↦ p
]

-- strtok_r on "\n": the lines that are not empty.
abbrev pub token : CString → List CString
token [] = []
token (c ∷ s) = (c ∷ s) ∷ []

unfoldable pub tokens : CString → CString → List CString
tokens line [] = token line
tokens line (c ∷ s) =
    let more = tokens (line ++ (c ∷ [])) s in
    let fresh = tokens [] s in if c == 10 then token line ++ fresh else more

-- The loop over the lines.
unfoldable pub load_lines : (CString → CString) → List CString → Properties → Option Properties
load_lines trim [] p = some p
load_lines trim (line ∷ lines) p = do
  scanned ← scan_line line blank_line
  load_lines trim lines (add_entry trim scanned p)

-- wiringEndpoint_properties_load, with utils_stringTrim as `trim`. For a null pointer the status is
-- all there is.
unfoldable pub load :
    (CString → CString) → CString → Option Properties → Option (Status × Option Properties)
load trim text none = some (illegal_state, none)
load trim text (some p) = do p' ← load_lines trim (tokens [] text) p; some (success, some p')
