-- ===== src/Heaven/EventLog.antt =====
-- heaven/eventlog.go. A file is its bytes, and `none` is a file that is not there. The outcome of a
-- write is the argument `written`; a write that fails leaves the file as it was.
pub mod ReadBack
use genesis_ssmp.Base.{
  ℕ, ◌+◌, ◌-◌, Bool, true, false, Option, none, some, List, [], ◌∷◌, ◌++◌, ◌==◌, leb, if◌then◌else◌,
  length, drop, Bytes, is_empty,
}

-- `bufio.ScanLines` drops one carriage return at the end of a line.
unfoldable pub drop_cr : Bytes → Bytes
drop_cr [] = []
drop_cr (c ∷ []) = if c == b'\r' then [] else c ∷ []
drop_cr (c ∷ d ∷ s) = c ∷ drop_cr (d ∷ s)

abbrev pub cons_some {ℓ} : {A : Type ℓ} → A → Option (List A) → Option (List A)
cons_some a none = none
cons_some a (some rest) = some (a ∷ rest)

-- `bufio.Scanner` over lines with a buffer of `limit` bytes: a line that fills it is an error.
-- `line` is what is read of the current line.
unfoldable pub scan_onto : ℕ → Bytes → Bytes → Option (List Bytes)
scan_onto limit line [] =
    if is_empty line
    then some []
    else if leb limit (length line)
    then none
    else some (drop_cr line ∷ [])
scan_onto limit line (c ∷ s) = elim (c == b'\n') [
  | false ↦ scan_onto limit (line ++ (c ∷ [])) s
  | true ↦ if leb limit (length line) then none else cons_some (drop_cr line) (scan_onto limit [] s)
]

abbrev pub skip_empty : List Bytes → List Bytes
skip_empty [] = []
skip_empty (l ∷ ls) = if is_empty l then skip_empty ls else l ∷ skip_empty ls

abbrev pub map_some {ℓ κ} : {A : Type ℓ} {B : Type κ} → (A → B) → Option A → Option B
map_some f none = none
map_some f (some a) = some (f a)

-- `All` with a buffer of `limit` bytes; `none` is an error.
unfoldable pub read_events : ℕ → Option Bytes → Option (List Bytes)
unfolding scan_onto
read_events limit none = some []
read_events limit (some file) = map_some skip_empty (scan_onto limit [] file)

-- `make([]byte, 1024*1024), 1024*1024`
abbrev pub buffer_size : ℕ
buffer_size = 1048576

unfoldable pub all : Option Bytes → Option (List Bytes)
unfolding read_events
all file = read_events buffer_size file

abbrev pub last_n : ℕ → List Bytes → List Bytes
last_n n events = if leb (length events) n then events else drop (length events - n) events

unfoldable pub tail : ℕ → Option Bytes → Option (List Bytes)
unfolding read_events
tail n file = map_some (last_n n) (read_events buffer_size file)

-- `Len` counts the lines that are not empty.
unfoldable pub len : Option Bytes → Option ℕ
unfolding read_events
len file = map_some length (read_events buffer_size file)

abbrev pub contents : Option Bytes → Bytes
contents none = []
contents (some file) = file

pub data AppendError : Type 0 where
  invalid_json write_failed : AppendError

pub data Appended : Type 0 where
  at_offset : ℕ → Appended
  refused : AppendError → Appended

-- `Append`: the new file and the answer. `valid` is `json.Valid(event)`.
unfoldable pub append : Bool → Bool → Option Bytes → Bytes → Option Bytes × Appended
append valid written file event =
    if valid
    then (if written
        then (some (contents file ++ (event ++ (b'\n' ∷ []))), at_offset (length (contents file)))
        else (file, refused write_failed))
    else (file, refused invalid_json)

-- The file after each event of a list is appended, with every write done.
abbrev pub append_all : Option Bytes → List Bytes → Option Bytes
append_all file [] = file
append_all file (e ∷ es) = append_all (append true true file e).0 es
