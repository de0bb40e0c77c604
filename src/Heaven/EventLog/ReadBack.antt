-- ===== src/Heaven/EventLog/ReadBack.antt =====
-- heaven/eventlog.go: what the readers find in a file that `Append` has written.
use genesis_ssmp.Base.{
  ℕ, ◌≤◌, ◌<◌, ◌≡◌, ◌≢◌, refl, sym, ap, ◌∙◌, false, none, some, List, [], ◌∷◌, ◌++◌, append-nil,
  append_assoc, arith, ◌==◌, leb, if◌then◌else◌, length, All, Bytes, is_empty, Bool-cases, inl, inr,
}
use genesis_ssmp.Heaven.EventLog.{
  drop_cr, cons_some, scan_onto, skip_empty, map_some, read_events, buffer_size, all, tail, last_n,
  len, append, append_all,
}

-- An event that is one line of text: not empty, no newline, no carriage return at the end, and
-- short enough for a reader's buffer.
abbrev pub NoNewline : Bytes → Type 0
NoNewline = All (λ c. c ≢ b'\n')

pub record IsLine (limit : ℕ) (e : Bytes) : Type 0 where
  pub one_line : NoNewline e
  pub kept : drop_cr e ≡ e
  pub full : is_empty e ≡ false
  pub fits : length e < limit

abbrev lines_of : List Bytes → Bytes
lines_of [] = []
lines_of (e ∷ es) = e ++ (b'\n' ∷ lines_of es)

append_all-some :
    (es : List Bytes) (file : Bytes) → append_all (some file) es ≡ some (file ++ lines_of es)
unfolding append
append_all-some [] file = ap some (sym (append-nil file))
append_all-some (e ∷ es) file = append_all-some es (file ++ (e ++ (b'\n' ∷ []))) ∙ simp append_assoc

-- The scanner reads one line, whatever follows it.
pub scan-line :
    (limit : ℕ) (e line rest : Bytes)
    → NoNewline e
    → scan_onto limit line (e ++ (b'\n' ∷ rest)) ≡ (
        if leb limit (length (line ++ e))
        then none
        else cons_some (drop_cr (line ++ e)) (scan_onto limit [] rest))
unfolding scan_onto
scan-line limit [] line rest h = rw append-nil
scan-line limit (c ∷ e) line rest h = elim (Bool-cases (c == b'\n')) [
  | inl bad ↦ absurd (h.0 (ground arith))
  | inr good ↦
      rw (good, scan_onto) (scan-line limit e (line ++ (c ∷ [])) rest h.1 ∙ rw append_assoc)
]

scan-lines_of :
    (limit : ℕ) (es : List Bytes)
    → All (IsLine limit) es
    → scan_onto limit [] (lines_of es) ≡ some es
scan-lines_of limit [] h = unfold scan_onto in refl
scan-lines_of limit (e ∷ es) (l, h) =
    rw (scan-line limit e [] (lines_of es) l.one_line)
      (ground (arith, scan-lines_of limit es h, l.fits, l.kept))

skip_empty-lines : (limit : ℕ) (es : List Bytes) → All (IsLine limit) es → skip_empty es ≡ es
skip_empty-lines limit [] h = refl
skip_empty-lines limit (e ∷ es) (l, h) = rw l.full (ap (◌∷◌ e) (skip_empty-lines limit es h))

append_all_file :
    (e : Bytes) (es : List Bytes) → append_all none (e ∷ es) ≡ some (lines_of (e ∷ es))
unfolding append
append_all_file e es = append_all-some es (e ++ (b'\n' ∷ [])) ∙ simp append_assoc

pub read_events-append_all :
    (limit : ℕ) (es : List Bytes)
    → All (IsLine limit) es
    → read_events limit (append_all none es) ≡ some es
unfolding read_events
read_events-append_all limit [] h = refl
read_events-append_all limit (e ∷ es) h =
    rw (append_all_file e es, scan-lines_of limit (e ∷ es) h)
      (ap some (skip_empty-lines limit (e ∷ es) h))

-- Every event of a log reads back, whole and in the order in which it was appended; `Len` is their
-- number and `Tail` gives the last of them. Each event is a line that fits the buffer.
pub all-append_all :
    (n : ℕ) (es : List Bytes)
    → All (IsLine buffer_size) es
    → (all (append_all none es) ≡ some es)
      × (len (append_all none es) ≡ some (length es))
      × (tail n (append_all none es) ≡ some (last_n n es))
unfolding all len tail
all-append_all n es h =
    let read = read_events-append_all buffer_size es h in
    (read, ap (map_some length) read, ap (map_some (last_n n)) read)

lines_of-append : (es fs : List Bytes) → lines_of (es ++ fs) ≡ lines_of es ++ lines_of fs
lines_of-append [] fs = refl
lines_of-append (e ∷ es) fs = rw (lines_of-append es fs) (simp append_assoc)

scan-append :
    (limit : ℕ) (es : List Bytes) (rest : Bytes)
    → All (IsLine limit) es
    → scan_onto limit [] rest ≡ none
    → scan_onto limit [] (lines_of es ++ rest) ≡ none
scan-append limit [] rest h e = e
scan-append limit (l ∷ es) rest (i, h) e = rw (append_assoc l (b'\n' ∷ lines_of es) rest) (
    rw (scan-line limit l [] (lines_of es ++ rest) i.one_line)
      (ground (arith, scan-append limit es rest h e)))

append_all-middle :
    (es later : List Bytes) (e : Bytes)
    → append_all none (es ++ (e ∷ later)) ≡ some (lines_of es ++ lines_of (e ∷ later))
append_all-middle [] later e = append_all_file e later
append_all-middle (x ∷ es) later e =
    append_all_file x (es ++ (e ∷ later)) ∙ ap some (lines_of-append (x ∷ es) (e ∷ later))

-- An event as long as the buffer makes every later read of the whole log fail, whatever is in the
-- log and whatever is appended behind it. The events before it are lines that fit the buffer.
pub all-too_long :
    (es later : List Bytes) (e : Bytes)
    → All (IsLine buffer_size) es
    → NoNewline e
    → buffer_size ≤ length e
    → all (append_all none (es ++ (e ∷ later))) ≡ none
unfolding all read_events
all-too_long es later e h one big =
    rw (append_all-middle es later e, scan-append buffer_size es (lines_of (e ∷ later)) h stuck)
  where
    stuck : scan_onto buffer_size [] (lines_of (e ∷ later)) ≡ none
    stuck = rw (scan-line buffer_size e [] (lines_of later) one) (ground arith)

-- An event that holds a newline is accepted as one and read back as two, each of which may be any
-- line: readers of the log cannot tell it from two events.
pub all_split :
    (es : List Bytes) (a b : Bytes)
    → All (IsLine buffer_size) (es ++ (a ∷ b ∷ []))
    → all (append_all none (es ++ ((a ++ (b'\n' ∷ b)) ∷ []))) ≡ some (es ++ (a ∷ b ∷ []))
unfolding all
all_split es a b h = ap (read_events buffer_size) same_file ∙ read_events-append_all buffer_size _ h
  where
    same_file :
        append_all none (es ++ ((a ++ (b'\n' ∷ b)) ∷ [])) ≡ append_all none (es ++ (a ∷ b ∷ []))
    same_file =
        append_all-middle es [] (a ++ (b'\n' ∷ b))
        ∙ ap (λ t. some (lines_of es ++ t)) (append_assoc a (b'\n' ∷ b) (b'\n' ∷ []))
        ∙ sym (append_all-middle es (b ∷ []) a)
