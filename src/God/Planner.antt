-- ===== src/God/Planner.antt =====
-- god/planner.go: the keywords of a task.
pub mod Keywords
pub mod Buckets
pub mod Plan
pub mod Shape
use genesis_ssmp.Base.{
  ℕ, Bool, true, false, ◌||◌, List, [], ◌∷◌, ltb, ◌==◌, length, Bytes, bytes, same, fields, map,
}
use mathlib.Core.List.{reverse}

-- `stop`, the words that are left out.
abbrev pub stop_words : List Bytes
stop_words = map bytes (
    "the" ∷ "a" ∷ "an" ∷ "is" ∷ "in" ∷ "to" ∷ "for" ∷ "of" ∷ "and" ∷ "or" ∷ "with" ∷ "that" ∷ "this"
    ∷ "it" ∷ "on" ∷ "at" ∷ "by" ∷ "from" ∷ "as" ∷ "be" ∷ "add" ∷ "fix" ∷ "update" ∷ "implement"
    ∷ "change" ∷ "modify" ∷ "create" ∷ "make" ∷ [])

unfoldable pub is_among : Bytes → List Bytes → Bool
is_among w [] = false
is_among w (x ∷ xs) = same x w || is_among w xs

unfoldable pub is_mark : ℕ → Bytes → Bool
is_mark c [] = false
is_mark c (x ∷ xs) = x == c || is_mark c xs

-- `strings.TrimLeft` with a set of ASCII bytes.
unfoldable pub trim_left_marks : Bytes → Bytes → Bytes
unfolding is_mark
trim_left_marks marks [] = []
trim_left_marks marks (c ∷ s) = elim (is_mark c marks) [
  | true ↦ trim_left_marks marks s
  | false ↦ c ∷ s
]

-- `strings.Trim` with the marks of `extractKeywords`.
unfoldable pub trim_marks : Bytes → Bytes
unfolding trim_left_marks
trim_marks w =
    let marks = bytes ".,;:!?\"'()[]{}" in
    reverse (trim_left_marks marks (reverse (trim_left_marks marks w)))

abbrev pub is_left_out : List Bytes → Bytes → Bool
is_left_out seen w = ltb (length w) 3 || is_among w stop_words || is_among w seen

-- The loop of `extractKeywords`, over the words without their marks.
unfoldable pub keywords_from : List Bytes → List Bytes → List Bytes
unfolding is_among
keywords_from seen [] = []
keywords_from seen (w ∷ ws) = elim (is_left_out seen w) [
  | true ↦ keywords_from seen ws
  | false ↦ w ∷ keywords_from (w ∷ seen) ws
]

-- `extractKeywords`; `to_lower` is `strings.ToLower`.
unfoldable pub extract_keywords : (Bytes → Bytes) → Bytes → List Bytes
unfolding keywords_from trim_marks
extract_keywords to_lower task = keywords_from [] (map trim_marks (fields (to_lower task)))
