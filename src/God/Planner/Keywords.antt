-- ===== src/God/Planner/Keywords.antt =====
-- god/planner.go: which words are the keywords of a task.
use genesis_ssmp.Base.{
  ◌≡◌, refl, sym, ap, ◌∙◌, Bool, true, false, ◌&&◌, not, List, [], ◌∷◌, arith, ltb, length, Bytes,
  same, same_iff, Bool-cases, map, fields, inl, inr,
}
use genesis_ssmp.God.Planner.{
  stop_words, is_among, trim_marks, is_left_out, keywords_from, extract_keywords,
}

-- No word stands twice.
abbrev pub Distinct : List Bytes → Type 0
Distinct [] = Unit
Distinct (w ∷ ws) = (is_among w ws ≡ false) × Distinct ws

-- A word of three bytes or more that is no stop word.
abbrev pub is_key : Bytes → Bool
is_key w = not (ltb (length w) 3) && not (is_among w stop_words)

keywords_from-is_among :
    (seen ws : List Bytes) (w : Bytes)
    → is_among w (keywords_from seen ws) ≡ is_among w ws && is_key w && not (is_among w seen)
unfolding keywords_from is_among
keywords_from-is_among seen [] w = ground arith
keywords_from-is_among seen (x ∷ ws) w =
    go (is_left_out seen x) refl (keywords_from-is_among seen ws w)
      (keywords_from-is_among (x ∷ seen) ws w)
  where
    same_word : same x w ≡ true → is_left_out seen x ≡ is_left_out seen w
    same_word f = ap (is_left_out seen) ((same_iff x w).0 f)

    go :
        (b : Bool)
        → is_left_out seen x ≡ b
        → is_among w (keywords_from seen ws) ≡ is_among w ws && is_key w && not (is_among w seen)
        → is_among w (keywords_from (x ∷ seen) ws)
          ≡ is_among w ws && is_key w && not (is_among w (x ∷ seen))
        → is_among w (keywords_from seen (x ∷ ws))
          ≡ is_among w (x ∷ ws) && is_key w && not (is_among w seen)
    go true e h k =
        rw (e, keywords_from)
          (elim (Bool-cases (same x w)) [
            | inl f ↦ let left_out = sym (same_word f) ∙ e in ground (arith, h, left_out, f)
            | inr f ↦ ground (arith, h, f)
          ])
    go false e h k =
        rw (e, keywords_from, is_among)
          (elim (Bool-cases (same x w)) [
            | inl f ↦ let kept = sym (same_word f) ∙ e in ground (arith, k, kept, f)
            | inr f ↦ ground (arith, k, f)
          ])

keywords_from-Distinct : (seen ws : List Bytes) → Distinct (keywords_from seen ws)
unfolding keywords_from is_among
keywords_from-Distinct seen [] = tt
keywords_from-Distinct seen (x ∷ ws) = elim (Bool-cases (is_left_out seen x)) [
  | inl e ↦ rw (e, keywords_from) (keywords_from-Distinct seen ws)
  | inr e ↦
      rw (e, keywords_from)
        (
          ground (arith, keywords_from-is_among (x ∷ seen) ws x, same_iff x x),
          keywords_from-Distinct (x ∷ seen) ws,
        )
]

-- The keywords of a task are distinct, and they are exactly its words, in lower case and without the
-- marks around them, that have three bytes or more and are no stop words.
pub extract_keywords-Distinct :
    (to_lower : Bytes → Bytes) (task w : Bytes)
    → Distinct (extract_keywords to_lower task)
      × (is_among w (extract_keywords to_lower task)
          ≡ is_among w (map trim_marks (fields (to_lower task))) && is_key w)
unfolding extract_keywords is_among
extract_keywords-Distinct to_lower task w =
    let words = map trim_marks (fields (to_lower task)) in
    (keywords_from-Distinct [] words, ground (arith, keywords_from-is_among [] words w))
