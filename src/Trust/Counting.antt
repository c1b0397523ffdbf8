-- ===== src/Trust/Counting.antt =====
-- Counting key lines: what an appended line does to the lines of a file.
use backr.Base.{
  ap₂, trim-strip_cr, lines-append, lines_line, map-trim-lines-finish, ends_with_char,
  if◌then◌else◌, ==_iff, Bool-cases, length, filter, length-append, filter-append, All, Text,
  is_empty, trim, lines_from, lines, ℕ, ◌+◌, ◌≡◌, refl, sym, ap, ◌∙◌, ◌≢◌, ◌⊎◌, inl, inr, Bool,
  true, ◌&&◌, not, List, [], ◌∷◌, ◌++◌, map, append_assoc, map-append, arith,
}
use backr.Trust.Keys.{RegexClasses, is_valid_line, count_pubkey_lines}

ends_with_char-parts :
    (c : ℕ) (s : Text) → ends_with_char c s ≡ true → (t : Text) × (s ≡ t ++ c ∷ [])
unfolding ends_with_char
ends_with_char-parts c [] h = cc
ends_with_char-parts c (a ∷ []) h = ([], ap (λ x. x ∷ []) ((==_iff a c).0 h))
ends_with_char-parts c (a ∷ (b ∷ s)) h =
    let (t, e) = ends_with_char-parts c (b ∷ s) h in (a ∷ t, ap (λ x. a ∷ x) e)

-- A file whose last line is finished.
abbrev pub finished : Text → Text
finished existing =
    if not (is_empty existing) && not (ends_with_char 10 existing)
    then existing ++ 10 ∷ []
    else existing

-- A finished file is empty or ends in a newline, and its lines are those of the file, but for white
-- space.
pub finished-cases :
    (s : Text)
    → (finished s ≡ []) × (s ≡ [])
      ⊎ ((t : Text) × (finished s ≡ t ++ 10 ∷ [])
          × (map trim (lines (t ++ 10 ∷ [])) ≡ map trim (lines s)))
finished-cases [] = inl (refl, refl)
finished-cases (c ∷ s) = elim (Bool-cases (ends_with_char 10 (c ∷ s))) [
  | inl ends ↦
      let (t, e) = ends_with_char-parts 10 (c ∷ s) ends in
      inr (t, rw ends e, ap (λ x. map trim (lines x)) (sym e))
  | inr open_line ↦ inr (c ∷ s, rw open_line, map-trim-lines-finish (c ∷ s) (λ e. cc) open_line)
]

-- The lines after one more line, up to the white space at their ends.
pub map-trim-lines-finished :
    (s line : Text)
    → All (λ c. c ≢ 10) line
    → map trim (lines (finished s ++ (line ++ 10 ∷ []))) ≡ map trim (lines s) ++ trim line ∷ []
map-trim-lines-finished s line h = elim (finished-cases s) [
  | inl (fe, se) ↦
      rw (fe, se, lines-empty) (rw (lines_line line h) (ap (λ l. l ∷ []) (trim-strip_cr line)))
  | inr (t, e, same) ↦ rw e (
      ap (λ x. map trim (lines x)) (append_assoc t (10 ∷ []) (line ++ 10 ∷ []))
      ∙ (ap (map trim) (lines-append t (line ++ 10 ∷ []))
          ∙ (map-append trim (lines (t ++ 10 ∷ [])) (lines (line ++ 10 ∷ []))
              ∙ ap₂ (λ x y. x ++ y) same
                  (ap (map trim) (lines_line line h) ∙ ap (λ l. l ∷ []) (trim-strip_cr line)))))
]
  where
    lines-empty : lines [] ≡ []
    lines-empty = unfold lines_from in refl

length-filter-map :
    (p : Text → Bool) (f : Text → Text) (l : List Text)
    → length (filter (λ x. p (f x)) l) ≡ length (filter p (map f l))
length-filter-map p f [] = refl
length-filter-map p f (x ∷ l) = ground (arith, length-filter-map p f l)

module _ (re : RegexClasses) where
  -- The count depends on the trimmed lines alone.
  pub count-map-trim :
      (content : Text)
      → count_pubkey_lines re content
        ≡ length (filter (is_valid_line re) (map trim (lines content)))
  unfolding count_pubkey_lines
  count-map-trim content = length-filter-map (is_valid_line re) trim (lines content)

  -- One more key line counts for one.
  pub count-finished :
      (s line : Text)
      → All (λ c. c ≢ 10) line
      → is_valid_line re (trim line) ≡ true
      → count_pubkey_lines re (finished s ++ (line ++ 10 ∷ [])) ≡ count_pubkey_lines re s + 1
  count-finished s line h valid =
      count-map-trim (finished s ++ (line ++ 10 ∷ []))
      ∙ (ap (λ l. length (filter (is_valid_line re) l)) (map-trim-lines-finished s line h)
          ∙ (ap length (filter-append (is_valid_line re) (map trim (lines s)) (trim line ∷ []))
              ∙ (length-append (filter (is_valid_line re) (map trim (lines s))) _
                  ∙ ap₂ (λ (a b : ℕ). a + b) (sym (count-map-trim s)) (rw valid))))
