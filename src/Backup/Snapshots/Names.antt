-- ===== src/Backup/Snapshots/Names.antt =====
-- What `find` prints of snapshot directories is read back.
use backr.Base.{
  ap₂, split-nil, Bool-cases, length, filter, All, Text, is_empty, is_whitespace, trim_start_by,
  trim_end_by, trim, split, split-append, split_from_of_lacks, trim_start_by-cons, ℕ, ◌+◌, ◌==◌,
  ◌||◌, if◌then◌else◌, ◌≤◌, ◌≡◌, refl, sym, ap, ◌∙◌, subst, ◌≢◌, inl, inr, Bool, false, not, List,
  [], ◌∷◌, ◌++◌, map, arith,
}
use backr.Trust.Keys.{RegexClasses}
use backr.Backup.Snapshots.{sort_desc, matches, is_valid_snapshot_name, parse_snapshot_names}
use backr.Backup.Snapshots.Sorted.{
  IsDescending, occurrences, sort_desc-IsDescending, sort_desc-occurrences,
}

-- `-printf "%f\u{1e}"`
unfoldable pub print_names : List Text → Text
print_names [] = []
print_names (n ∷ ns) = n ++ 0x1e ∷ print_names ns

-- A name that ends up as it is: no separator, and no white space at its ends.
pub record IsPlainName (n : Text) : Type 0 where
  pub one_record : All (λ c. c ≢ 0x1e) n
  pub trimmed : trim n ≡ n

length-trim_start : (p : ℕ → Bool) (s : Text) → length (trim_start_by p s) ≤ length s
unfolding trim_start_by
length-trim_start p [] = omega arith
length-trim_start p (c ∷ s) = ground (arith, length-trim_start p s)

length-trim_end : (p : ℕ → Bool) (s : Text) → length (trim_end_by p s) ≤ length s
unfolding trim_end_by
length-trim_end p [] = omega arith
length-trim_end p (c ∷ s) = ground (arith, length-trim_end p s)

first-stays : (c : ℕ) (s : Text) → trim (c ∷ s) ≡ c ∷ s → is_whitespace c ≡ false
unfolding trim trim_start_by
first-stays c s h = elim (Bool-cases (is_whitespace c)) [
  | inr e ↦ e
  | inl e ↦
      let q = rw e at h in
      absurd (
        omega (
          arith,
          ap length q,
          length-trim_end is_whitespace (trim_start_by is_whitespace s),
          length-trim_start is_whitespace s,
        ))
]

pub separator-stays : is_whitespace 0x1e ≡ false
unfolding is_whitespace
separator-stays = refl

pub is_empty-cons : (s : Text) (c : ℕ) (t : Text) → is_empty (s ++ c ∷ t) ≡ false
is_empty-cons [] c t = refl
is_empty-cons (d ∷ s) c t = refl

pub trim_end_by-append :
    (p : ℕ → Bool) (s : Text) (c : ℕ) (t : Text)
    → p c ≡ false
    → trim_end_by p (s ++ c ∷ t) ≡ s ++ c ∷ trim_end_by p t
unfolding trim_end_by
trim_end_by-append p [] c t h = ground (arith, h)
trim_end_by-append p (d ∷ s) c t h =
    rw (trim_end_by-append p s c t h) (rw (is_empty-cons s c (trim_end_by p t)) refl)

printed-start :
    (n rest : Text) → trim n ≡ n → trim_start_by is_whitespace (n ++ 0x1e ∷ rest) ≡ n ++ 0x1e ∷ rest
printed-start [] rest h = trim_start_by-cons is_whitespace 0x1e rest separator
  where
    separator : is_whitespace 0x1e ≡ false
    separator = unfold is_whitespace in refl
printed-start (c ∷ s) rest h =
    trim_start_by-cons is_whitespace c (s ++ 0x1e ∷ rest) (first-stays c s h)

printed-end : (ns : List Text) → trim_end_by is_whitespace (print_names ns) ≡ print_names ns
unfolding print_names trim_end_by
printed-end [] = refl
printed-end (n ∷ ns) =
    trim_end_by-append is_whitespace n 0x1e (print_names ns) separator-stays
    ∙ ap (λ t. n ++ 0x1e ∷ t) (printed-end ns)

trim-print_names : (ns : List Text) → All IsPlainName ns → trim (print_names ns) ≡ print_names ns
unfolding trim print_names trim_start_by trim_end_by
trim-print_names [] h = refl
trim-print_names (n ∷ ns) (h, _) =
    ap (trim_end_by is_whitespace) (printed-start n (print_names ns) h.trimmed)
    ∙ printed-end (n ∷ ns)

split-print_names :
    (ns : List Text) → All IsPlainName ns → split 0x1e (print_names ns) ≡ ns ++ [] ∷ []
unfolding print_names
split-print_names [] h = split-nil 0x1e
split-print_names (n ∷ ns) (h, hs) =
    split-append 0x1e n (print_names ns)
    ∙ ap₂ (λ x y. x ++ y) (split_from_of_lacks 0x1e [] n h.one_record) (split-print_names ns hs)

map-trim : (ns : List Text) → All IsPlainName ns → map trim (ns ++ [] ∷ []) ≡ ns ++ [] ∷ []
unfolding trim trim_start_by trim_end_by
map-trim [] h = refl
map-trim (n ∷ ns) (h, hs) = ap₂ (λ (x : Text) (y : List Text). x ∷ y) h.trimmed (map-trim ns hs)

-- A name of 19 characters, of the form YYYY-MM-DD_HH-MM-SS: what stands at each position, from the i-th on.
pub stands_at : (ℕ → Bool) → ℕ → ℕ → Bool
stands_at digit i c =
    if i == 10
    then c == b'_'
    else if i == 4 || (i == 7 || (i == 13 || i == 16))
    then c == b'-'
    else digit c

pub dated_from : (ℕ → Bool) → ℕ → Text → Bool
dated_from digit i [] = i == 19
dated_from digit i (c ∷ s) =
    if i == 19 then false else if stands_at digit i c then dated_from digit (i + 1) s else false

abbrev pub is_dated : (ℕ → Bool) → Text → Bool
is_dated digit name = dated_from digit 0 name

-- The names that match the pattern are those of this form.
matches-dated : (re : RegexClasses) (s : Text) → is_valid_snapshot_name re s ≡ is_dated re.digit s
unfolding is_valid_snapshot_name matches dated_from stands_at
matches-dated re [] = refl
matches-dated re (c0 ∷ []) = refl
matches-dated re (c0 ∷ (c1 ∷ [])) = refl
matches-dated re (c0 ∷ (c1 ∷ (c2 ∷ []))) = refl
matches-dated re (c0 ∷ (c1 ∷ (c2 ∷ (c3 ∷ [])))) = refl
matches-dated re (c0 ∷ (c1 ∷ (c2 ∷ (c3 ∷ (c4 ∷ []))))) = refl
matches-dated re (c0 ∷ (c1 ∷ (c2 ∷ (c3 ∷ (c4 ∷ (c5 ∷ [])))))) = refl
matches-dated re (c0 ∷ (c1 ∷ (c2 ∷ (c3 ∷ (c4 ∷ (c5 ∷ (c6 ∷ []))))))) = refl
matches-dated re (c0 ∷ (c1 ∷ (c2 ∷ (c3 ∷ (c4 ∷ (c5 ∷ (c6 ∷ (c7 ∷ [])))))))) = refl
matches-dated re (c0 ∷ (c1 ∷ (c2 ∷ (c3 ∷ (c4 ∷ (c5 ∷ (c6 ∷ (c7 ∷ (c8 ∷ []))))))))) = refl
matches-dated re (c0 ∷ (c1 ∷ (c2 ∷ (c3 ∷ (c4 ∷ (c5 ∷ (c6 ∷ (c7 ∷ (c8 ∷ (c9 ∷ [])))))))))) = refl
matches-dated re (c0 ∷ (c1 ∷ (c2 ∷ (c3 ∷ (c4 ∷ (c5 ∷ (c6 ∷ (c7 ∷ (c8 ∷ (c9 ∷ (c10 ∷ []))))))))))) =
    refl
matches-dated re
      (c0 ∷ (c1 ∷ (c2 ∷ (c3 ∷ (c4 ∷ (c5 ∷ (c6 ∷ (c7 ∷ (c8 ∷ (c9 ∷ (c10 ∷ (c11 ∷ [])))))))))))) =
    refl
matches-dated re
      (c0
        ∷ (c1
            ∷ (c2 ∷ (c3 ∷ (c4 ∷ (c5 ∷ (c6 ∷ (c7 ∷ (c8 ∷ (c9 ∷ (c10 ∷ (c11 ∷ (c12 ∷ []))))))))))))) =
    refl
matches-dated re
      (c0
        ∷ (c1
            ∷ (c2
                ∷ (c3
                    ∷ (c4
                        ∷ (c5
                            ∷ (c6 ∷ (c7 ∷ (c8 ∷ (c9 ∷ (c10 ∷ (c11 ∷ (c12 ∷ (c13 ∷ [])))))))))))))) =
    refl
matches-dated re
      (c0
        ∷ (c1
            ∷ (c2
                ∷ (c3
                    ∷ (c4
                        ∷ (c5
                            ∷ (c6
                                ∷ (c7
                                    ∷ (c8
                                        ∷ (c9
                                            ∷ (c10 ∷ (c11 ∷ (c12 ∷ (c13 ∷ (c14 ∷ []))))))))))))))) =
    refl
matches-dated re
      (c0
        ∷ (c1
            ∷ (c2
                ∷ (c3
                    ∷ (c4
                        ∷ (c5
                            ∷ (c6
                                ∷ (c7
                                    ∷ (c8
                                        ∷ (c9
                                            ∷ (c10
                                                ∷ (c11
                                                    ∷ (c12
                                                        ∷ (c13 ∷ (c14 ∷ (c15 ∷ [])))))))))))))))) =
    refl
matches-dated re
      (c0
        ∷ (c1
            ∷ (c2
                ∷ (c3
                    ∷ (c4
                        ∷ (c5
                            ∷ (c6
                                ∷ (c7
                                    ∷ (c8
                                        ∷ (c9
                                            ∷ (c10
                                                ∷ (c11
                                                    ∷ (c12
                                                        ∷ (c13
                                                            ∷ (c14
                                                            ∷ (c15 ∷ (c16 ∷ []))))))))))))))))) =
    refl
matches-dated re
      (c0
        ∷ (c1
            ∷ (c2
                ∷ (c3
                    ∷ (c4
                        ∷ (c5
                            ∷ (c6
                                ∷ (c7
                                    ∷ (c8
                                        ∷ (c9
                                            ∷ (c10
                                                ∷ (c11
                                                    ∷ (c12
                                                        ∷ (c13
                                                            ∷ (c14
                                                            ∷ (c15
                                                            ∷ (c16 ∷ (c17 ∷ [])))))))))))))))))) =
    refl
matches-dated re
      (c0
        ∷ (c1
            ∷ (c2
                ∷ (c3
                    ∷ (c4
                        ∷ (c5
                            ∷ (c6
                                ∷ (c7
                                    ∷ (c8
                                        ∷ (c9
                                            ∷ (c10
                                                ∷ (c11
                                                    ∷ (c12
                                                        ∷ (c13
                                                            ∷ (c14
                                                            ∷ (c15
                                                            ∷ (c16
                                                            ∷ (c17 ∷ (c18 ∷ []))))))))))))))))))) =
    refl
matches-dated re
      (c0
        ∷ (c1
            ∷ (c2
                ∷ (c3
                    ∷ (c4
                        ∷ (c5
                            ∷ (c6
                                ∷ (c7
                                    ∷ (c8
                                        ∷ (c9
                                            ∷ (c10
                                                ∷ (c11
                                                    ∷ (c12
                                                        ∷ (c13
                                                            ∷ (c14
                                                            ∷ (c15
                                                            ∷ (c16
                                                            ∷ (c17
                                                            ∷ (c18 ∷ (x ∷ s)))))))))))))))))))) =
    refl

filter-same :
    (p q : Text → Bool) → ((s : Text) → p s ≡ q s) → (l : List Text) → filter p l ≡ filter q l
filter-same p q same [] = refl
filter-same p q same (s ∷ l) = rw (same s, filter-same p q same l) refl

filter-filter-ends :
    (re : RegexClasses) (ns : List Text)
    → filter (is_valid_snapshot_name re) (filter (λ s. not (is_empty s)) (ns ++ [] ∷ []))
      ≡ filter (is_valid_snapshot_name re) ns
unfolding is_valid_snapshot_name matches
filter-filter-ends re [] = refl
filter-filter-ends re ([] ∷ ns) = filter-filter-ends re ns
filter-filter-ends re ((c ∷ s) ∷ ns) = ground (arith, filter-filter-ends re ns)

-- Reading what `find` printed gives the names of the form YYYY-MM-DD_HH-MM-SS among those of the
-- directories, newest first, each as often as there is a directory of that name; for names without a
-- record separator and without white space at their ends.
pub parse_snapshot_names-print_names :
    (re : RegexClasses) (ns : List Text)
    → All IsPlainName ns
    → (parse_snapshot_names re (trim (print_names ns)) ≡ sort_desc (filter (is_dated re.digit) ns))
      × IsDescending (parse_snapshot_names re (trim (print_names ns)))
      × ((n : Text)
          → occurrences n (parse_snapshot_names re (trim (print_names ns)))
            ≡ occurrences n (filter (is_dated re.digit) ns))
unfolding parse_snapshot_names
parse_snapshot_names-print_names re ns h =
    let e =
      ap (parse_snapshot_names re) (trim-print_names ns h)
      ∙ ap sort_desc (
          ap (λ l. filter (is_valid_snapshot_name re) (filter (λ s. not (is_empty s)) l))
            (ap (map trim) (split-print_names ns h) ∙ map-trim ns h)
          ∙ (filter-filter-ends re ns
              ∙ filter-same (is_valid_snapshot_name re) (is_dated re.digit) (matches-dated re)
                  ns)) in
    (
      e,
      subst IsDescending (sym e) (sort_desc-IsDescending (filter (is_dated re.digit) ns)),
      λ n. ap (occurrences n) e ∙ sort_desc-occurrences n (filter (is_dated re.digit) ns),
    )
