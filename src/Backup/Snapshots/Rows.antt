-- ===== src/Backup/Snapshots/Rows.antt =====
-- What `find` prints of the children of a directory is read back.
use backr.Base.{
  splitn_from, splitn, split-nil, All, All-append, All-map, Text, codes, eq_text, is_empty,
  is_whitespace, trim_start_by, trim_end_by, trim, split, parse_uint, split-append,
  split_from_of_lacks, ok, ℕ, suc, ◌-◌, ◌^◌, ◌≡◌, refl, ap, ◌∙◌, ◌≢◌, false, Option, some, List, [],
  ◌∷◌, ◌++◌, append-nil, append_assoc, arith,
}
use backr.Backup.Snapshots.{
  RemoteFindEntry, row_of, columns_row, parse_row, parse_rows, parse_children,
}
use backr.Backup.Snapshots.Names.{separator-stays, trim_end_by-append}

-- A row as it is printed.
pub record Row : Type 0 where
  pub file_type : ℕ
  pub size : Text
  pub mtime : Text
  pub name : Text

-- `%y\u{1f}%s\u{1f}%T@\u{1f}%f`
abbrev pub print_row : Row → Text
print_row r = (r.file_type ∷ []) ++ 0x1f ∷ (r.size ++ 0x1f ∷ (r.mtime ++ 0x1f ∷ r.name))

-- each behind `\u{1e}`
pub print_rows : List Row → Text
print_rows [] = []
print_rows (r ∷ rs) = print_row r ++ 0x1e ∷ print_rows rs

abbrev pub IsField : Text → Type 0
IsField s = All (λ c. (c ≢ 0x1f) × (c ≢ 0x1e)) s

no_field : (s : Text) → IsField s → All (λ c. c ≢ 0x1f) s
no_field s h = All-map (λ c. (c ≢ 0x1f) × (c ≢ 0x1e)) (λ c. c ≢ 0x1f) (λ c q. q.0) s h

no_record : (s : Text) → IsField s → All (λ c. c ≢ 0x1e) s
no_record s h = All-map (λ c. (c ≢ 0x1f) × (c ≢ 0x1e)) (λ c. c ≢ 0x1e) (λ c q. q.1) s h

splitn_from-append :
    (n sep : ℕ) (cur a b : Text)
    → All (λ c. c ≢ sep) a
    → splitn_from (suc (suc n)) sep cur (a ++ sep ∷ b) ≡ (cur ++ a) ∷ splitn_from (suc n) sep [] b
unfolding splitn_from
splitn_from-append n sep cur [] b h = ground (arith, append-nil cur)
splitn_from-append n sep cur (c ∷ a) b (h, hs) =
    ground (arith, splitn_from-append n sep (cur ++ c ∷ []) a b hs, append_assoc cur (c ∷ []) a)

field_separator-stays : is_whitespace 0x1f ≡ false
unfolding is_whitespace
field_separator-stays = refl

module _ {F : Type 0} (parse_f64 : Text → Option F) where
  -- A row that `find` can print of a name without white space at its end.
  pub record IsPlainRow (r : Row) (n : ℕ) (f : F) : Type 0 where
    pub type_field : IsField (r.file_type ∷ [])
    pub type_stays : is_whitespace r.file_type ≡ false
    pub size_field : IsField r.size
    pub mtime_field : IsField r.mtime
    pub size : parse_uint (2 ^ 64 - 1) r.size ≡ some n
    pub mtime : parse_f64 r.mtime ≡ some f
    pub name_record : All (λ c. c ≢ 0x1e) r.name
    pub name_end : trim_end_by is_whitespace r.name ≡ r.name
    pub name_empty : is_empty r.name ≡ false
    pub name_dot : eq_text r.name (codes ".") ≡ false
    pub name_dots : eq_text r.name (codes "..") ≡ false

  abbrev pub entry : Row → ℕ → F → RemoteFindEntry F
  entry r n f = record { file_type = r.file_type; size = n; mtime_unix = f; name = r.name }

  columns-print_row :
      (r : Row) (n : ℕ) (f : F)
      → IsPlainRow r n f
      → splitn 4 0x1f (print_row r) ≡ (r.file_type ∷ []) ∷ r.size ∷ r.mtime ∷ r.name ∷ []
  columns-print_row r n f h =
      splitn_from-append 2 0x1f [] (r.file_type ∷ []) _ (no_field (r.file_type ∷ []) h.type_field)
      ∙ ap (λ l. (r.file_type ∷ []) ∷ l)
          (splitn_from-append 1 0x1f [] r.size _ (no_field r.size h.size_field)
            ∙ ap (λ l. r.size ∷ l)
                (splitn_from-append 0 0x1f [] r.mtime r.name (no_field r.mtime h.mtime_field)
                  ∙ ap (λ l. r.mtime ∷ l) (last r.name)))
    where
      last : (s : Text) → splitn_from 1 0x1f [] s ≡ s ∷ []
      last s = unfold splitn_from in refl

  row-end :
      (r : Row) (n : ℕ) (f : F)
      → IsPlainRow r n f
      → trim_end_by is_whitespace (print_row r) ≡ print_row r
  row-end r n f h =
      trim_end_by-append is_whitespace (r.file_type ∷ []) 0x1f _ field_separator-stays
      ∙ ap (λ t. (r.file_type ∷ []) ++ 0x1f ∷ t)
          (trim_end_by-append is_whitespace r.size 0x1f _ field_separator-stays
            ∙ ap (λ t. r.size ++ 0x1f ∷ t)
                (trim_end_by-append is_whitespace r.mtime 0x1f r.name field_separator-stays
                  ∙ ap (λ t. r.mtime ++ 0x1f ∷ t) h.name_end))

  parse_row-print_row :
      (r : Row) (n : ℕ) (f : F)
      → IsPlainRow r n f
      → parse_row parse_f64 (print_row r) ≡ ok (some (entry r n f))
  unfolding parse_row columns_row row_of
  parse_row-print_row r n f h =
      rw
        (
          parse_row,
          row-end r n f h,
          columns-print_row r n f h,
          row_of,
          h.name_empty,
          h.name_dot,
          h.name_dots,
          h.size,
          h.mtime,
        )
        refl

  -- The rows of a listing, and their entries.
  pub data PlainRows : List Row → List (RemoteFindEntry F) → Type 0 where
    no_rows : PlainRows [] []
    a_row :
        (r : Row) (n : ℕ) (f : F) (rs : List Row) (es : List (RemoteFindEntry F))
        → IsPlainRow r n f
        → PlainRows rs es
        → PlainRows (r ∷ rs) (entry r n f ∷ es)

  row-lacks_separator :
      (r : Row) (n : ℕ) (f : F) → IsPlainRow r n f → All (λ c. c ≢ 0x1e) (print_row r)
  row-lacks_separator r n f h =
      All-append (λ c. c ≢ 0x1e) (r.file_type ∷ [])
        (0x1f ∷ (r.size ++ 0x1f ∷ (r.mtime ++ 0x1f ∷ r.name)))
        (no_record (r.file_type ∷ []) h.type_field)
        (
          λ e. ground arith,
          All-append (λ c. c ≢ 0x1e) r.size (0x1f ∷ (r.mtime ++ 0x1f ∷ r.name))
              (no_record r.size h.size_field)
              (
                λ e. ground arith,
                All-append (λ c. c ≢ 0x1e) r.mtime (0x1f ∷ r.name) (no_record r.mtime h.mtime_field)
                    (λ e. ground arith, h.name_record),
              ),
        )

  parse_rows-cons :
      (x : Text) (l : List Text) (e : RemoteFindEntry F) (es : List (RemoteFindEntry F))
      → parse_row parse_f64 x ≡ ok (some e)
      → parse_rows parse_f64 l ≡ ok es
      → parse_rows parse_f64 (x ∷ l) ≡ ok (e ∷ es)
  unfolding parse_rows
  parse_rows-cons x l e es h k = rw (parse_rows, h, k) refl

  parse_rows-nil : parse_rows parse_f64 ([] ∷ []) ≡ ok []
  unfolding parse_rows parse_row trim_end_by
  parse_rows-nil = refl

  parse_rows-print_rows :
      (rs : List Row) (es : List (RemoteFindEntry F))
      → PlainRows rs es
      → parse_rows parse_f64 (split 0x1e (print_rows rs)) ≡ ok es
  unfolding print_rows
  parse_rows-print_rows _ _ no_rows = ap (parse_rows parse_f64) (split-nil 0x1e) ∙ parse_rows-nil
  parse_rows-print_rows _ _ (a_row r n f rs es h hs) =
      ap (parse_rows parse_f64) (
        split-append 0x1e (print_row r) (print_rows rs)
        ∙ ap (λ l. l ++ split 0x1e (print_rows rs))
            (split_from_of_lacks 0x1e [] (print_row r) (row-lacks_separator r n f h)))
      ∙ parse_rows-cons (print_row r) (split 0x1e (print_rows rs)) (entry r n f) es
          (parse_row-print_row r n f h) (parse_rows-print_rows rs es hs)

  printed-end : (rs : List Row) → trim_end_by is_whitespace (print_rows rs) ≡ print_rows rs
  unfolding print_rows trim_end_by
  printed-end [] = refl
  printed-end (r ∷ rs) =
      trim_end_by-append is_whitespace (print_row r) 0x1e (print_rows rs) separator-stays
      ∙ ap (λ t. print_row r ++ 0x1e ∷ t) (printed-end rs)

  trim-print_rows :
      (rs : List Row) (es : List (RemoteFindEntry F))
      → PlainRows rs es
      → trim (print_rows rs) ≡ print_rows rs
  unfolding trim trim_start_by trim_end_by print_rows
  trim-print_rows _ _ no_rows = refl
  trim-print_rows _ _ (a_row r n f rs es h hs) = rw h.type_stays (printed-end (r ∷ rs))

  -- Reading what `find` printed gives one entry for each child, in order, with its type, size, time and
  -- name; for names that hold no record separator, that are not "." or "..", and that do not end in white
  -- space. A name may hold the separator of the columns.
  pub parse_children-print_rows :
      (rs : List Row) (es : List (RemoteFindEntry F))
      → PlainRows rs es
      → parse_children parse_f64 (trim (print_rows rs)) ≡ ok es
  unfolding parse_children
  parse_children-print_rows rs es h =
      ap (parse_children parse_f64) (trim-print_rows rs es h) ∙ parse_rows-print_rows rs es h
