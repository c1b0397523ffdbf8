-- ===== src/Backup/Snapshots/Sorted.antt =====
-- The sort of snapshot names: newest first, and the same names.
use backr.Base.{
  Bool-cases, length, filter, All, All-map, Text, eq_text, ℕ, ◌≡◌, refl, inl, inr, true, false,
  List, [], ◌∷◌, arith,
}
use backr.Backup.Snapshots.{text_le, insert_desc, sort_desc}

pub text_le-total : (s t : Text) → text_le s t ≡ false → text_le t s ≡ true
unfolding text_le
text_le-total [] t h = cc
text_le-total (a ∷ s) [] h = refl
text_le-total (a ∷ s) (b ∷ t) h = ground (arith, text_le-total s t)

pub text_le_trans : (s t u : Text) → text_le s t ≡ true → text_le t u ≡ true → text_le s u ≡ true
unfolding text_le
text_le_trans [] t u h k = refl
text_le_trans (a ∷ s) [] u h k = cc
text_le_trans (a ∷ s) (b ∷ t) [] h k = cc
text_le_trans (a ∷ s) (b ∷ t) (c ∷ u) h k = ground (arith, text_le_trans s t u)

-- Every name is followed by names that are not greater.
abbrev pub IsDescending : List Text → Type 0
IsDescending [] = Unit
IsDescending (x ∷ xs) = All (λ y. text_le y x ≡ true) xs × IsDescending xs

insert_desc-All :
    (P : Text → Type 0) (x : Text) (l : List Text) → P x → All P l → All P (insert_desc x l)
unfolding insert_desc
insert_desc-All P x [] px h = (px, tt)
insert_desc-All P x (y ∷ l) px (py, h) = elim (Bool-cases (text_le y x)) [
  | inl e ↦ rw (e, All) (px, (py, h))
  | inr e ↦ rw (e, All) (py, insert_desc-All P x l px h)
]

insert_desc-IsDescending :
    (x : Text) (l : List Text) → IsDescending l → IsDescending (insert_desc x l)
unfolding insert_desc
insert_desc-IsDescending x [] h = (tt, tt)
insert_desc-IsDescending x (y ∷ l) (hy, h) = elim (Bool-cases (text_le y x)) [
  | inl e ↦ rw (e, IsDescending) ((e, All-map _ _ (λ z q. text_le_trans z y x q e) l hy), (hy, h))
  | inr e ↦
      rw (e, IsDescending)
        (
          insert_desc-All (λ z. text_le z y ≡ true) x l (text_le-total y x e) hy,
          insert_desc-IsDescending x l h,
        )
]

pub sort_desc-IsDescending : (l : List Text) → IsDescending (sort_desc l)
unfolding sort_desc
sort_desc-IsDescending [] = tt
sort_desc-IsDescending (x ∷ l) = insert_desc-IsDescending x (sort_desc l) (sort_desc-IsDescending l)

-- How often a name stands in a list.
abbrev pub occurrences : Text → List Text → ℕ
occurrences x l = length (filter (eq_text x) l)

insert_desc-occurrences :
    (z x : Text) (l : List Text) → occurrences z (insert_desc x l) ≡ occurrences z (x ∷ l)
unfolding insert_desc
insert_desc-occurrences z x [] = refl
insert_desc-occurrences z x (y ∷ l) = ground (arith, insert_desc-occurrences z x l)

pub sort_desc-occurrences :
    (z : Text) (l : List Text) → occurrences z (sort_desc l) ≡ occurrences z l
unfolding sort_desc
sort_desc-occurrences z [] = refl
sort_desc-occurrences z (x ∷ l) =
    ground (arith, insert_desc-occurrences z x (sort_desc l), sort_desc-occurrences z l)
