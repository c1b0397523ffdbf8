-- ===== src/Update/Files.antt =====
-- The files that update/swap.rs works on. A path is its components, the last one first: `[]` is the
-- root directory, which has neither a parent nor a file name.
use backr.Base.{
  ap₂, if◌then◌else◌, Bool-cases, Text, eq_text, eq_text→≡, eq_text_self, ◌≡◌, refl, inl, inr, Bool,
  true, false, Option, none, some, List, [], ◌∷◌,
}

abbrev pub PathBuf : Type 0
PathBuf = List Text

unfoldable pub eq_path : PathBuf → PathBuf → Bool
eq_path [] [] = true
eq_path [] (_ ∷ _) = false
eq_path (_ ∷ _) [] = false
eq_path (a ∷ p) (b ∷ q) = if eq_text a b then eq_path p q else false

pub eq_path→≡ : (p q : PathBuf) → eq_path p q ≡ true → p ≡ q
unfolding eq_path
eq_path→≡ [] [] e = refl
eq_path→≡ [] (b ∷ q) e = cc
eq_path→≡ (a ∷ p) [] e = cc
eq_path→≡ (a ∷ p) (b ∷ q) e = elim (Bool-cases (eq_text a b)) [
  | inl same ↦
      ap₂ (λ (x : Text) (y : PathBuf). x ∷ y) (eq_text→≡ a b same)
        (eq_path→≡ p q (both (eq_text a b) (eq_path p q) same e))
  | inr differ ↦ absurd (neither (eq_text a b) (eq_path p q) differ e)
]
  where
    both : (x y : Bool) → x ≡ true → (if x then y else false) ≡ true → y ≡ true
    both true y _ h = h
    both false y h _ = cc

    neither : (x y : Bool) → x ≡ false → (if x then y else false) ≡ true → ⊥
    neither true y h _ = cc
    neither false y _ h = cc

pub eq_path_self : (p : PathBuf) → eq_path p p ≡ true
unfolding eq_path
eq_path_self [] = refl
eq_path_self (a ∷ p) = rw (eq_text_self a) (eq_path_self p)

-- A file with its content and whether it is executable, or a directory.
pub data Node : Type 0 where
  file : Text → Bool → Node
  directory : Node

abbrev pub Files : Type 0
Files = PathBuf → Option Node

-- One path changed.
unfoldable pub put : PathBuf → Option Node → Files → Files
put p entry fs q = if eq_path q p then entry else fs q

pub put-other :
    (p q : PathBuf) (entry : Option Node) (fs : Files)
    → eq_path q p ≡ false
    → put p entry fs q ≡ fs q
unfolding put
put-other p q entry fs e = rw e refl

pub put_self : (p : PathBuf) (entry : Option Node) (fs : Files) → put p entry fs p ≡ entry
unfolding put
put_self p entry fs = rw (eq_path_self p) refl

-- `p.exists()`
abbrev pub exists : Files → PathBuf → Bool
exists fs p = elim (fs p) [ none ↦ false | some _ ↦ true ]

-- `p.is_file()`
abbrev pub is_file : Files → PathBuf → Bool
is_file fs p = elim (fs p) [
  | none ↦ false
  | some node ↦ elim node [ file _ _ ↦ true | directory ↦ false ]
]

-- `p.is_dir()`
abbrev pub is_dir : Files → PathBuf → Bool
is_dir fs p = elim (fs p) [
  | none ↦ false
  | some node ↦ elim node [ file _ _ ↦ false | directory ↦ true ]
]

-- `fs::rename(a, b)`: the new files, or `none` and nothing changed, if it fails or there is no `a`
unfoldable pub rename : Bool → PathBuf → PathBuf → Files → Option Files
rename fails a b fs = elim (fs a) [
  | none ↦ none
  | some node ↦ if fails then none else some (put b (some node) (put a none fs))
]

-- `fs::remove_file(p)`
unfoldable pub remove_file : Bool → PathBuf → Files → Files
remove_file fails p fs = if fails then fs else put p none fs
