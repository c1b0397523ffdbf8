-- ===== src/Backup/Ssh/Shell.antt =====
-- How a POSIX shell splits a line into words: the shell that OpenSSH runs on the remote host for the
-- command of backr-core/src/backup/ssh.rs, and what the crate shell_escape says of it.
use backr.Base.{
  ◌==◌, if◌then◌else◌, All, Text, codes, contains_char, ℕ, ◌≡◌, refl, sym, ap, ◌∙◌, Bool, true,
  false, ◌||◌, not, Option, none, some, List, [], ◌∷◌, ◌++◌, append-nil, append_assoc,
}

pub data Reading : Type 0 where
  gap : Reading
  word : Text → Reading
  quoted : Text → Reading
  escaped : Text → Reading

abbrev pub blank : ℕ → Bool
blank c = c == 32 || c == 9

-- what stands for more than itself outside quotes, beside quotes and the backslash
abbrev pub special : ℕ → Bool
special c = contains_char c (codes "\n\r|&;<>()$`\"*?[#~!{}")

-- a character of a word, outside quotes
unfoldable pub open_char : Text → ℕ → Option (Option Text × Reading)
open_char w c =
    if c == b'\''
    then some (none, quoted w)
    else if c == 92
    then some (none, escaped w)
    else if special c
    then none
    else some (none, word (w ++ c ∷ []))

-- One character: a word that it ends, and how to go on; `none` where it is not read as itself.
unfoldable pub read_char : Reading → ℕ → Option (Option Text × Reading)
read_char gap c = if blank c then some (none, gap) else open_char [] c
read_char (word w) c = if blank c then some (some w, gap) else open_char w c
read_char (quoted w) c = some (none, if c == b'\'' then word w else quoted (w ++ c ∷ []))
read_char (escaped w) c = if c == 10 then none else some (none, word (w ++ c ∷ []))

abbrev pub push : Text → Option (List Text) → Option (List Text)
push w none = none
push w (some ws) = some (w ∷ ws)

abbrev pub push_if : Option Text → Option (List Text) → Option (List Text)
push_if none rest = rest
push_if (some w) rest = push w rest

abbrev pub last_word : Reading → Option (List Text)
last_word gap = some []
last_word (word w) = some (w ∷ [])
last_word (quoted _) = none
last_word (escaped _) = none

unfoldable pub words_from : Reading → Text → Option (List Text)
words_from r [] = last_word r
words_from r (c ∷ s) = elim (read_char r c) [
  | none ↦ none
  | some (w, r') ↦ push_if w (words_from r' s)
]

-- The words of a line; `none` where it is more than words.
abbrev pub shell_words : Text → Option (List Text)
shell_words s = words_from gap s

-- What the documentation of shell_escape says of `escape`: the shell reads the escaped text back as it
-- was, as a word or as a part of one.
pub record Escapes (escape : Text → Text) : Type 0 where
  pub opens : (s rest : Text) → words_from gap (escape s ++ rest) ≡ words_from (word s) rest
  pub continues :
      (w s rest : Text) → words_from (word w) (escape s ++ rest) ≡ words_from (word (w ++ s)) rest

-- a character that is itself
abbrev pub plain : ℕ → Bool
plain c = not (blank c || (c == b'\'' || (c == 92 || special c)))

pub words_from-blank : (w s : Text) → words_from (word w) (32 ∷ s) ≡ push w (shell_words s)
unfolding words_from read_char
words_from-blank w s = refl

neither : (a b : Bool) → not (a || b) ≡ true → (a ≡ false) × (not b ≡ true)
neither true b h = cc
neither false b h = (refl, h)

words_from-plain_char :
    (w : Text) (c : ℕ) (s : Text)
    → plain c ≡ true
    → (words_from (word w) (c ∷ s) ≡ words_from (word (w ++ c ∷ [])) s)
      × (words_from gap (c ∷ s) ≡ words_from (word (c ∷ [])) s)
unfolding words_from read_char open_char
words_from-plain_char w c s h =
    let (not_blank, h₁) = neither (blank c) _ h in
    let (not_quote, h₂) = neither (c == b'\'') _ h₁ in
    let (not_escape, h₃) = neither (c == 92) _ h₂ in
    let not_special : special c ≡ false = sym (not-eq (special c) h₃) in
    (
      rw (words_from, read_char, not_blank, open_char, not_quote, not_escape, not_special) refl,
      rw (words_from, read_char, not_blank, open_char, not_quote, not_escape, not_special) refl,
    )
  where
    not-eq : (b : Bool) → not b ≡ true → false ≡ b
    not-eq false h = refl
    not-eq true h = cc

pub words_from-plain :
    (w p s : Text)
    → All (λ c. plain c ≡ true) p
    → words_from (word w) (p ++ s) ≡ words_from (word (w ++ p)) s
words_from-plain w [] s h = rw append-nil
words_from-plain w (c ∷ p) s (h, hs) =
    (words_from-plain_char w c (p ++ s) h).0
    ∙ (words_from-plain (w ++ c ∷ []) p s hs
        ∙ ap (λ v. words_from (word v) s) (append_assoc w (c ∷ []) p))

pub shell_words-plain :
    (c : ℕ) (p s : Text)
    → plain c ≡ true
    → All (λ d. plain d ≡ true) p
    → words_from gap (c ∷ p ++ s) ≡ words_from (word (c ∷ p)) s
shell_words-plain c p s h hs =
    (words_from-plain_char [] c (p ++ s) h).1 ∙ words_from-plain (c ∷ []) p s hs
