-- ===== src/Backup/Ssh/Detail.antt =====
-- ssh.rs: which line of the output of `ssh` a failure shows.
use backr.Base.{All, Text, ◌≡◌, Bool, true, false, List, ◌∷◌, ◌++◌}

-- The last of some lines with a property, with what stands before and behind it.
pub record Last (p : Text → Bool) (ls : List Text) (l : Text) : Type 0 where
  before : List Text
  behind : List Text
  parts : ls ≡ before ++ l ∷ behind
  holds : p l ≡ true
  no_later : All (λ m. p m ≡ false) behind
