-- ===== src/Trust/Quote.antt =====
-- host_trust.rs: the shell commands that an operator is given to paste.
use backr.Base.{
  ends_with_char, ◌==◌, if◌then◌else◌, ==_iff, Bool-cases, Text, codes, is_empty, replace_char, ◌≡◌,
  ap, ◌∙◌, inl, inr, ◌||◌, [], ◌∷◌, ◌++◌, append-nil, append_assoc,
}
use backr.Backup.Ssh.Shell.{word, quoted, words_from, read_char, open_char, Escapes}

-- Wraps a text in single quotes for the shell.
unfoldable pub bash_single_quote : Text → Text
bash_single_quote s = b'\'' ∷ replace_char b'\'' (codes "'\\''") s ++ b'\'' ∷ []

-- `Path::join` for a relative second part
unfoldable pub path_join : Text → Text → Text
path_join base child =
    if is_empty base || ends_with_char b'/' base then base ++ child else base ++ b'/' ∷ child

unfoldable pub ssh_dir : Text → Text
unfolding path_join
ssh_dir home = path_join home (codes ".ssh")

unfoldable pub ak_path : Text → Text
unfolding ssh_dir
ak_path home = path_join (ssh_dir home) (codes "authorized_keys")

unfoldable pub build_sudo_append_snippet : Text → Text → Text → Text
unfolding bash_single_quote ssh_dir ak_path
build_sudo_append_snippet user line home =
    let ak_q = bash_single_quote (ak_path home) in
    let line_q = bash_single_quote line in
    let dir_q = bash_single_quote (ssh_dir home) in
    codes "# Run on this backup machine (terminal):\nsudo install -d -m 700 -o "
    ++ (user
        ++ (codes " -g "
            ++ (user
                ++ (codes " "
                    ++ (dir_q
                        ++ (codes "\nprintf '%s\\n' "
                            ++ (line_q
                                ++ (codes " | sudo tee -a "
                                    ++ (ak_q
                                        ++ (codes " >/dev/null\nsudo chown "
                                            ++ (user
                                                ++ (codes ":"
                                                    ++ (user
                                                        ++ (codes " "
                                                            ++ (ak_q
                                                            ++ (codes "\nsudo chmod 600 "
                                                            ++ (ak_q ++ codes "\n")))))))))))))))))

-- Single quotes are an escaping for the shell.
words_from-replace :
    (w s rest : Text)
    → words_from (quoted w) (replace_char b'\'' (codes "'\\''") s ++ b'\'' ∷ rest)
      ≡ words_from (word (w ++ s)) rest
unfolding replace_char words_from read_char open_char
words_from-replace w [] rest = rw append-nil
words_from-replace w (c ∷ s) rest = elim (Bool-cases (c == b'\'')) [
  | inl quote ↦ rw ((==_iff c b'\'').0 quote) (
      words_from-replace (w ++ b'\'' ∷ []) s rest
      ∙ ap (λ v. words_from (word v) rest) (append_assoc w (b'\'' ∷ []) s))
  | inr other ↦
      rw (other, if◌then◌else◌)
        (rw (other, words_from, read_char)
          (words_from-replace (w ++ c ∷ []) s rest
            ∙ ap (λ v. words_from (word v) rest) (append_assoc w (c ∷ []) s)))
]

pub bash_single_quote-Escapes : Escapes bash_single_quote
unfolding bash_single_quote words_from read_char open_char
bash_single_quote-Escapes = record {
  opens = λ s rest.
      ap (words_from (quoted []))
        (append_assoc (replace_char b'\'' (codes "'\\''") s) (b'\'' ∷ []) rest)
      ∙ words_from-replace [] s rest;
  continues = λ w s rest.
      ap (words_from (quoted w))
        (append_assoc (replace_char b'\'' (codes "'\\''") s) (b'\'' ∷ []) rest)
      ∙ words_from-replace w s rest;
}
