-- ===== src/Backup/Ssh/Wrapper.antt =====
-- ssh.rs: the `ssh` that rsync is told to use, beside the `ssh` that is run directly.
use backr.Base.{
  ltb, Bool-cases, Text, codes, contains_char, Result, ok, err, ℕ, zero, suc, ◌+◌, ◌/◌, ◌%◌, ◌<◌,
  ◌≡◌, refl, ap, ◌∙◌, subst, inl, inr, Bool, true, false, Option, some, List, [], ◌∷◌, ◌++◌,
  append_assoc, arith,
}
use mathlib.Core.List.{Perm, perm_middle}
use mathlib.Core.List.Perm
use backr.Base.Maybe.{>>=-eq-some}
use backr.Backup.Restore.{decimal}
use backr.Backup.Cache.{port_text}
use backr.Backup.Ssh.{
  SshWorld, Target, ssh_control_socket_path, host_check, control_args, base_args,
  ssh_base_command_for_host, control_text, base_text, ssh_rsh_string,
}
use backr.Backup.Ssh.Shell.{
  gap, word, words_from, read_char, open_char, plain, push, shell_words, Escapes, shell_words-plain,
}

digit-plain : (d : ℕ) → d < 10 → plain (b'0' + d) ≡ true
unfolding contains_char
digit-plain zero h = refl
digit-plain (suc zero) h = refl
digit-plain (suc (suc zero)) h = refl
digit-plain (suc (suc (suc zero))) h = refl
digit-plain (suc (suc (suc (suc zero)))) h = refl
digit-plain (suc (suc (suc (suc (suc zero))))) h = refl
digit-plain (suc (suc (suc (suc (suc (suc zero)))))) h = refl
digit-plain (suc (suc (suc (suc (suc (suc (suc zero))))))) h = refl
digit-plain (suc (suc (suc (suc (suc (suc (suc (suc zero)))))))) h = refl
digit-plain (suc (suc (suc (suc (suc (suc (suc (suc (suc zero))))))))) h = refl
digit-plain (suc (suc (suc (suc (suc (suc (suc (suc (suc (suc d)))))))))) h = ground arith

-- A port is read as it is printed.
words_from-port_text :
    (p : ℕ) (s : Text)
    → p < 65536
    → words_from gap (port_text p ++ s) ≡ words_from (word (port_text p)) s
unfolding decimal
words_from-port_text p s h = elim (Bool-cases (ltb p 10000)) [
  | inr e ↦ rw (e) (
      shell_words-plain (b'0' + p / 10000)
        ((b'0' + p / 1000 % 10)
          ∷ (b'0' + p / 100 % 10)
          ∷ (b'0' + p / 10 % 10)
          ∷ (b'0' + p % 10)
          ∷ [])
        s (digit-plain (p / 10000) (omega arith))
        (last_digit (p / 1000), (last_digit (p / 100), (last_digit (p / 10), (last_digit p, tt)))))
  | inl e ↦ elim (Bool-cases (ltb p 10)) [
    | inl e₁ ↦ rw (e, e₁) (shell_words-plain (b'0' + p) [] s (digit-plain p (ground arith)) tt)
    | inr e₁ ↦ elim (Bool-cases (ltb p 100)) [
      | inl e₂ ↦
          rw (e, e₁, e₂)
            (shell_words-plain (b'0' + p / 10) ((b'0' + p % 10) ∷ []) s
              (digit-plain (p / 10) (ground arith)) (last_digit p, tt))
      | inr e₂ ↦ elim (Bool-cases (ltb p 1000)) [
        | inl e₃ ↦
            rw (e, e₁, e₂, e₃)
              (shell_words-plain (b'0' + p / 100) ((b'0' + p / 10 % 10) ∷ (b'0' + p % 10) ∷ []) s
                (digit-plain (p / 100) (ground arith)) (last_digit (p / 10), (last_digit p, tt)))
        | inr e₃ ↦
            rw (e, e₁, e₂, e₃)
              (shell_words-plain (b'0' + p / 1000)
                ((b'0' + p / 100 % 10) ∷ (b'0' + p / 10 % 10) ∷ (b'0' + p % 10) ∷ []) s
                (digit-plain (p / 1000) (ground arith))
                (last_digit (p / 100), (last_digit (p / 10), (last_digit p, tt))))
      ]
    ]
  ]
]
  where
    last_digit : (n : ℕ) → plain (b'0' + n % 10) ≡ true
    last_digit n = digit-plain (n % 10) (omega arith)

-- the options of a command, each with its value
unfoldable pub flags : List Text → List (Text × Text)
flags [] = []
flags (_ ∷ []) = []
flags (o ∷ (v ∷ rest)) = (o, v) ∷ flags rest

abbrev pub connect_timeout : Text × Text
connect_timeout = (codes "-o", codes "ConnectTimeout=15")

reorder :
    (p i t b d s : Text × Text) (rest : List (Text × Text))
    → Perm (t ∷ p ∷ i ∷ s ∷ b ∷ d ∷ rest) (p ∷ i ∷ t ∷ b ∷ d ∷ s ∷ rest)
reorder p i t b d s rest =
    Perm.trans (Perm.symm (perm_middle (p ∷ i ∷ []) (s ∷ b ∷ d ∷ rest)))
      (Perm.cons p (Perm.cons i (Perm.cons t (Perm.symm (perm_middle (b ∷ d ∷ []) rest)))))

append_behind :
    (a b c d e f g h z : Text)
    → (a ++ (b ++ (c ++ (d ++ (e ++ (f ++ (g ++ h))))))) ++ z
      ≡ a ++ (b ++ (c ++ (d ++ (e ++ (f ++ (g ++ (h ++ z)))))))
append_behind a b c d e f g h z = simp (append_assoc)

module _ {E : Type 0} (w : SshWorld E) (escapes : Escapes w.escape) where
  words-control :
      (v : Text) (control : Result Text E)
      → words_from (word v) (control_text w control) ≡ some (v ∷ control_args w control)
  unfolding words_from read_char open_char contains_char
  words-control v (err _) = refl
  words-control v (ok socket_path) =
      ap (λ r. push v (push (codes "-o") (push (codes "ControlMaster=auto") (push (codes "-o") r))))
        (escapes.continues (codes "ControlPath=") socket_path (codes " -o ControlPersist=60"))

  words-known_hosts :
      (accept_new : Bool) (known_hosts : Text) (control : Result Text E)
      → words_from gap (
          host_check w accept_new
          ++ (codes " -o BatchMode=yes -o IdentitiesOnly=yes -o UserKnownHostsFile="
              ++ (w.escape known_hosts ++ control_text w control)))
        ≡ some (
            host_check w accept_new
            ∷ codes "-o"
            ∷ codes "BatchMode=yes"
            ∷ codes "-o"
            ∷ codes "IdentitiesOnly=yes"
            ∷ codes "-o"
            ∷ (codes "UserKnownHostsFile=" ++ known_hosts)
            ∷ control_args w control)
  unfolding words_from read_char open_char contains_char
  words-known_hosts true known_hosts control =
      ap
        (λ r. push (host_check w true) (
          push (codes "-o") (
            push (codes "BatchMode=yes")
              (push (codes "-o") (push (codes "IdentitiesOnly=yes") (push (codes "-o") r))))))
        (escapes.continues (codes "UserKnownHostsFile=") known_hosts (control_text w control)
          ∙ words-control (codes "UserKnownHostsFile=" ++ known_hosts) control)
  words-known_hosts false known_hosts control =
      ap
        (λ r. push (host_check w false) (
          push (codes "-o") (
            push (codes "BatchMode=yes")
              (push (codes "-o") (push (codes "IdentitiesOnly=yes") (push (codes "-o") r))))))
        (escapes.continues (codes "UserKnownHostsFile=") known_hosts (control_text w control)
          ∙ words-control (codes "UserKnownHostsFile=" ++ known_hosts) control)

  abbrev rsh_words : Target → Bool → Result Text E → List Text
  rsh_words t accept_new control =
      codes "-p"
      ∷ port_text t.ssh_port
      ∷ codes "-i"
      ∷ t.ssh_key
      ∷ codes "-o"
      ∷ host_check w accept_new
      ∷ codes "-o"
      ∷ codes "BatchMode=yes"
      ∷ codes "-o"
      ∷ codes "IdentitiesOnly=yes"
      ∷ codes "-o"
      ∷ (codes "UserKnownHostsFile=" ++ t.known_hosts)
      ∷ control_args w control

  shell_words-base_text :
      (t : Target) (accept_new : Bool) (control : Result Text E)
      → t.ssh_port < 65536
      → shell_words (base_text w t accept_new ++ control_text w control)
        ≡ some (codes "ssh" ∷ rsh_words t accept_new control)
  unfolding words_from read_char open_char contains_char
  shell_words-base_text t accept_new control small =
      let last =
        host_check w accept_new
        ++ (codes " -o BatchMode=yes -o IdentitiesOnly=yes -o UserKnownHostsFile="
            ++ (w.escape t.known_hosts ++ control_text w control)) in
      ap (words_from gap) (
        append_behind (codes "ssh -p ") (port_text t.ssh_port) (codes " -i ") (w.escape t.ssh_key)
          (codes " -o ") (host_check w accept_new)
          (codes " -o BatchMode=yes -o IdentitiesOnly=yes -o UserKnownHostsFile=")
          (w.escape t.known_hosts) (control_text w control))
      ∙ (ap (λ r. push (codes "ssh") (push (codes "-p") r))
            (words_from-port_text t.ssh_port
              (codes " -i " ++ (w.escape t.ssh_key ++ (codes " -o " ++ last))) small)
          ∙ (ap
                (λ r.
                  push (codes "ssh")
                    (push (codes "-p") (push (port_text t.ssh_port) (push (codes "-i") r))))
                (escapes.opens t.ssh_key (codes " -o " ++ last))
              ∙ ap
                  (λ r. push (codes "ssh") (
                    push (codes "-p") (
                      push (port_text t.ssh_port)
                        (push (codes "-i") (push t.ssh_key (push (codes "-o") r))))))
                  (words-known_hosts accept_new t.known_hosts control)))

  -- The words that a shell reads in the command for rsync are `ssh` with the options of the `ssh` that is
  -- run directly, but for the time limit of the connection, and in another order.
  pub ssh_rsh_string-ssh_base_command_for_host :
      (t : Target) (accept_new : Bool) (args : List Text)
      → t.ssh_port < 65536
      → ssh_base_command_for_host w t accept_new ≡ some args
      → (rsh : Text) × (words : List Text) × (ssh_rsh_string w t accept_new ≡ some rsh)
        × (shell_words rsh ≡ some (codes "ssh" ∷ words))
        × Perm (connect_timeout ∷ flags words) (flags args)
  unfolding ssh_base_command_for_host ssh_rsh_string flags
  ssh_rsh_string-ssh_base_command_for_host t accept_new args small h =
      let (control, found, made) =
        >>=-eq-some (ssh_control_socket_path w t.host t.ssh_port)
          (λ control. some (base_args w t accept_new ++ control_args w control)) h in
      (
        base_text w t accept_new ++ control_text w control,
        rsh_words t accept_new control,
        rw (ssh_rsh_string, found) refl,
        shell_words-base_text t accept_new control small,
        subst (λ l. Perm (connect_timeout ∷ flags (rsh_words t accept_new control)) (flags l))
            (some-injective made) (reorder _ _ _ _ _ _ _),
      )
    where
      some-injective : {a b : List Text} → ◌≡◌ {A = Option (List Text)} (some a) (some b) → a ≡ b
      some-injective q = cc
