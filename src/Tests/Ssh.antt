-- ===== src/Tests/Ssh.antt =====
-- Tests of the commands over ssh.
use backr.Base.{
  ltb, leb, All, Text, codes, eq_text, contains_char, join, Result, ok, err, ℕ, ◌≤◌, ◌<◌, ◌≡◌, refl,
  ap, ◌⊎◌, Bool, true, false, ◌&&◌, Option, none, some, List, [], ◌∷◌, ◌++◌, arith,
}
use mathlib.Core.List.{Perm}
use backr.Trust.Quote.{bash_single_quote, bash_single_quote-Escapes}
use backr.Backup.Restore.{decimal}
use backr.Backup.Validate.{validate_remote_component}
use backr.Backup.Paths.{ReadPathError}
use backr.Backup.Paths.Containment.{resolve}
use backr.Pairing.Bits.{utf8_char, as_bytes}
use backr.Backup.Ssh.{
  Output, bad_path, SshWorld, Target, take_bytes, bytes, truncated_host, socket_name,
  ssh_control_socket_path, ssh_base_command_for_host, ssh_rsh_string,
}
use backr.Backup.Ssh.Operations.{destination, ssh_exec_trimmed, remote_read_file_bytes}
use backr.Backup.Ssh.Shell.{shell_words}
use backr.Backup.Ssh.Remote.{
  exact_reply, trimmed_reply, ssh_exec_trimmed-answers, remote_read_file_bytes-answers,
}
use backr.Backup.Ssh.Wrapper.{flags, connect_timeout, ssh_rsh_string-ssh_base_command_for_host}
use backr.Backup.Ssh.Socket.{socket_name-short}

-- A remote host that says the words of its command, one behind the other.
abbrev last : List Text → Text
last [] = []
last (s ∷ []) = s
last (_ ∷ (t ∷ ts)) = last (t ∷ ts)

last-append : (args : List Text) (dest line : Text) → last (args ++ dest ∷ line ∷ []) ≡ line
last-append [] dest line = refl
last-append (a ∷ []) dest line = refl
last-append (a ∷ (b ∷ args)) dest line = last-append (b ∷ args) dest line

abbrev said : Option (List Text) → Result Output Unit
said none = ok (record { success = false; stdout = []; stderr = codes "syntax error\n" })
said (some argv) = ok (record { success = true; stdout = join [] argv; stderr = [] })

abbrev world : SshWorld Unit
world = record {
  output = λ args. said (shell_words (last args));
  from_utf8 = λ b. some b;
  ssh_control_dir = ok (codes "/run/backr");
  escape = bash_single_quote;
  is_alphanumeric = λ c. leb b'a' c && leb c b'z';
}

abbrev target : Target
target = record {
  ssh_key = codes "/home/a b/key";
  known_hosts = codes "/home/a b/known";
  host = codes "nas.local";
  user = codes "backr";
  ssh_port = 2222;
}

abbrev answers : Target → Bool → Option (List Text) → Result Output Unit
answers _ _ words = said words

hands :
    (t : Target) (accept_new : Bool) (args : List Text) (line : Text)
    → ssh_base_command_for_host world t accept_new ≡ some args
    → world.output (args ++ destination world t ∷ line ∷ [])
      ≡ answers t accept_new (shell_words line)
hands t accept_new args line h =
    ap (λ l. said (shell_words l)) (last-append args (destination world t) line)

abbrev options : List Text
options =
    codes "-p"
    ∷ codes "2222"
    ∷ codes "-i"
    ∷ codes "/home/a b/key"
    ∷ codes "-o"
    ∷ codes "ConnectTimeout=15"
    ∷ codes "-o"
    ∷ codes "BatchMode=yes"
    ∷ codes "-o"
    ∷ codes "IdentitiesOnly=yes"
    ∷ codes "-o"
    ∷ codes "StrictHostKeyChecking=accept-new"
    ∷ codes "-o"
    ∷ codes "UserKnownHostsFile=/home/a b/known"
    ∷ codes "-o"
    ∷ codes "ControlMaster=auto"
    ∷ codes "-o"
    ∷ codes "ControlPath=/run/backr/backr-nas.local-2222.sock"
    ∷ codes "-o"
    ∷ codes "ControlPersist=60"
    ∷ []

options-made : ssh_base_command_for_host world target true ≡ some options
unfolding ssh_base_command_for_host ssh_control_socket_path socket_name truncated_host utf8_char
    as_bytes decimal
options-made = refl

ssh_exec_trimmed-answers_example :
    ssh_exec_trimmed world target true (codes "echo" ∷ codes "it's; $HOME" ∷ [])
    ≡ some (
        trimmed_reply world bash_single_quote-Escapes
          (answers target true (some (codes "echo" ∷ codes "it's; $HOME" ∷ []))))
ssh_exec_trimmed-answers_example =
    ssh_exec_trimmed-answers world bash_single_quote-Escapes answers hands target true options
      (codes "echo" ∷ codes "it's; $HOME" ∷ []) options-made

my_app-valid : validate_remote_component (codes "my app") ≡ ok tt
unfolding validate_remote_component eq_text contains_char
my_app-valid = refl

s1-valid : validate_remote_component (codes "s1") ≡ ok tt
unfolding validate_remote_component eq_text contains_char
s1-valid = refl

remote_read_file_bytes-answers_example :
    ((e : ReadPathError) × (remote_read_file_bytes world target
          (codes "/srv")
          (codes "my app")
          (codes "s1")
          (codes "src/a.rs")
          (codes "9")
        ≡ some (err (bad_path e))))
    ⊎ ((abs : Text) × (remote_read_file_bytes world target
            (codes "/srv")
            (codes "my app")
            (codes "s1")
            (codes "src/a.rs")
            (codes "9")
          ≡ some (
              exact_reply world bash_single_quote-Escapes
                (answers target true (some (codes "head" ∷ codes "-c" ∷ codes "9" ∷ abs ∷ [])))))
        × ((more : List Text) × (resolve abs
              ≡ more ++ codes "s1" ∷ codes "my app" ∷ resolve (codes "/srv"))))
remote_read_file_bytes-answers_example =
    remote_read_file_bytes-answers world bash_single_quote-Escapes answers hands target options
      (codes "/srv") (codes "my app") (codes "s1") (codes "src/a.rs") (codes "9") options-made
      my_app-valid s1-valid

ssh_rsh_string-ssh_base_command_for_host_example :
    (rsh : Text) × (words : List Text) × (ssh_rsh_string world target true ≡ some rsh)
    × (shell_words rsh ≡ some (codes "ssh" ∷ words))
    × Perm (connect_timeout ∷ flags words) (flags options)
ssh_rsh_string-ssh_base_command_for_host_example =
    ssh_rsh_string-ssh_base_command_for_host world bash_single_quote-Escapes target true options
      small options-made
  where
    small : 2222 < 65536
    small = omega arith

-- the name of the socket of a host with a long name
socket_name-short_example :
    (name : Text) × (socket_name world (codes "backup.example.com") 22 ≡ some name)
    × (bytes name ≤ 80)
socket_name-short_example =
    socket_name-short world (codes "backup.example.com") 22 ascii (omega arith)
  where
    char : (c : ℕ) → ltb c 0x80 ≡ true → c < 0x80
    char c h = ground arith

    all : (s : Text) → All (λ c. ltb c 0x80 ≡ true) s → All (λ c. c < 0x80) s
    all [] h = tt
    all (c ∷ s) (h, hs) = (char c h, all s hs)

    ascii : All (λ c. c < 0x80) (codes "backup.example.com")
    ascii = all (codes "backup.example.com") (
      refl,
      (
        refl,
        (
          refl,
          (
            refl,
            (
              refl,
              (
                refl,
                (
                  refl,
                  (
                    refl,
                    (
                      refl,
                      (refl, (refl, (refl, (refl, (refl, (refl, (refl, (refl, (refl, tt))))))))),
                    ),
                  ),
                ),
              ),
            ),
          ),
        ),
      ),
    )

-- The slice of a host whose letters have two bytes ends inside one of them.
abbrev wide : SshWorld Unit
wide = record world { is_alphanumeric = λ c. leb b'a' c }

inside_letter :
    socket_name wide
      (b'a' ∷ 0xe9 ∷ 0xe9 ∷ 0xe9 ∷ 0xe9 ∷ 0xe9 ∷ 0xe9 ∷ 0xe9 ∷ 0xe9 ∷ 0xe9 ∷ 0xe9 ∷ 0xe9 ∷ 0xe9
        ∷ 0xe9 ∷ 0xe9 ∷ 0xe9 ∷ 0xe9 ∷ 0xe9 ∷ 0xe9 ∷ 0xe9 ∷ 0xe9 ∷ 0xe9 ∷ 0xe9 ∷ 0xe9 ∷ 0xe9 ∷ 0xe9
        ∷ 0xe9 ∷ 0xe9 ∷ 0xe9 ∷ 0xe9 ∷ 0xe9 ∷ 0xe9 ∷ 0xe9 ∷ 0xe9 ∷ 0xe9 ∷ 0xe9 ∷ [])
      22
    ≡ none
unfolding socket_name truncated_host take_bytes utf8_char as_bytes decimal
inside_letter = refl

abbrev denied : SshWorld Unit
denied = record world {
  output = λ args. ok (record {
    success = false;
    stdout = [];
    stderr = codes "Warning: Permanently added 'nas'\nPermission denied (publickey).\n";
  });
}
