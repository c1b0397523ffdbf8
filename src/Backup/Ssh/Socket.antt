-- ===== src/Backup/Ssh/Socket.antt =====
-- ssh.rs: how long the name of a control socket is.
use backr.Base.{
  ltb, ◌==◌, if◌then◌else◌, Bool-cases, length, length-append, All, Text, codes, ℕ, zero, suc, ◌+◌,
  ◌-◌, ◌%◌, ◌≤◌, ◌<◌, ◌≡◌, refl, ap, ◌∙◌, inl, inr, Bool, true, false, ◌||◌, some, [], ◌∷◌, ◌++◌,
  map, arith,
}
use backr.Pairing.Bits.{utf8_char, as_bytes}
use backr.Backup.Restore.{decimal}
use backr.Backup.Cache.{port_text}
use backr.Backup.Ssh.{
  SshWorld, take_bytes, bytes, suffix, max_host_len, safe_host_char, truncated_host, socket_name,
}

bytes-cons : (c : ℕ) (s : Text) → bytes (c ∷ s) ≡ length (utf8_char c) + bytes s
unfolding as_bytes
bytes-cons c s = length-append (utf8_char c) (as_bytes s)

bytes-append : (s t : Text) → bytes (s ++ t) ≡ bytes s + bytes t
unfolding as_bytes
bytes-append [] t = omega arith
bytes-append (c ∷ s) t =
    let whole = bytes-cons c (s ++ t) in
    let left = bytes-cons c s in let rest = bytes-append s t in ground arith

one_byte : (c : ℕ) → c < 0x80 → length (utf8_char c) ≡ 1
unfolding utf8_char
one_byte c h = ground arith

bytes-cons_ascii : (c : ℕ) (s : Text) → c < 0x80 → bytes (c ∷ s) ≡ suc (bytes s)
bytes-cons_ascii c s h = let one = one_byte c h in let whole = bytes-cons c s in ground arith

bytes-ascii : (s : Text) → All (λ c. c < 0x80) s → bytes s ≡ length s
unfolding as_bytes
bytes-ascii [] h = refl
bytes-ascii (c ∷ s) (h, hs) = bytes-cons_ascii c s h ∙ ap suc (bytes-ascii s hs)

-- a port is at most five digits
port_text-short :
    (p : ℕ) → p < 65536 → All (λ c. c < 0x80) (port_text p) × (length (port_text p) ≤ 5)
unfolding decimal
port_text-short p h = elim (Bool-cases (ltb p 10000)) [
  | inr e ↦ rw (e) ((ground arith, (digit _, (digit _, (digit _, (digit _, tt))))), omega arith)
  | inl e ↦ elim (Bool-cases (ltb p 10)) [
    | inl e₁ ↦ rw (e, e₁) ((ground arith, tt), omega arith)
    | inr e₁ ↦ elim (Bool-cases (ltb p 100)) [
      | inl e₂ ↦ rw (e, e₁, e₂) ((ground arith, (digit _, tt)), omega arith)
      | inr e₂ ↦ elim (Bool-cases (ltb p 1000)) [
        | inl e₃ ↦ rw (e, e₁, e₂, e₃) ((ground arith, (digit _, (digit _, tt))), omega arith)
        | inr e₃ ↦
            rw (e, e₁, e₂, e₃) ((ground arith, (digit _, (digit _, (digit _, tt)))), omega arith)
      ]
    ]
  ]
]
  where
    digit : (n : ℕ) → b'0' + n % 10 < 0x80
    digit n = omega arith

-- a prefix of an ASCII text ends at every byte
take_bytes-ascii :
    (n : ℕ) (s : Text)
    → All (λ c. c < 0x80) s
    → n ≤ bytes s
    → (t : Text) × (take_bytes n s ≡ some t) × (bytes t ≡ n)
unfolding take_bytes as_bytes
take_bytes-ascii zero [] h k = ([], refl, refl)
take_bytes-ascii zero (c ∷ s) h k = ([], refl, refl)
take_bytes-ascii (suc n) [] h k = absurd (no_bytes n k)
  where
    no_bytes : (n : ℕ) → ◌≤◌ (suc n) 0 → ⊥
    no_bytes n k = omega arith
take_bytes-ascii (suc n) (c ∷ s) (h, hs) k =
    let one = one_byte c h in
    let whole = bytes-cons_ascii c s h in
    let (t, taken, sized) = take_bytes-ascii n s hs (ground arith) in
    let one_less : suc n - 1 ≡ n = omega arith in
    let more : (suc n == 0) ≡ false = ground arith in
    let enough : ltb (suc n) 1 ≡ false = ground arith in
    (
      c ∷ t,
      rw (take_bytes, one, more, enough, one_less, taken) refl,
      bytes-cons_ascii c t h ∙ ap suc sized,
    )

-- what replaces a character of an ASCII host is ASCII
safe_host-ascii :
    {E : Type 0} (w : SshWorld E) (host : Text)
    → All (λ c. c < 0x80) host
    → All (λ c. c < 0x80) (map (safe_host_char w) host)
safe_host-ascii w [] h = tt
safe_host-ascii w (c ∷ host) (h, hs) =
    (go (w.is_alphanumeric c || (c == b'.' || c == b'-')), safe_host-ascii w host hs)
  where
    go : (b : Bool) → (if b then c else b'_') < 0x80
    go true = h
    go false = omega arith

module _ {E : Type 0} (w : SshWorld E) where
  truncated_host-short :
      (host : Text) (port : ℕ)
      → All (λ c. c < 0x80) host
      → (short : Text) × (truncated_host w host port ≡ some short)
        × (bytes short ≤ max_host_len w port)
  unfolding truncated_host
  truncated_host-short host port h =
      let safe = map (safe_host_char w) host in
      elim (Bool-cases (ltb (max_host_len w port) (bytes safe))) [
        | inr e ↦ (safe, rw (truncated_host, e) refl, ground arith)
        | inl e ↦
            let (short, taken, sized) =
              take_bytes-ascii (max_host_len w port) safe (safe_host-ascii w host h)
                (ground arith) in
            (short, rw (truncated_host, e) taken, ground arith)
      ]

  suffix-short : (port : ℕ) → port < 65536 → bytes (suffix w port) ≤ 11
  suffix-short port h =
      let (ascii, few) = port_text-short port h in
      let whole = bytes-cons_ascii b'-' (port_text port ++ codes ".sock") (omega arith) in
      let parts = bytes-append (port_text port) (codes ".sock") in
      let five : bytes (codes ".sock") ≡ 5 =
        bytes-ascii (codes ".sock")
          (omega arith, (omega arith, (omega arith, (omega arith, (omega arith, tt))))) in
      let digits = bytes-ascii (port_text port) ascii in ground arith

  -- A host of ASCII characters, whatever they are and however many, has a socket whose name is at most 80
  -- bytes long.
  pub socket_name-short :
      (host : Text) (port : ℕ)
      → All (λ c. c < 0x80) host
      → port < 65536
      → (name : Text) × (socket_name w host port ≡ some name) × (bytes name ≤ 80)
  unfolding socket_name
  socket_name-short host port h small =
      let (short, made, fits) = truncated_host-short host port h in
      let tail = suffix-short port small in
      let name = codes "backr-" ++ (short ++ suffix w port) in
      let whole = bytes-append (codes "backr-") (short ++ suffix w port) in
      let parts = bytes-append short (suffix w port) in
      let six : bytes (codes "backr-") ≡ 6 = bytes-ascii (codes "backr-") (
        omega arith,
        (omega arith, (omega arith, (omega arith, (omega arith, (omega arith, tt))))),
      ) in
      (name, rw (socket_name, made) refl, ground arith)
