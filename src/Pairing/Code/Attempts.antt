-- ===== src/Pairing/Code/Attempts.antt =====
-- What a run of attempts against one session can do.
use backr.Base.{
  ◌==◌, if◌then◌else◌, Bool-cases, length, take, any, filter, All, Text, eq_text, digits_from,
  parse_uint, ℕ, zero, suc, ◌+◌, ◌-◌, ◌*◌, ◌/◌, ◌%◌, ◌≤◌, ◌<◌, ◌≡◌, refl, sym, ap, ◌∙◌, subst, inl,
  inr, Bool, true, false, some, List, [], ◌∷◌, arith,
}
use backr.Pairing.Code.{
  CodeValidation, valid, invalid, locked, already_used, PairingSession, max_attempts, six_digits,
  constant_time_eq, validate,
}
use backr.Pairing.Bits.{as_bytes}
use backr.Pairing.Code.Compare.{IsChars, constant_time_eq-as_bytes}

-- The answers to a sequence of codes, each attempt on the session that the last one left.
unfoldable pub answers : List Text → PairingSession → List CodeValidation
answers [] s = []
answers (i ∷ is) s = let (s', v) = validate i s in v ∷ answers is s'

unfoldable pub after : List Text → PairingSession → PairingSession
after [] s = s
after (i ∷ is) s = let (s', v) = validate i s in after is s'

abbrev pub is_valid : CodeValidation → Bool
is_valid valid = true
is_valid (invalid _) = false
is_valid locked = false
is_valid already_used = false

abbrev pub is_invalid : CodeValidation → Bool
is_invalid valid = false
is_invalid (invalid _) = true
is_invalid locked = false
is_invalid already_used = false

-- A code of ASCII characters, and a budget that never grew.
pub record IsSession (s : PairingSession) : Type 0 where
  pub ascii : All (λ c. c < 0x80) s.code
  pub budget : s.attempts_left ≤ max_attempts

suc-ne-zero : (k : ℕ) → (suc k == 0) ≡ false
suc-ne-zero k = ground arith

suc-minus : (k : ℕ) → suc k - 1 ≡ k
suc-minus k = ground arith

-- One attempt, by the state it meets.
validate-consumed :
    (i : Text) (s : PairingSession) → s.consumed ≡ true → validate i s ≡ (s, already_used)
unfolding validate
validate-consumed i s h = simp h refl

validate-spent :
    (i : Text) (s : PairingSession)
    → s.consumed ≡ false
    → s.attempts_left ≡ 0
    → validate i s ≡ (s, locked)
unfolding validate
validate-spent i s h e = simp (validate, h, e) refl

validate-open :
    (i : Text) (s : PairingSession) (k : ℕ)
    → s.consumed ≡ false
    → s.attempts_left ≡ suc k
    → validate i s ≡ (
        if constant_time_eq (as_bytes i) (as_bytes s.code)
        then (record s { consumed = true }, valid)
        else (record s { attempts_left = k }, invalid k))
unfolding validate
validate-open i s k h e = simp (validate, h, e, suc-ne-zero k, suc-minus k) refl

answers-consumed :
    (is : List Text) (s : PairingSession) → s.consumed ≡ true → filter is_valid (answers is s) ≡ []
unfolding answers
answers-consumed [] s h = refl
answers-consumed (i ∷ is) s h = rw (answers, validate-consumed i s h) (answers-consumed is s h)

-- A spent or consumed session stays as it is.
pub after-consumed : (is : List Text) (s : PairingSession) → s.consumed ≡ true → after is s ≡ s
unfolding after
after-consumed [] s h = refl
after-consumed (i ∷ is) s h = rw (after, validate-consumed i s h) (after-consumed is s h)

answers-spent :
    (is : List Text) (s : PairingSession)
    → s.consumed ≡ false
    → s.attempts_left ≡ 0
    → any is_valid (answers is s) ≡ false
unfolding answers
answers-spent [] s h e = refl
answers-spent (i ∷ is) s h e = rw (answers, validate-spent i s h e) (answers-spent is s h e)

-- With `k` attempts left, a run is accepted exactly when the code is among its first `k` texts.
pub accepted-first :
    (is : List Text) (s : PairingSession) (k : ℕ)
    → All IsChars is
    → IsSession s
    → s.consumed ≡ false
    → s.attempts_left ≡ k
    → any is_valid (answers is s) ≡ any (λ i. eq_text i s.code) (take k is)
unfolding answers
accepted-first is s zero hi hs h e = answers-spent is s h e
accepted-first [] s (suc k) hi hs h e = refl
accepted-first (i ∷ is) s (suc k) (hi, his) hs h e = elim (Bool-cases (eq_text i s.code)) [
  | inl right ↦
      rw (answers, validate-open i s k h e, constant_time_eq-as_bytes i s.code hi hs.ascii, right)
        refl
  | inr wrong ↦
      rw (answers, validate-open i s k h e, constant_time_eq-as_bytes i s.code hi hs.ascii, wrong)
        (accepted-first is (record s { attempts_left = k }) k his
          (record { ascii = hs.ascii; budget = omega (arith, e, hs.budget) }) h refl)
]

-- The four ways of one attempt.
pub data Attempt (i : Text) (s : PairingSession) : PairingSession × CodeValidation → Type 0 where
  used : s.consumed ≡ true → Attempt i s (s, already_used)
  spent : s.attempts_left ≡ 0 → Attempt i s (s, locked)
  opened :
      s.consumed ≡ false
      → constant_time_eq (as_bytes i) (as_bytes s.code) ≡ true
      → Attempt i s (record s { consumed = true }, valid)
  refused :
      (k : ℕ) → s.attempts_left ≡ suc k → Attempt i s (record s { attempts_left = k }, invalid k)

pub validate-Attempt : (i : Text) (s : PairingSession) → Attempt i s (validate i s)
unfolding validate
validate-Attempt i s = elim (Bool-cases s.consumed) [
  | inl h ↦ subst (Attempt i s) (sym (validate-consumed i s h)) (used h)
  | inr h ↦ go s.attempts_left refl h
]
  where
    go : (k : ℕ) → s.attempts_left ≡ k → s.consumed ≡ false → Attempt i s (validate i s)
    go zero e h = subst (Attempt i s) (sym (validate-spent i s h e)) (spent e)
    go (suc k) e h = elim (Bool-cases (constant_time_eq (as_bytes i) (as_bytes s.code))) [
      | inl right ↦
          subst (Attempt i s) (sym (validate-open i s k h e ∙ rw right refl)) (opened h right)
      | inr wrong ↦
          subst (Attempt i s) (sym (validate-open i s k h e ∙ rw wrong refl)) (refused k e)
    ]

-- An attempt keeps a session well formed, and its code.
pub validate-IsSession :
    (i : Text) (s : PairingSession)
    → IsSession s
    → IsSession (validate i s).0 × ((validate i s).0.code ≡ s.code)
validate-IsSession i s hs = go (validate i s) (validate-Attempt i s)
  where
    go : (r : PairingSession × CodeValidation) → Attempt i s r → IsSession r.0 × (r.0.code ≡ s.code)
    go _ (used _) = (hs, refl)
    go _ (spent _) = (hs, refl)
    go _ (opened _ _) = (record { ascii = hs.ascii; budget = hs.budget }, refl)
    go _ (refused k e) = (record { ascii = hs.ascii; budget = omega (arith, e, hs.budget) }, refl)

-- Any session answers "valid" at most once, and "invalid" no more often than its budget allows.
pub answers-bounds :
    (is : List Text) (s : PairingSession)
    → (length (filter is_valid (answers is s)) ≤ 1)
      × (length (filter is_invalid (answers is s)) ≤ s.attempts_left)
unfolding answers
answers-bounds [] s = (omega arith, omega arith)
answers-bounds (i ∷ is) s = go (validate i s) (validate-Attempt i s) (λ s'. answers-bounds is s')
  where
    Bounds : List CodeValidation → PairingSession → Type 0
    Bounds l s' =
        (length (filter is_valid l) ≤ 1) × (length (filter is_invalid l) ≤ s'.attempts_left)

    go :
        (r : PairingSession × CodeValidation)
        → Attempt i s r
        → ((s' : PairingSession) → Bounds (answers is s') s')
        → Bounds (r.1 ∷ answers is r.0) s
    go _ (used h) rest = rest s
    go _ (spent e) rest = rest s
    go _ (opened h right) rest = (
      rw (answers-consumed is (record s { consumed = true }) refl) (omega arith),
      (rest (record s { consumed = true })).1,
    )
    go _ (refused k e) rest =
        let (once, few) = rest (record s { attempts_left = k }) in (once, omega (arith, e, few))

-- `format!("{:06}", n)` is read back as `n`: different numbers have different codes.
digits_from-digit :
    (max n d : ℕ) (s : Text)
    → d < 10
    → n * 10 + d ≤ max
    → digits_from max n ((b'0' + d) ∷ s) ≡ digits_from max (n * 10 + d) s
unfolding digits_from
digits_from-digit max n d s hd hm = ground arith

digits_from-nil : (max n : ℕ) → digits_from max n [] ≡ some n
unfolding digits_from
digits_from-nil max n = refl

parse_uint-digit :
    (max d : ℕ) (s : Text)
    → d < 10
    → d ≤ max
    → parse_uint max ((b'0' + d) ∷ s) ≡ digits_from max d s
unfolding parse_uint digits_from
parse_uint-digit max d s hd hm = ground arith

pub six_digits-parse : (n : ℕ) → n < 1000000 → parse_uint 999999 (six_digits n) ≡ some n
six_digits-parse n h =
    parse_uint-digit 999999 (n / 100000 % 10) _ (omega arith) (omega arith)
    ∙ (digits_from-digit 999999 _ (n / 10000 % 10) _ (omega arith) (omega arith)
        ∙ (digits_from-digit 999999 _ (n / 1000 % 10) _ (omega arith) (omega arith)
            ∙ (digits_from-digit 999999 _ (n / 100 % 10) _ (omega arith) (omega arith)
                ∙ (digits_from-digit 999999 _ (n / 10 % 10) _ (omega arith) (omega arith)
                    ∙ (digits_from-digit 999999 _ (n % 10) _ (omega arith) (omega arith)
                        ∙ (digits_from-nil 999999 _ ∙ ap some (omega arith)))))))
