-- ===== src/Trust/Remove.antt =====
-- Removing a key: which lines are left.
use backr.Base.{
  lines-lack_newline, ap₂, trim-strip_cr, lines-append, lines_line, Bool-cases, filter, All, Text,
  eq_text, trim_start_by, trim_end_by, trim, join, lines_from, lines, Result, ok, ◌≡◌, refl, sym,
  ap, ◌∙◌, ◌≢◌, inl, inr, Bool, true, false, not, Option, some, List, [], ◌∷◌, ◌++◌, map,
  append_assoc, map-append, arith,
}
use backr.Trust.Keys.{RegexClasses, is_valid_line}
use backr.Trust.File.{
  is_nil, HostEnv, TrustError, RemoveResult, without_line, rebuilt, remove_from,
  host_remove_authorized_pubkey,
}

-- The keys of a file: its trimmed lines that are valid.
unfoldable pub keys_of : RegexClasses → Text → List Text
keys_of re content = filter (is_valid_line re) (map trim (lines content))

-- The lines of joined lines.
lines-join :
    (ls : List Text) (l : Text)
    → All (All (λ c. c ≢ 10)) (l ∷ ls)
    → map trim (lines (join (10 ∷ []) (l ∷ ls) ++ 10 ∷ [])) ≡ map trim (l ∷ ls)
unfolding join
lines-join [] l (h, _) = ap (map trim) (lines_line l h) ∙ ap (λ x. x ∷ []) (trim-strip_cr l)
lines-join (k ∷ ls) l (h, hs) =
    ap (λ x. map trim (lines x)) (append_assoc l (10 ∷ join (10 ∷ []) (k ∷ ls)) (10 ∷ []))
    ∙ (ap (map trim) (lines-append l (join (10 ∷ []) (k ∷ ls) ++ 10 ∷ []))
        ∙ (map-append trim (lines (l ++ 10 ∷ [])) (lines (join (10 ∷ []) (k ∷ ls) ++ 10 ∷ []))
            ∙ ap₂ (λ x y. x ++ y)
                (ap (map trim) (lines_line l h) ∙ ap (λ x. x ∷ []) (trim-strip_cr l))
                (lines-join ls k hs)))

valid-empty : (re : RegexClasses) → is_valid_line re (trim []) ≡ false
unfolding is_valid_line trim trim_start_by trim_end_by
valid-empty re = refl

rebuilt-keys :
    (env : HostEnv) (kept : List Text)
    → All (All (λ c. c ≢ 10)) kept
    → keys_of env.re (rebuilt env kept) ≡ filter (is_valid_line env.re) (map trim kept)
unfolding keys_of rebuilt join lines_from
rebuilt-keys env [] h = refl
rebuilt-keys env ([] ∷ []) h = rw (valid-empty env.re) refl
rebuilt-keys env ((c ∷ s) ∷ []) h = ap (filter (is_valid_line env.re)) (lines-join [] (c ∷ s) h)
rebuilt-keys env ([] ∷ (k ∷ ls)) h = ap (filter (is_valid_line env.re)) (lines-join (k ∷ ls) [] h)
rebuilt-keys env ((c ∷ s) ∷ (k ∷ ls)) h =
    ap (filter (is_valid_line env.re)) (lines-join (k ∷ ls) (c ∷ s) h)

module _ {A : Type 0} where
  filter_comm : (p q : A → Bool) (l : List A) → filter p (filter q l) ≡ filter q (filter p l)
  filter_comm p q [] = refl
  filter_comm p q (x ∷ l) = ground (arith, filter_comm p q l)

  filter-All : (P : A → Type 0) (p : A → Bool) (l : List A) → All P l → All P (filter p l)
  filter-All P p [] h = tt
  filter-All P p (x ∷ l) (h, hs) = elim (Bool-cases (p x)) [
    | inl e ↦ rw (e, All) (h, filter-All P p l hs)
    | inr e ↦ rw (e, All) (filter-All P p l hs)
  ]

  filter-none : (p : A → Bool) (l : List A) → filter p l ≡ [] → filter (λ x. not (p x)) l ≡ l
  filter-none p [] h = refl
  filter-none p (x ∷ l) h = ground (arith, filter-none p l)

map-filter :
    {A B : Type 0} (f : A → B) (p : B → Bool) (l : List A)
    → map f (filter (λ x. p (f x)) l) ≡ filter p (map f l)
map-filter f p [] = refl
map-filter f p (x ∷ l) = ground (arith, map-filter f p l)

abbrev pub others : Text → List Text → List Text
others target keys = filter (λ k. not (eq_text k target)) keys

module _ (env : HostEnv) where
  -- The file afterwards, without the key and with every other key, in order.
  unfoldable pub Removes : Text → Text → Option Text × Result RemoveResult TrustError → Type 0
  Removes target content (file, r) =
      (content' : Text) × (result : RemoveResult) × (file ≡ some content')
      × (r ≡ ok result)
      × (keys_of env.re content' ≡ others target (keys_of env.re content))

  kept-keys :
      (target content : Text)
      → keys_of env.re (rebuilt env (without_line env target content))
        ≡ others target (keys_of env.re content)
  unfolding without_line keys_of lines_from
  kept-keys target content =
      rebuilt-keys env (without_line env target content) (
        filter-All (All (λ c. c ≢ 10)) (λ l. not (eq_text (trim l) target)) (lines content)
          (lines-lack_newline content))
      ∙ (ap (filter (is_valid_line env.re))
            (map-filter trim (λ k. not (eq_text k target)) (lines content))
          ∙ filter_comm (is_valid_line env.re) (λ k. not (eq_text k target))
              (map trim (lines content)))

  absent-keys :
      (target content : Text)
      → filter (λ l. eq_text (trim l) target) (lines content) ≡ []
      → keys_of env.re content ≡ others target (keys_of env.re content)
  unfolding keys_of lines_from
  absent-keys target content h = sym (
      filter_comm (λ k. not (eq_text k target)) (is_valid_line env.re) (map trim (lines content))
      ∙ ap (filter (is_valid_line env.re)) (
          filter-none (λ k. eq_text k target) (map trim (lines content))
            (sym (map-filter trim (λ k. eq_text k target) (lines content)) ∙ ap (map trim) h)))

  nil_of : (l : List Text) → is_nil l ≡ true → l ≡ []
  nil_of [] h = refl
  nil_of (_ ∷ _) h = cc

  remove_from-Removes :
      (target content : Text)
      → env.replaceable ≡ true
      → Removes target content (remove_from env target content)
  unfolding remove_from Removes
  remove_from-Removes target content replaceable =
      elim (Bool-cases (is_nil (filter (λ l. eq_text (trim l) target) (lines content)))) [
        | inl e ↦
            simp (remove_from, e) (content, _, refl, refl, absent-keys target content (nil_of _ e))
        | inr e ↦
            simp (remove_from, e, replaceable)
              (
                rebuilt env (without_line env target content),
                _,
                refl,
                refl,
                kept-keys target content,
              )
      ]

  -- Removing a line takes that key away and leaves every other key, in order, where the account is
  -- known and the file can be read and replaced.
  pub host_remove-Removes :
      (raw_line content : Text) (account : Text × Text)
      → env.located ≡ ok account
      → env.readable ≡ true
      → env.replaceable ≡ true
      → Removes (trim raw_line) content (host_remove_authorized_pubkey env raw_line (some content))
  unfolding host_remove_authorized_pubkey
  host_remove-Removes raw_line content account located readable replaceable =
      simp (host_remove_authorized_pubkey, located, readable)
        (remove_from-Removes (trim raw_line) content replaceable)
