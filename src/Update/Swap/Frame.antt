-- ===== src/Update/Swap/Frame.antt =====
-- What a step of the swap leaves alone.
use backr.Base.{
  Result-cases, if◌then◌else◌, Bool-cases, Option-cases, All, All-append, Text, ◌≡◌, refl, sym, ap,
  ◌∙◌, inl, inr, Bool, true, false, Option, none, some, List, [], ◌∷◌, ◌++◌, append_assoc,
}
use backr.Update.Files.{
  PathBuf, Node, file, directory, Files, put, exists, rename, remove_file, eq_path, put-other,
  put_self,
}
use backr.Update.Swap.{
  BinarySwap, Faults, bak_path, tmp_path, install_staged, copy_staged, install_executable,
  install_or_undo, swap_one, swap_all, rollback_one, rollback_all, discard_baks,
}

-- The temporary file of a target.
unfoldable pub tmp_of : PathBuf → PathBuf
tmp_of [] = []
tmp_of (name ∷ dir) = tmp_path name dir

-- A path that a swap does not name.
pub record Untouched (q : PathBuf) (s : BinarySwap) : Type 0 where
  pub target : eq_path q s.target ≡ false
  pub bak : eq_path q (bak_path s.target) ≡ false
  pub tmp : eq_path q (tmp_of s.target) ≡ false

pub rename-frame :
    (q a b : PathBuf) (fails : Bool) (fs fs' : Files)
    → eq_path q a ≡ false
    → eq_path q b ≡ false
    → rename fails a b fs ≡ some fs'
    → fs' q ≡ fs q
unfolding rename
rename-frame q a b fails fs fs' ea eb h = go (fs a) fails h
  where
    some-injective : (x y : Files) → ◌≡◌ {A = Option Files} (some x) (some y) → x ≡ y
    some-injective x y e = cc

    go :
        (source : Option Node) (f : Bool)
        → (elim source [
          | none ↦ none
          | some entry ↦ if f then none else some (put b (some entry) (put a none fs))
        ])
          ≡ some fs'
        → fs' q ≡ fs q
    go none f h = cc
    go (some entry) true h = cc
    go (some entry) false h =
        ap (λ g. g q) (sym (some-injective _ _ h))
        ∙ (put-other b q (some entry) (put a none fs) eb ∙ put-other a q none fs ea)

-- What was renamed stands under the new name.
pub rename-target :
    (a b : PathBuf) (fails : Bool) (fs fs' : Files) → rename fails a b fs ≡ some fs' → fs' b ≡ fs a
unfolding rename
rename-target a b fails fs fs' h = go (fs a) fails h
  where
    some-injective : (x y : Files) → ◌≡◌ {A = Option Files} (some x) (some y) → x ≡ y
    some-injective x y e = cc

    go :
        (source : Option Node) (f : Bool)
        → (elim source [
          | none ↦ none
          | some entry ↦ if f then none else some (put b (some entry) (put a none fs))
        ])
          ≡ some fs'
        → fs' b ≡ source
    go none f h = cc
    go (some entry) true h = cc
    go (some entry) false h =
        ap (λ g. g b) (sym (some-injective _ _ h)) ∙ put_self b (some entry) (put a none fs)

-- A rename of what exists, where the call does not fail.
pub rename-some :
    (a b : PathBuf) (fails : Bool) (fs : Files) (entry : Node)
    → fs a ≡ some entry
    → fails ≡ false
    → (fs' : Files) × (rename fails a b fs ≡ some fs')
unfolding rename
rename-some a b fails fs entry e f = (put b (some entry) (put a none fs), rw (rename, e, f) refl)

pub exists_of-some :
    (fs : Files) (p : PathBuf) (entry : Node) → fs p ≡ some entry → exists fs p ≡ true
exists_of-some fs p entry e = rw (exists, e) refl

pub remove_file-frame :
    (q p : PathBuf) (fails : Bool) (fs : Files)
    → eq_path q p ≡ false
    → remove_file fails p fs q ≡ fs q
unfolding remove_file
remove_file-frame q p true fs e = refl
remove_file-frame q p false fs e = put-other p q none fs e

-- A rename that is tried, whether it fails or not.
rename_try-frame :
    (q a b : PathBuf) (fails : Bool) (fs : Files)
    → eq_path q a ≡ false
    → eq_path q b ≡ false
    → elim (rename fails a b fs) as (λ _. Files) [ none ↦ fs | some fs' ↦ fs' ] q ≡ fs q
rename_try-frame q a b fails fs ea eb = elim (Option-cases (rename fails a b fs)) [
  | inl e ↦ rw e refl
  | inr (fs', e) ↦ rw e (rename-frame q a b fails fs fs' ea eb e)
]

module _ (faults : Faults) where
  pub rollback_one-frame :
      (q : PathBuf) (s : BinarySwap) (fs : Files)
      → Untouched q s
      → rollback_one faults s fs q ≡ fs q
  unfolding rollback_one
  rollback_one-frame q s fs u = elim (Bool-cases (exists fs (bak_path s.target))) [
    | inr lost ↦ rw lost refl
    | inl kept ↦ rw kept (
        rename_try-frame q (bak_path s.target) s.target (faults.restore s.target)
          (remove_file (faults.remove s.target) s.target fs) u.bak u.target
        ∙ remove_file-frame q s.target (faults.remove s.target) fs u.target)
  ]

  pub rollback_all-frame :
      (q : PathBuf) (done : List BinarySwap) (fs : Files)
      → All (Untouched q) done
      → rollback_all faults done fs q ≡ fs q
  unfolding rollback_all
  rollback_all-frame q [] fs h = refl
  rollback_all-frame q (s ∷ done) fs (u, h) =
      rollback_all-frame q done (rollback_one faults s fs) h ∙ rollback_one-frame q s fs u

  pub discard_baks-frame :
      (q : PathBuf) (swaps : List BinarySwap) (fs : Files)
      → All (λ s. eq_path q (bak_path s.target) ≡ false) swaps
      → discard_baks faults swaps fs q ≡ fs q
  unfolding discard_baks
  discard_baks-frame q [] fs h = refl
  discard_baks-frame q (s ∷ swaps) fs (u, h) =
      discard_baks-frame q swaps _ h ∙ remove_file-frame q (bak_path s.target) _ fs u

module _ (E : Type 0) (faults : Faults) where
  install_staged-frame :
      (q tmp target : PathBuf) (content : Text) (fs : Files)
      → eq_path q target ≡ false
      → eq_path q tmp ≡ false
      → (install_staged {E = E} faults tmp target content fs).0 q ≡ fs q
  unfolding install_staged
  install_staged-frame q tmp target content fs et em = elim (Bool-cases (faults.chmod target)) [
    | inl fails ↦ rw fails refl
    | inr marked ↦
        let fs1 = put tmp (some (file content true)) fs in
        elim (Option-cases (rename (faults.install target) tmp target fs1)) [
          | inl e ↦ rw (marked, e) (put-other tmp q _ fs em)
          | inr (fs', e) ↦
              rw (marked, e) (rename-frame q tmp target _ fs1 fs' em et e ∙ put-other tmp q _ fs em)
        ]
  ]

  copy_staged-frame :
      (q tmp staged target : PathBuf) (fs : Files)
      → eq_path q target ≡ false
      → eq_path q tmp ≡ false
      → (copy_staged {E = E} faults tmp staged target fs).0 q ≡ fs q
  unfolding copy_staged
  copy_staged-frame q tmp staged target fs et em = elim (Option-cases (fs staged)) [
    | inl e ↦ rw (copy_staged, e) refl
    | inr (directory, e) ↦ rw (copy_staged, e) refl
    | inr (file content exec, e) ↦ elim (Bool-cases (faults.copy target)) [
      | inl fails ↦ rw (copy_staged, e, fails) (put-other tmp q _ fs em)
      | inr copied ↦
          rw (copy_staged, e, copied)
            (install_staged-frame q tmp target content _ et em ∙ put-other tmp q _ fs em)
    ]
  ]

  pub install_executable-frame :
      (q staged target : PathBuf) (fs : Files)
      → eq_path q target ≡ false
      → eq_path q (tmp_of target) ≡ false
      → (install_executable {E = E} faults staged target fs).0 q ≡ fs q
  unfolding install_executable tmp_of
  install_executable-frame q staged [] fs et em = refl
  install_executable-frame q staged (name ∷ dir) fs et em =
      copy_staged-frame q (tmp_path name dir) staged (name ∷ dir) fs et em

  install_or_undo-frame :
      (q : PathBuf) (s : BinarySwap) (fs : Files)
      → Untouched q s
      → (install_or_undo {E = E} faults s fs).0 q ≡ fs q
  unfolding install_or_undo
  install_or_undo-frame q s fs u =
      let installed = install_executable-frame q s.staged s.target fs u.target u.tmp in
      elim (Result-cases (install_executable {E = E} faults s.staged s.target fs).1) [
        | inl (_, done) ↦ rw (install_or_undo, done) installed
        | inr (x, failed) ↦
            elim (Option-cases (
              rename (faults.undo s.target) (bak_path s.target) s.target
                (install_executable {E = E} faults s.staged s.target fs).0)) [
                  | inl e ↦ rw (install_or_undo, failed, e) installed
                  | inr (fs', e) ↦
                      rw (install_or_undo, failed, e)
                        (rename-frame q (bak_path s.target) s.target _ _ fs' u.bak u.target e
                          ∙ installed)
                ]
      ]

  pub swap_one-frame :
      (q : PathBuf) (s : BinarySwap) (fs : Files)
      → Untouched q s
      → (swap_one {E = E} faults s fs).0 q ≡ fs q
  unfolding swap_one
  swap_one-frame q s fs u = elim (Bool-cases (exists fs s.target)) [
    | inr fresh ↦ rw fresh (install_or_undo-frame q s fs u)
    | inl present ↦
        elim (Option-cases (rename (faults.backup s.target) s.target (bak_path s.target) fs)) [
          | inl e ↦ rw (present, e) refl
          | inr (fs', e) ↦
              rw (present, e)
                (install_or_undo-frame q s fs' u
                  ∙ rename-frame q s.target (bak_path s.target) _ fs fs' u.target u.bak e)
        ]
  ]

  -- Swaps that do not name a path leave it alone.
  pub swap_all-frame :
      (q : PathBuf) (swaps done : List BinarySwap) (fs : Files)
      → All (Untouched q) swaps
      → (swap_all {E = E} faults swaps done fs).0 q ≡ fs q
  unfolding swap_all
  swap_all-frame q [] done fs h = refl
  swap_all-frame q (s ∷ swaps) done fs (u, h) =
      elim (Result-cases (swap_one {E = E} faults s fs).1) [
        | inr (x, failed) ↦ rw (swap_all, failed) (swap_one-frame q s fs u)
        | inl (_, swapped) ↦
            rw (swap_all, swapped)
              (swap_all-frame q swaps (s ∷ done) (swap_one {E = E} faults s fs).0 h
                ∙ swap_one-frame q s fs u)
      ]

  -- The swaps that are done stand in front of those that were, and are some of the given ones.
  pub swap_all-new :
      (P : BinarySwap → Type 0) (swaps done : List BinarySwap) (fs : Files)
      → All P swaps
      → (new : List BinarySwap) × ((swap_all {E = E} faults swaps done fs).1.0 ≡ new ++ done)
        × All P new
  unfolding swap_all
  swap_all-new P [] done fs h = ([], refl, tt)
  swap_all-new P (s ∷ swaps) done fs (p, h) = elim (Result-cases (swap_one {E = E} faults s fs).1) [
    | inr (x, failed) ↦ ([], rw (swap_all, failed) refl, tt)
    | inl (_, swapped) ↦
        let (new, e, hn) = swap_all-new P swaps (s ∷ done) (swap_one {E = E} faults s fs).0 h in
        (
          new ++ s ∷ [],
          rw (swap_all, swapped) (e ∙ sym (append_assoc new (s ∷ []) done)),
          All-append P new (s ∷ []) hn (p, tt),
        )
  ]
