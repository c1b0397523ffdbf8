-- ===== src/Update/Swap/Atomic.antt =====
-- One target through a swap: the new binary, or the old one.
use backr.Base.{
  Bool-cases, Option-cases, length, length-append, All, Text, codes, eq_text, eq_text_of_ne, Result,
  ok, err, ◌≡◌, refl, sym, ap, ◌∙◌, ◌≢◌, inl, inr, Bool, true, false, none, some, List, [], ◌∷◌,
  ◌++◌, arith,
}
use backr.Update.Files.{
  PathBuf, Node, file, directory, Files, put, rename, remove_file, eq_path, put-other, put_self,
}
use backr.Update.Swap.{
  BinarySwap, Faults, SwapError, bak_path, tmp_path, install_staged, copy_staged,
  install_executable, install_or_undo, swap_one, rollback_one,
}
use backr.Update.Swap.Frame.{
  tmp_of, Untouched, rename-frame, rename-target, rename-some, exists_of-some, remove_file-frame,
  install_executable-frame,
}

-- The three files of one target are different.
pub record Apart (target : PathBuf) : Type 0 where
  pub bak : eq_path (bak_path target) target ≡ false
  pub target_bak : eq_path target (bak_path target) ≡ false
  pub target_tmp : eq_path target (tmp_of target) ≡ false
  pub bak_tmp : eq_path (bak_path target) (tmp_of target) ≡ false

eq_text_of_length : (a b : Text) → length a ≢ length b → eq_text a b ≡ false
eq_text_of_length a b h = eq_text_of_ne a b (λ e. h (ap length e))

pub named-Apart : (name : Text) (dir : PathBuf) → Apart (name ∷ dir)
unfolding bak_path tmp_of tmp_path eq_path
named-Apart name dir = record {
  bak =
      rw
        (eq_text_of_length (name ++ codes ".bak") name
          (λ e. omega (arith, e, length-append name (codes ".bak"))))
        refl;
  target_bak =
      rw
        (eq_text_of_length name (name ++ codes ".bak")
          (λ e. omega (arith, e, length-append name (codes ".bak"))))
        refl;
  target_tmp =
      rw
        (eq_text_of_length name (codes "." ++ (name ++ codes ".new"))
          (λ e. omega (arith, e, length-append name (codes ".new"))))
        refl;
  bak_tmp =
      rw
        (eq_text_of_length (name ++ codes ".bak") (codes "." ++ (name ++ codes ".new")) (λ e.
          omega (arith, e, length-append name (codes ".bak"), length-append name (codes ".new"))))
        refl;
}

module _ (E : Type 0) (faults : Faults) where
  -- How an install ends: the target is the staged binary, or it is as it was.
  pub data Installed (staged target : PathBuf) (fs : Files)
      : Files × Result (Unit {0}) (SwapError E) → Type 0 where
    fresh :
        (fs' : Files) (content : Text) (exec : Bool)
        → fs staged ≡ some (file content exec)
        → fs' target ≡ some (file content true)
        → Installed staged target fs (fs', ok tt)
    stale :
        (fs' : Files) (e : SwapError E)
        → fs' target ≡ fs target
        → Installed staged target fs (fs', err e)

  install_staged-Installed :
      (staged tmp target : PathBuf) (content : Text) (exec : Bool) (fs fs0 : Files)
      → eq_path target tmp ≡ false
      → fs0 staged ≡ some (file content exec)
      → fs target ≡ fs0 target
      → Installed staged target fs0 (install_staged {E = E} faults tmp target content fs)
  unfolding install_staged
  install_staged-Installed staged tmp target content exec fs fs0 em es et =
      let fs1 = put tmp (some (file content true)) fs in
      elim (Bool-cases (faults.chmod target)) [
        | inl fails ↦ rw (install_staged, fails) (stale fs _ et)
        | inr marked ↦ elim (Option-cases (rename (faults.install target) tmp target fs1)) [
          | inl e ↦ rw (install_staged, marked, e) (stale fs1 _ (put-other tmp target _ fs em ∙ et))
          | inr (fs', e) ↦
              rw (install_staged, marked, e)
                (fresh fs' content exec es
                  (rename-target tmp target _ fs1 fs' e ∙ put_self tmp _ fs))
        ]
      ]

  copy_staged-Installed :
      (tmp staged target : PathBuf) (fs : Files)
      → eq_path target tmp ≡ false
      → Installed staged target fs (copy_staged {E = E} faults tmp staged target fs)
  unfolding copy_staged
  copy_staged-Installed tmp staged target fs em = elim (Option-cases (fs staged)) [
    | inl e ↦ rw (copy_staged, e) (stale fs _ refl)
    | inr (directory, e) ↦ rw (copy_staged, e) (stale fs _ refl)
    | inr (file content exec, e) ↦ elim (Bool-cases (faults.copy target)) [
      | inl fails ↦ rw (copy_staged, e, fails) (stale _ _ (put-other tmp target _ fs em))
      | inr copied ↦
          rw (copy_staged, e, copied)
            (install_staged-Installed staged tmp target content exec _ fs em e
              (put-other tmp target _ fs em))
    ]
  ]

  install_executable-Installed :
      (staged target : PathBuf) (fs : Files)
      → Apart target
      → Installed staged target fs (install_executable {E = E} faults staged target fs)
  unfolding install_executable tmp_of
  install_executable-Installed staged [] fs h = stale fs _ refl
  install_executable-Installed staged (name ∷ dir) fs h =
      copy_staged-Installed (tmp_path name dir) staged (name ∷ dir) fs h.target_tmp

  -- How the swap of one target ends, where putting the original back does not fail: it is the staged
  -- binary, and the old one is kept; or it is the old one.
  pub data Swapped (s : BinarySwap) (old : Node) (fs : Files)
      : Files × Result (Unit {0}) (SwapError E) → Type 0 where
    swapped :
        (fs' : Files) (content : Text) (exec : Bool)
        → fs s.staged ≡ some (file content exec)
        → fs' s.target ≡ some (file content true)
        → fs' (bak_path s.target) ≡ some old
        → Swapped s old fs (fs', ok tt)
    restored :
        (fs' : Files) (e : SwapError E) → fs' s.target ≡ some old → Swapped s old fs (fs', err e)

  install_or_undo-Swapped :
      (s : BinarySwap) (old : Node) (fs fs0 : Files)
      → Apart s.target
      → faults.undo s.target ≡ false
      → fs (bak_path s.target) ≡ some old
      → fs s.staged ≡ fs0 s.staged
      → Swapped s old fs0 (install_or_undo {E = E} faults s fs)
  unfolding install_or_undo
  install_or_undo-Swapped s old fs fs0 h undo kept same =
      go (install_executable {E = E} faults s.staged s.target fs)
        (install_executable-Installed s.staged s.target fs h)
        (install_executable-frame E faults (bak_path s.target) s.staged s.target fs h.bak h.bak_tmp
          ∙ kept)
    where
      go :
          (p : Files × Result (Unit {0}) (SwapError E))
          → Installed s.staged s.target fs p
          → p.0 (bak_path s.target) ≡ some old
          → Swapped s old fs0 (
              let (fs', r) = p in
              elim r as (λ _. Files × Result (Unit {0}) (SwapError E)) [
                | ok _ ↦ (fs', ok tt)
                | err e ↦ elim (rename (faults.undo s.target) (bak_path s.target) s.target fs') [
                  | none ↦ (fs', err e)
                  | some fs'' ↦ (fs'', err e)
                ]
              ])
      go _ (fresh fs' content exec es et) b = swapped fs' content exec (sym same ∙ es) et b
      go _ (stale fs' e et) b =
          let (fs'', r) = rename-some (bak_path s.target) s.target _ fs' old b undo in
          rw r (restored fs'' e (rename-target (bak_path s.target) s.target _ fs' fs'' r ∙ b))

  pub swap_one-Swapped :
      (s : BinarySwap) (old : Node) (fs : Files)
      → Apart s.target
      → eq_path s.staged s.target ≡ false
      → eq_path s.staged (bak_path s.target) ≡ false
      → faults.undo s.target ≡ false
      → fs s.target ≡ some old
      → Swapped s old fs (swap_one {E = E} faults s fs)
  unfolding swap_one
  swap_one-Swapped s old fs h st sb undo here =
      elim (Option-cases (rename (faults.backup s.target) s.target (bak_path s.target) fs)) [
        | inl e ↦ rw (swap_one, exists_of-some fs s.target old here, e) (restored fs _ here)
        | inr (fs', e) ↦
            rw (swap_one, exists_of-some fs s.target old here, e)
              (install_or_undo-Swapped s old fs' fs h undo
                (rename-target s.target (bak_path s.target) _ fs fs' e ∙ here)
                (rename-frame s.staged s.target (bak_path s.target) _ fs fs' st sb e))
      ]

  -- A rollback brings the kept binary back, where its rename does not fail.
  pub rollback_one-restores :
      (s : BinarySwap) (old : Node) (fs : Files)
      → Apart s.target
      → faults.restore s.target ≡ false
      → fs (bak_path s.target) ≡ some old
      → rollback_one faults s fs s.target ≡ some old
  unfolding rollback_one
  rollback_one-restores s old fs h restore kept =
      let fs1 = remove_file (faults.remove s.target) s.target fs in
      let kept1 =
        remove_file-frame (bak_path s.target) s.target (faults.remove s.target) fs h.bak ∙ kept in
      let (fs', e) =
        rename-some (bak_path s.target) s.target (faults.restore s.target) fs1 old kept1 restore in
      rw (rollback_one, exists_of-some fs (bak_path s.target) old kept, e)
        (rename-target (bak_path s.target) s.target _ fs1 fs' e ∙ kept1)

  -- The conditions on one target among the swaps: no other swap names its files or its staged binary,
  -- and putting its old binary back does not fail.
  pub record Sound (before : List BinarySwap) (s : BinarySwap) (behind : List BinarySwap)
      : Type 0 where
    pub apart : Apart s.target
    pub staged_target : eq_path s.staged s.target ≡ false
    pub staged_bak : eq_path s.staged (bak_path s.target) ≡ false
    pub staged_before : All (Untouched s.staged) before
    pub target_before : All (Untouched s.target) before
    pub target_behind : All (Untouched s.target) behind
    pub bak_behind : All (Untouched (bak_path s.target)) behind
    pub undo : faults.undo s.target ≡ false
    pub restore : faults.restore s.target ≡ false
