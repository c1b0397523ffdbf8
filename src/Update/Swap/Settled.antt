-- ===== src/Update/Swap/Settled.antt =====
-- One target through all the swaps of an update, and their rollback.
use backr.Base.{
  Result-cases, All, All-append, All-map, Text, Result, ok, err, ◌≡◌, refl, sym, ap, ◌∙◌, subst,
  ◌≢◌, inl, inr, Bool, true, false, Option, none, some, List, [], ◌∷◌, ◌++◌,
}
use backr.Update.Files.{PathBuf, Node, file, Files, eq_path}
use backr.Update.Swap.{
  BinarySwap, Faults, SwapError, ServiceControl, bak_path, swap_one, swap_all, rollback_one,
  rollback_all, discard_baks, preflight, apply_swap, failure_of, rolled_back,
}
use backr.Update.Swap.Frame.{
  Untouched, rollback_all-frame, discard_baks-frame, swap_all-frame, swap_all-new, swap_one-frame,
}
use backr.Update.Swap.Atomic.{
  Swapped, swapped, restored, Sound, swap_one-Swapped, rollback_one-restores,
}

rollback_all-append :
    (faults : Faults) (a b : List BinarySwap) (fs : Files)
    → rollback_all faults (a ++ b) fs ≡ rollback_all faults b (rollback_all faults a fs)
unfolding rollback_all
rollback_all-append faults [] b fs = refl
rollback_all-append faults (s ∷ a) b fs = rollback_all-append faults a b (rollback_one faults s fs)

rollback_all-cons :
    (faults : Faults) (s : BinarySwap) (d : List BinarySwap) (q : PathBuf) (fs : Files)
    → rollback_all faults (s ∷ d) fs q ≡ rollback_all faults d (rollback_one faults s fs) q
unfolding rollback_all
rollback_all-cons faults s d q fs = refl

some-ne-none : {A : Type 0} (a : A) → some a ≢ none
some-ne-none a e = cc

ok-ne-err : {A B : Type 0} (a : A) (b : B) → ◌≡◌ {A = Result A B} (ok a) (err b) → ⊥
ok-ne-err a b e = cc

module _ (E : Type 0) (faults : Faults) (s : BinarySwap) (old : Node) where
  -- After the swaps: a rollback brings the old binary back; if none failed, the target is the staged
  -- binary.
  abbrev Settled : Option Node → Files × (List BinarySwap × Option (SwapError E)) → Type 0
  Settled staged (fs, (done, failed)) =
      (rollback_all faults done fs s.target ≡ some old)
      × (failed ≡ none
          → (content : Text) × (exec : Bool) × (staged ≡ some (file content exec))
            × (fs s.target ≡ some (file content true)))

  swapped-Settled :
      (behind done : List BinarySwap) (fs : Files) (staged : Option Node) (content : Text)
      (exec : Bool)
      → Sound E faults [] s behind
      → All (Untouched s.target) done
      → staged ≡ some (file content exec)
      → fs s.target ≡ some (file content true)
      → fs (bak_path s.target) ≡ some old
      → Settled staged (swap_all faults behind (s ∷ done) fs)
  swapped-Settled behind done fs staged content exec h hd es et eb =
      let r = swap_all {E = E} faults behind (s ∷ done) fs in
      let (new, e, hn) =
        swap_all-new E faults (Untouched (bak_path s.target)) behind (s ∷ done) fs h.bak_behind in
      let target_kept = swap_all-frame E faults s.target behind (s ∷ done) fs h.target_behind in
      let bak_kept =
        swap_all-frame E faults (bak_path s.target) behind (s ∷ done) fs h.bak_behind in
      let mid = rollback_all faults new r.0 in
      (
        ap (λ d. rollback_all faults d r.0 s.target) e
            ∙ (ap (λ g. g s.target) (rollback_all-append faults new (s ∷ done) r.0)
                ∙ (rollback_all-cons faults s done s.target mid
                    ∙ (rollback_all-frame faults s.target done (rollback_one faults s mid) hd
                        ∙ rollback_one-restores E faults s old mid h.apart h.restore (
                            rollback_all-frame faults (bak_path s.target) new r.0 hn
                            ∙ (bak_kept ∙ eb))))),
        λ _. (content, exec, es, target_kept ∙ et),
      )

  swap_all-Settled :
      (before behind done : List BinarySwap) (fs : Files)
      → Sound E faults before s behind
      → All (Untouched s.target) done
      → fs s.target ≡ some old
      → Settled (fs s.staged) (swap_all faults (before ++ s ∷ behind) done fs)
  unfolding swap_all
  swap_all-Settled [] behind done fs h hd here =
      go (swap_one faults s fs)
        (swap_one-Swapped E faults s old fs h.apart h.staged_target h.staged_bak h.undo here)
    where
      go :
          (p : Files × Result (Unit {0}) (SwapError E))
          → Swapped E faults s old fs p
          → Settled (fs s.staged) (
              let (fs', r) = p in
              elim r as (λ _. Files × (List BinarySwap × Option (SwapError E))) [
                | ok _ ↦ swap_all faults behind (s ∷ done) fs'
                | err e ↦ (fs', (done, some e))
              ])
      go _ (swapped fs' content exec es et eb) =
          swapped-Settled behind done fs' (fs s.staged) content exec h hd es et eb
      go _ (restored fs' e et) =
          (rollback_all-frame faults s.target done fs' hd ∙ et, λ q. absurd (some-ne-none e q))
  swap_all-Settled (b ∷ before) behind done fs h hd here =
      let fs1 = (swap_one {E = E} faults b fs).0 in
      let target_kept = swap_one-frame E faults s.target b fs h.target_before.0 in
      let staged_kept = swap_one-frame E faults s.staged b fs h.staged_before.0 in
      elim (Result-cases (swap_one {E = E} faults b fs).1) [
        | inr (x, failed) ↦
            rw (swap_all, failed)
              (
                rollback_all-frame faults s.target done fs1 hd ∙ (target_kept ∙ here),
                λ q. absurd (some-ne-none x q),
              )
        | inl (_, ran) ↦
            rw (swap_all, ran)
              (subst (λ st. Settled st (swap_all faults (before ++ s ∷ behind) (b ∷ done) fs1))
                staged_kept
                (swap_all-Settled before behind (b ∷ done) fs1 (rest h) (h.target_before.0, hd)
                  (target_kept ∙ here)))
      ]
    where
      rest : Sound E faults (b ∷ before) s behind → Sound E faults before s behind
      rest h = record {
        apart = h.apart;
        staged_target = h.staged_target;
        staged_bak = h.staged_bak;
        staged_before = h.staged_before.1;
        target_before = h.target_before.1;
        target_behind = h.target_behind;
        bak_behind = h.bak_behind;
        undo = h.undo;
        restore = h.restore;
      }

  discarded :
      (before behind : List BinarySwap)
      → Sound E faults before s behind
      → All (λ b. eq_path s.target (bak_path b.target) ≡ false) (before ++ s ∷ behind)
  discarded before behind h =
      All-append _ before (s ∷ behind) (All-map _ _ (λ b u. u.bak) before h.target_before)
        (h.apart.target_bak, All-map _ _ (λ b u. u.bak) behind h.target_behind)

  -- Success with the staged binary, executable, in place; or failure with the old binary in place.
  pub record AllOrNothing (fs : Files) (r : Files × Result (Unit {0}) (SwapError E)) : Type 0 where
    pub new :
        r.1 ≡ ok tt
        → (content : Text) × (exec : Bool) × (fs s.staged ≡ some (file content exec))
          × (r.0 s.target ≡ some (file content true))
    pub kept : (e : SwapError E) → r.1 ≡ err e → r.0 s.target ≡ some old

  failed-AllOrNothing :
      (fs fs' : Files) (e : SwapError E) → fs' s.target ≡ some old → AllOrNothing fs (fs', err e)
  failed-AllOrNothing fs fs' e here = record {
    new = λ q. absurd (ok-ne-err tt e (sym q));
    kept = λ _ _. here;
  }

  failure_of-none :
      (failed : Option (SwapError E)) (control : ServiceControl E)
      → failure_of faults failed control ≡ none
      → failed ≡ none
  failure_of-none none control e = refl
  failure_of-none (some x) control e = absurd (some-ne-none x e)

  finish-AllOrNothing :
      (before behind : List BinarySwap) (fs : Files)
      (r : Files × (List BinarySwap × Option (SwapError E))) (f : Option (SwapError E))
      → Sound E faults before s behind
      → Settled (fs s.staged) r
      → (f ≡ none → r.1.1 ≡ none)
      → AllOrNothing fs (elim f as (λ _. Files × Result (Unit {0}) (SwapError E)) [
        | none ↦ (discard_baks faults (before ++ s ∷ behind) r.0, ok tt)
        | some e ↦ (rollback_all faults r.1.0 r.0, err (rolled_back e))
      ])
  finish-AllOrNothing before behind fs r none h (back, new) ran =
      let (content, exec, es, et) = new (ran refl) in
      record {
        new = λ _. (
          content,
          exec,
          es,
          discard_baks-frame faults s.target (before ++ s ∷ behind) r.0 (discarded before behind h)
              ∙ et,
        );
        kept = λ e q. absurd (ok-ne-err tt e q);
      }
  finish-AllOrNothing before behind fs r (some e) h (back, new) ran =
      failed-AllOrNothing fs (rollback_all faults r.1.0 r.0) (rolled_back e) back

  -- An update is all or nothing for each binary: where it succeeds the target is the staged binary,
  -- executable, and where it fails, at whatever step, the target is the binary that was installed
  -- before; provided that the target was installed, that no other swap names its files, and that
  -- renaming its old binary back does not fail.
  pub apply_swap-AllOrNothing :
      (before behind : List BinarySwap) (control : ServiceControl E) (fs : Files)
      → Sound E faults before s behind
      → fs s.target ≡ some old
      → AllOrNothing fs (apply_swap faults (before ++ s ∷ behind) control fs)
  unfolding apply_swap
  apply_swap-AllOrNothing before behind control fs h here =
      let swaps = before ++ s ∷ behind in
      elim (Result-cases (preflight {E = E} swaps fs)) [
        | inr (x, refused) ↦ rw (apply_swap, refused) (failed-AllOrNothing fs fs x here)
        | inl (_, ready) ↦ elim (Result-cases control.stop) [
          | inr (x, stuck) ↦ rw (apply_swap, ready, stuck) (failed-AllOrNothing fs fs _ here)
          | inl (_, stopped) ↦
              rw (apply_swap, ready, stopped)
                (finish-AllOrNothing before behind fs (swap_all faults swaps [] fs)
                  (failure_of faults (swap_all faults swaps [] fs).1.1 control) h
                  (swap_all-Settled before behind [] fs h tt here)
                  (failure_of-none (swap_all faults swaps [] fs).1.1 control))
        ]
      ]
