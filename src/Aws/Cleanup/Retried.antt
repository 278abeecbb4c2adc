-- ===== src/Aws/Cleanup/Retried.antt =====
-- `deleteSecurityGroupWithRetry` of pkg/providers/cluster/aws/cleanup.go ends after at most twelve attempts.
use nebari_infrastructure_co.Prelude.{
  ℕ, zero, suc, ◌+◌, String, ◌≡◌, refl, none, some, arith, Result, ok, err,
}
use nebari_infrastructure_co.Prelude.State.{◌>>◌, continue, rewrap, wrap_call}
use nebari_infrastructure_co.Aws.Cleanup.{
  Account, ApiError, dependency_violation, other_error, CleanupError, delete_group_failed, gave_up,
  cancelled, delete_attempts, delete_security_group_with_retry, after_attempt, Sweep,
}

module _ (account : Account) (id : String) where
  -- Attempts that failed because something depends on the group, each followed by a pause that the
  -- context let end: how many, and the states before the first and after the last.
  pub data Tries : ℕ → account.State → account.State → Type 0 where
    none_yet : {s : account.State} → Tries 0 s s
    and_again :
        {n : ℕ} {s u v t : account.State} (e : String)
        → account.delete_security_group id s ≡ (err (dependency_violation e), u)
        → account.pause u ≡ (ok tt, v)
        → Tries n v t
        → Tries (suc n) s t

  -- The ways in which the attempt in a state ends the loop, when so many attempts are left after it:
  -- the group is deleted, the call fails for another reason, it is the last that fails, or the context
  -- ends in the pause.
  pub data Ends (left : ℕ) (s : account.State)
      : Result CleanupError (Unit {0}) → account.State → Type 0 where
    deleted :
        {t : account.State}
        → account.delete_security_group id s ≡ (ok tt, t)
        → Ends left s (ok tt) t
    failed :
        {t : account.State} (e : String)
        → account.delete_security_group id s ≡ (err (other_error e), t)
        → Ends left s (err (delete_group_failed id (other_error e))) t
    last_failed :
        {t : account.State} (e : String)
        → left ≡ 0
        → account.delete_security_group id s ≡ (err (dependency_violation e), t)
        → Ends left s (err (gave_up id (dependency_violation e))) t
    context_ended :
        {u t : account.State} (e c : String)
        → account.delete_security_group id s ≡ (err (dependency_violation e), u)
        → account.pause u ≡ (err c, t)
        → Ends left s (err (cancelled c)) t

  -- So many attempts fail and are followed by one that ends the loop.
  abbrev pub Outcome : ℕ → account.State → Result CleanupError (Unit {0}) × account.State → Type 0
  Outcome total s r =
      (n : ℕ) × (left : ℕ) × (n + suc left ≡ total)
      × ((u : account.State) × Tries n s u × Ends left u r.0 r.1)

  last-Outcome :
      (s : account.State) (r : Result ApiError (Unit {0}) × account.State)
      → account.delete_security_group id s ≡ r
      → Outcome 1 s (after_attempt account id none r)
  last-Outcome s (ok tt, t) h = (0, 0, omega arith, (s, none_yet, deleted h))
  last-Outcome s (err (dependency_violation e), t) h =
      (0, 0, omega arith, (s, none_yet, last_failed e refl h))
  last-Outcome s (err (other_error e), t) h = (0, 0, omega arith, (s, none_yet, failed e h))

  module _ (n : ℕ) (rest : Sweep account (Unit {0}))
      (below : (v : account.State) → Outcome n v (rest v)) where
    paused-Outcome :
        (s u : account.State) (e : String) (p : Result String (Unit {0}) × account.State)
        → account.delete_security_group id s ≡ (err (dependency_violation e), u)
        → account.pause u ≡ p
        → Outcome (suc n) s (continue (rewrap cancelled p) (λ _. rest))
    paused-Outcome s u e (ok tt, v) h k =
        let (done, left, total, (w, tries, ends)) = below v in
        (suc done, left, omega arith, (w, and_again e h k tries, ends))
    paused-Outcome s u e (err c, t) h k = (0, n, omega arith, (s, none_yet, context_ended e c h k))

    again-Outcome :
        (s : account.State) (r : Result ApiError (Unit {0}) × account.State)
        → account.delete_security_group id s ≡ r
        → Outcome
            (suc n)
            s
            (after_attempt account id (some (wrap_call cancelled account.pause >> rest)) r)
    again-Outcome s (ok tt, t) h = (0, n, omega arith, (s, none_yet, deleted h))
    again-Outcome s (err (dependency_violation e), u) h =
        paused-Outcome s u e (account.pause u) h refl
    again-Outcome s (err (other_error e), t) h = (0, n, omega arith, (s, none_yet, failed e h))

  attempts-Outcome :
      (n : ℕ) (s : account.State) → Outcome (suc n) s (delete_attempts account (suc n) id s)
  unfolding delete_attempts
  attempts-Outcome zero s = last-Outcome s (account.delete_security_group id s) refl
  attempts-Outcome (suc n) s =
      again-Outcome (suc n) (delete_attempts account (suc n) id) (attempts-Outcome n) s
        (account.delete_security_group id s) refl

  -- In every state, some attempts fail because something depends on the group, each followed by a pause,
  -- and one more ends the loop, in one of the four ways; they are twelve at most, and the loop gives up
  -- only at the twelfth.
  pub delete_security_group_with_retry-Outcome :
      (s : account.State) → Outcome 12 s (delete_security_group_with_retry account id s)
  unfolding delete_security_group_with_retry
  delete_security_group_with_retry-Outcome s = attempts-Outcome 11 s
