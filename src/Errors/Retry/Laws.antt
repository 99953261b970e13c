-- ===== src/Errors/Retry/Laws.antt =====
-- Retries by the nodes of the error's tree.
use ibkr_go.Prelude.{
  ◌≡◌, refl, sym, ap, fun_ext, ◌∙◌, ◌↔◌, inl, inr, Bool, true, false, not, ◌||◌, Option, none, some,
  List, [], ◌∷◌, arith, Bool-cases, any,
}
use ibkr_go.Errors.Classes.{is_pacing_violation}
use ibkr_go.Errors.Tree.{
  Sentinel, Err, Cause, Errs, sentinel, plain_error, api_error, validation_error,
  frame_too_large_error, connect_error, protocol_error, exercise_uncertain_error,
  regulatory_uncertain_error, subscription_cancel_error, order_recovery_error, joined, absent,
  cause, no_errs, err_and, sentinel_index, any_node, any_cause, any_errs, matches, errors_is,
}
use ibkr_go.Errors.Retry.{
  is_non_pacing_api, wrap_both, interrupted, final_tests, transient_tests, finds, is_retryable,
}

-- What one node says of a retry, whatever it was joined with: final forbids it, transient invites it.
-- A wrapper of other errors says neither.
unfoldable pub is_final : Err → Bool
is_final (sentinel Sentinel.not_ready) = false
is_final (sentinel Sentinel.interrupted) = false
is_final (sentinel Sentinel.resume_required) = false
is_final (sentinel Sentinel.bootstrap_incomplete) = false
is_final (sentinel s) = true
is_final (plain_error m) = false
is_final (api_error a) = not (is_pacing_violation a)
is_final (validation_error f v m) = true
is_final (frame_too_large_error n l) = false
is_final (connect_error op c) = false
is_final (joined es) = false
is_final _ = true

unfoldable pub is_transient : Err → Bool
is_transient (sentinel Sentinel.not_ready) = true
is_transient (sentinel Sentinel.interrupted) = true
is_transient (sentinel Sentinel.resume_required) = true
is_transient (api_error a) = is_pacing_violation a
is_transient (connect_error op c) = true
is_transient _ = false

mutual
  unfolding any_node

  any_node-or :
      (p q : Err → Bool) (e : Err) → any_node (λ x. p x || q x) e ≡ any_node p e || any_node q e
  any_node-or p q (sentinel s) = refl
  any_node-or p q (plain_error m) = refl
  any_node-or p q (api_error a) = refl
  any_node-or p q (validation_error f v m) = refl
  any_node-or p q (frame_too_large_error n l) = ground arith
  any_node-or p q (connect_error op c) = ground (arith, any_cause-or p q c)
  any_node-or p q (protocol_error d m c) = ground (arith, any_cause-or p q c)
  any_node-or p q (exercise_uncertain_error id c) = ground (arith, any_cause-or p q c)
  any_node-or p q (regulatory_uncertain_error id n c) = ground (arith, any_cause-or p q c)
  any_node-or p q (subscription_cancel_error op c) = ground (arith, any_cause-or p q c)
  any_node-or p q (order_recovery_error ids c k) =
      ground (arith, any_cause-or p q c, any_cause-or p q k)
  any_node-or p q (joined es) = ground (arith, any_errs-or p q es)

  any_cause-or :
      (p q : Err → Bool) (c : Cause)
      → any_cause (λ x. p x || q x) c ≡ any_cause p c || any_cause q c
  any_cause-or p q absent = refl
  any_cause-or p q (cause e) = any_node-or p q e

  any_errs-or :
      (p q : Err → Bool) (es : Errs)
      → any_errs (λ x. p x || q x) es ≡ any_errs p es || any_errs q es
  any_errs-or p q no_errs = refl
  any_errs-or p q (err_and e es) = ground (arith, any_node-or p q e, any_errs-or p q es)

mutual
  unfolding any_node

  any_node-never : (e : Err) → any_node (λ x. false) e ≡ false
  any_node-never (connect_error op c) = any_cause-never c
  any_node-never (protocol_error d m c) = any_cause-never c
  any_node-never (exercise_uncertain_error id c) = any_cause-never c
  any_node-never (regulatory_uncertain_error id n c) = any_cause-never c
  any_node-never (subscription_cancel_error op c) = any_cause-never c
  any_node-never (order_recovery_error ids c k) =
      ground (arith, any_cause-never c, any_cause-never k)
  any_node-never (joined es) = any_errs-never es
  any_node-never _ = refl

  any_cause-never : (c : Cause) → any_cause (λ x. false) c ≡ false
  any_cause-never absent = refl
  any_cause-never (cause e) = any_node-never e

  any_errs-never : (es : Errs) → any_errs (λ x. false) es ≡ false
  any_errs-never no_errs = refl
  any_errs-never (err_and e es) = ground (arith, any_node-never e, any_errs-never es)

-- Several walks, each with one test, find what one walk with all tests finds.
finds-any_node :
    (ts : List (Err → Bool)) (e : Err) → finds ts e ≡ any_node (λ x. any (λ p. p x) ts) e
unfolding finds
finds-any_node [] e = sym (any_node-never e)
finds-any_node (p ∷ ts) e =
    ap (λ b. any_node p e || b) (finds-any_node ts e)
    ∙ sym (any_node-or p (λ x. any (λ q. q x) ts) e)

final_tests-is_final : (e : Err) → any (λ p. p e) final_tests ≡ is_final e
unfolding is_final matches sentinel_index
final_tests-is_final (api_error a) = ground arith
final_tests-is_final (sentinel Sentinel.not_ready) = refl
final_tests-is_final e = refl

transient_tests-is_transient :
    (e : Err) → any (λ p. p e) transient_tests ≡ is_transient e || is_non_pacing_api e
unfolding is_transient matches sentinel_index
transient_tests-is_transient (api_error a) = ground arith
transient_tests-is_transient (sentinel Sentinel.not_ready) = refl
transient_tests-is_transient e = refl

is_final-or : (e : Err) → is_final e ≡ is_final e || is_non_pacing_api e
unfolding is_final
is_final-or (api_error a) = ground arith
is_final-or (sentinel s) = ground arith
is_final-or e = refl

any_node-is_final : (e : Err) → finds final_tests e ≡ any_node is_final e
any_node-is_final e =
    finds-any_node final_tests e ∙ ap (λ p. any_node p e) (fun_ext final_tests-is_final)

any_node-is_transient :
    (e : Err) → finds transient_tests e ≡ any_node is_transient e || any_node is_non_pacing_api e
any_node-is_transient e =
    finds-any_node transient_tests e
    ∙ ap (λ p. any_node p e) (fun_ext transient_tests-is_transient)
    ∙ any_node-or is_transient is_non_pacing_api e

non_pacing-is_final :
    (e : Err) → any_node is_final e ≡ any_node is_final e || any_node is_non_pacing_api e
non_pacing-is_final e =
    ap (λ p. any_node p e) (fun_ext is_final-or) ∙ any_node-or is_final is_non_pacing_api e

-- An error may be retried exactly if no node of its tree is final and some node is transient.
pub is_retryable_iff :
    (e : Err)
    → (is_retryable (some e) ≡ true)
      ↔ ((any_node is_final e ≡ false) × (any_node is_transient e ≡ true))
unfolding is_retryable
is_retryable_iff e =
    let final = any_node-is_final e in
    let transient = any_node-is_transient e in
    let non_pacing = non_pacing-is_final e in (λ h. ground arith, λ h. ground arith)

transient-or : (e : Err) → is_transient e ≡ is_transient e || matches Sentinel.interrupted e
unfolding is_transient matches sentinel_index
transient-or (sentinel Sentinel.not_ready) = refl
transient-or (api_error a) = ground arith
transient-or e = refl

errors_is-is_transient :
    (e : Err) → errors_is e Sentinel.interrupted ≡ true → any_node is_transient e ≡ true
unfolding errors_is
errors_is-is_transient e h =
    let both =
      ap (λ p. any_node p e) (fun_ext transient-or)
      ∙ any_node-or is_transient (matches Sentinel.interrupted) e in
    ground arith

-- An error that interrupts a request may be retried exactly if its cause has no final node, be
-- the cause transient or not.
pub interrupted-is_retryable :
    (c : Err) → (is_retryable (some (interrupted (some c))) ≡ true) ↔ (any_node is_final c ≡ false)
unfolding interrupted any_node is_final is_transient
interrupted-is_retryable c = elim (Bool-cases (errors_is c Sentinel.interrupted)) [
  | inl e ↦
      let same = is_retryable_iff c in
      let transient = errors_is-is_transient c e in
      rw e (λ h. (same.0 h).0, λ h. same.1 (h, transient))
  | inr e ↦
      let wrapped = is_retryable_iff (wrap_both (sentinel Sentinel.interrupted) c) in
      rw e (λ h. let w = wrapped.0 h in ground arith, λ h. wrapped.1 (ground arith, refl))
]

-- Interrupting an interruption again changes nothing.
interrupted_twice : (c : Option Err) → interrupted (some (interrupted c)) ≡ interrupted c
unfolding interrupted errors_is any_node matches sentinel_index
interrupted_twice none = refl
interrupted_twice (some c) = elim (Bool-cases (errors_is c Sentinel.interrupted)) [
  | inl e ↦ rw e (rw e refl)
  | inr e ↦ rw e refl
]
