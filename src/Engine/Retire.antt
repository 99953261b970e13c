-- ===== src/Engine/Retire.antt =====
-- engine_subscription_cancel.go: what a failed cancellation does to its connection, and which part of
-- its error the other routes see.
pub mod RouteErrors
pub mod Laws
use ibkr_go.Prelude.{
  ℕ, zero, suc, ◌+◌, ◌-◌, ◌*◌, ◌/◌, ◌%◌, ◌^◌, ◌≤◌, ◌<◌, max, ℤ, pos, negsuc, ltz, is_negative,
  int_eq, int_eq-eq, String, string_append, ◌≡◌, refl, sym, ap, fun_ext, ◌∙◌, subst, ◌≢◌, ◌↔◌, ◌⊎◌,
  inl, inr, Bool, true, false, not, ◌&&◌, ◌||◌, Option, none, some, List, [], ◌∷◌, ◌++◌, map,
  append_assoc, append-nil, arith, ltb, leb, ◌==◌, if◌then◌else◌, ltb→lt, lt→ltb, le→ltb, ==_iff,
  Bool-cases, Option-cases, if_both, if_cases, or_else_both, Memᴰ, any-mem, all-mem, length, take,
  drop, length-append, take-append-drop, length-take, length-drop, take-append_left,
  drop-append_left, all, any, All, Result, ok, err, ◌>>◌, reject, is_space, trim_space, is_empty,
  is_blank, is_one_of, is_blank-is_empty, is_one_of-mem, str_eq, eq_iff,
}
use ibkr_go.Errors.Tree.{
  Sentinel, Err, Cause, Errs, sentinel, plain_error, api_error, validation_error,
  frame_too_large_error, connect_error, protocol_error, exercise_uncertain_error,
  regulatory_uncertain_error, subscription_cancel_error, order_recovery_error, joined, absent,
  cause, no_errs, err_and,
}

-- The variables that the closure `walk` sets.
pub record Walk : Type 0 where
  pub causes : List Err
  pub found : Bool

unfoldable mutual
  pub walk : Err → Walk → Walk
  walk (subscription_cancel_error op absent) w = record w { found = true }
  walk (subscription_cancel_error op (cause e)) w = record {
    causes = w.causes ++ (e ∷ []);
    found = true;
  }
  walk (connect_error op c) w = walk_cause c w
  walk (protocol_error d m c) w = walk_cause c w
  walk (exercise_uncertain_error id c) w = walk_cause c w
  walk (regulatory_uncertain_error id n c) w = walk_cause c w
  walk (order_recovery_error ids c k) w = walk_cause k (walk_cause c w)
  walk (joined es) w = walk_all es w
  walk (sentinel s) w = w
  walk (plain_error m) w = w
  walk (api_error a) w = w
  walk (validation_error f v m) w = w
  walk (frame_too_large_error n l) w = w

  pub walk_cause : Cause → Walk → Walk
  walk_cause absent w = w
  walk_cause (cause e) w = walk e w

  pub walk_all : Errs → Walk → Walk
  walk_all no_errs w = w
  walk_all (err_and e es) w = walk_all es (walk e w)

abbrev pub errs_of : List Err → Errs
errs_of [] = no_errs
errs_of (e ∷ es) = err_and e (errs_of es)

-- The `switch` on the number of causes.
unfoldable pub route_cause : List Err → Option Err
route_cause [] = none
route_cause (e ∷ []) = some e
route_cause (e ∷ k ∷ es) = some (joined (errs_of (e ∷ k ∷ es)))

abbrev pub nothing_walked : Walk
nothing_walked = record { causes = []; found = false }

unfoldable pub walk_root : Option Err → Walk
walk_root none = nothing_walked
walk_root (some e) = walk e nothing_walked

unfoldable pub subscription_cancel_route_err : Option Err → Option Err × Bool
unfolding walk_root route_cause
subscription_cancel_route_err e = (route_cause (walk_root e).causes, (walk_root e).found)

-- errors.Join of two errors, nil ones left out.
unfoldable pub errors_join : Option Err → Option Err → Option Err
errors_join none none = none
errors_join (some e) none = some (joined (err_and e no_errs))
errors_join none (some k) = some (joined (err_and k no_errs))
errors_join (some e) (some k) = some (joined (err_and e (err_and k no_errs)))

-- The fields of the engine that a retirement reads and writes; a transport is known by a number.
pub record Retirement : Type 0 where
  pub transport : Option ℕ
  pub retiring_transport : Option ℕ
  pub transport_retire_err : Option Err
  pub transport_route_err : Option Err
  pub closed_transports : List ℕ

abbrev pub same_transport : Option ℕ → ℕ → Bool
same_transport none n = false
same_transport (some m) n = m == n

abbrev pub retire_current : ℕ → Option Err → Option Err → Retirement → Retirement
retire_current tr retire_err route_err r =
    if same_transport r.retiring_transport tr
    then record r {
      transport_retire_err = errors_join r.transport_retire_err retire_err;
      transport_route_err = errors_join r.transport_route_err route_err;
    }
    else record r {
      retiring_transport = some tr;
      transport_retire_err = retire_err;
      transport_route_err = route_err;
      closed_transports = tr ∷ r.closed_transports;
    }

unfoldable pub retire_transport_with_route_err : Option Err → Option Err → Retirement → Retirement
retire_transport_with_route_err retire_err route_err r = elim r.transport [
  | none ↦ r
  | some tr ↦ retire_current tr retire_err route_err r
]

unfoldable pub retire_transport : Option Err → Retirement → Retirement
unfolding retire_transport_with_route_err
retire_transport e r = retire_transport_with_route_err e e r

abbrev pub retire_if_found : Option Err → Option Err × Bool → Retirement → Retirement
retire_if_found e (route_err, false) r = r
retire_if_found e (route_err, true) r = retire_transport_with_route_err e route_err r

unfoldable pub retire_subscription_transport : Option Err → Retirement → Retirement
unfolding subscription_cancel_route_err
retire_subscription_transport e r = retire_if_found e (subscription_cancel_route_err e) r
