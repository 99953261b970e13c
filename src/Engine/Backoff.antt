-- ===== src/Engine/Backoff.antt =====
-- reconnectDelay of engine_reconnect.go.
pub mod Laws
use ibkr_go.Prelude.{
  ℕ, zero, suc, ◌+◌, ◌-◌, ◌*◌, ◌/◌, ◌%◌, ◌^◌, ◌≤◌, ◌<◌, max, ℤ, pos, negsuc, ltz, is_negative,
  int_eq, int_eq-eq, String, string_append, ◌≡◌, refl, sym, ap, fun_ext, ◌∙◌, subst, ◌≢◌, ◌↔◌, ◌⊎◌,
  inl, inr, Bool, true, false, not, ◌&&◌, ◌||◌, Option, none, some, List, [], ◌∷◌, ◌++◌, map,
  append_assoc, append-nil, arith, ltb, leb, ◌==◌, if◌then◌else◌, ltb→lt, lt→ltb, le→ltb, ==_iff,
  Bool-cases, Option-cases, if_both, if_cases, or_else_both, Memᴰ, any-mem, all-mem, length, take,
  drop, length-append, take-append-drop, length-take, length-drop, take-append_left,
  drop-append_left, all, any, All, Result, ok, err, ◌>>◌, reject, is_space, trim_space, is_empty,
  is_blank, is_one_of, is_blank-is_empty, is_one_of-mem, str_eq, eq_iff,
}

-- A time.Duration counts nanoseconds.
abbrev pub reconnect_backoff : ℕ
reconnect_backoff = 1000000000

abbrev pub reconnect_backoff_max : ℕ
reconnect_backoff_max = 16 * reconnect_backoff

-- The loop. A delay below the maximum doubles to less than 2 ^ 35, so the product does not wrap.
unfoldable pub delay_loop : ℕ → ℕ → ℕ
delay_loop zero delay = delay
delay_loop (suc rounds) delay =
    let rest = delay_loop rounds (delay * 2) in
    if leb reconnect_backoff_max (delay * 2) then reconnect_backoff_max else rest

unfoldable pub reconnect_delay : ℤ → ℕ
unfolding delay_loop
reconnect_delay (negsuc n) = delay_loop 0 reconnect_backoff
reconnect_delay (pos n) = delay_loop n reconnect_backoff
