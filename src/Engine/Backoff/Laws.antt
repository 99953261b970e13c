-- ===== src/Engine/Backoff/Laws.antt =====
-- The delays of a row of attempts.
use ibkr_go.Prelude.{
  ℕ, zero, suc, ◌*◌, ◌≤◌, pos, negsuc, ◌≡◌, refl, inl, inr, arith, leb, if◌then◌else◌, Bool-cases,
  if_cases,
}
use ibkr_go.Engine.Backoff.{reconnect_backoff, reconnect_backoff_max, delay_loop, reconnect_delay}

abbrev pub at_most : ℕ → ℕ → ℕ
at_most bound x = if leb bound x then bound else x

delay_loop-suc :
    (n d : ℕ)
    → d ≤ reconnect_backoff_max
    → delay_loop (suc n) d ≡ at_most reconnect_backoff_max (2 * delay_loop n d)
unfolding delay_loop
delay_loop-suc zero d h = ground arith
delay_loop-suc (suc n) d h = elim (Bool-cases (leb reconnect_backoff_max (d * 2))) [
  | inl far ↦ rw far (ground arith)
  | inr near ↦ rw near (delay_loop-suc n (d * 2) (ground arith))
]

delay_loop-bounds :
    (n d : ℕ)
    → reconnect_backoff ≤ d
    → d ≤ reconnect_backoff_max
    → (reconnect_backoff ≤ delay_loop n d) × (delay_loop n d ≤ reconnect_backoff_max)
unfolding delay_loop
delay_loop-bounds zero d low high = (low, high)
delay_loop-bounds (suc n) d low high =
    if_cases (λ x. (reconnect_backoff ≤ x) × (x ≤ reconnect_backoff_max))
      (leb reconnect_backoff_max (d * 2)) (λ far. omega arith)
      (λ near. delay_loop-bounds n (d * 2) (omega arith) (ground arith))

-- The first attempt waits one second, each further one twice as long as the one before, up to 16
-- seconds; a negative number counts as the first. No attempt waits less than one second or more
-- than 16.
pub reconnect_delay_doubles :
    (attempt : ℕ)
    → (reconnect_delay (negsuc attempt) ≡ reconnect_backoff)
      × (reconnect_delay (pos 0) ≡ reconnect_backoff)
      × (reconnect_delay (pos (suc attempt))
          ≡ at_most reconnect_backoff_max (2 * reconnect_delay (pos attempt)))
      × (reconnect_backoff ≤ reconnect_delay (pos attempt))
      × (reconnect_delay (pos attempt) ≤ reconnect_backoff_max)
unfolding reconnect_delay
reconnect_delay_doubles attempt =
    let (low, high) = delay_loop-bounds attempt reconnect_backoff (omega arith) (omega arith) in
    (refl, refl, delay_loop-suc attempt reconnect_backoff (omega arith), low, high)
