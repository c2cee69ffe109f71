-- ===== src/Client/Reconnect/Delay.antt =====
-- The bounds of the delay.
use gatelet.Prelude.{ℕ, zero, suc, ◌+◌, ◌-◌, ◌*◌, ◌/◌, ◌≤◌, ◌<◌, ◌≡◌, arith, ℤ, pos, negsuc}
use gatelet.Client.Reconnect.{
  positive_or, default_reconnect_initial_delay, default_reconnect_max_delay, delay_loop,
  reconnect_delay,
}

sub_one : (n : ℕ) → suc n - 1 ≡ n
sub_one n = omega arith

delay_loop_bounds :
    (rounds delay limit : ℕ)
    → 1 ≤ delay
    → 1 ≤ limit
    → (1 ≤ delay_loop rounds delay limit) × (delay_loop rounds delay limit ≤ limit)
unfolding delay_loop
delay_loop_bounds zero delay limit h k = ground arith
delay_loop_bounds (suc rounds) delay limit h k =
    ground (arith, delay_loop_bounds rounds (delay * 2) limit)

delay_loop_grows :
    (rounds delay limit : ℕ)
    → 1 ≤ limit
    → delay_loop rounds delay limit ≤ delay_loop (suc rounds) delay limit
unfolding delay_loop
delay_loop_grows zero delay limit k = ground arith
delay_loop_grows (suc rounds) delay limit k =
    ground (arith, delay_loop_grows rounds (delay * 2) limit)

delay_loop_reaches :
    (rounds delay limit : ℕ)
    → 1 ≤ delay
    → limit ≤ rounds + delay
    → delay_loop rounds delay limit ≡ limit
unfolding delay_loop
delay_loop_reaches zero delay limit h k = ground arith
delay_loop_reaches (suc rounds) delay limit h k =
    ground (arith, delay_loop_reaches rounds (delay * 2) limit)

positive_or_pos : (d : ℤ) (n : ℕ) → 1 ≤ n → 1 ≤ positive_or d n
positive_or_pos (pos n) m h = ground arith
positive_or_pos (negsuc n) m h = ground arith

delay_loop_doubles :
    (rounds delay limit : ℕ)
    → delay_loop rounds delay limit < limit / 2
    → delay_loop (suc rounds) delay limit ≡ delay_loop rounds delay limit * 2
unfolding delay_loop
delay_loop_doubles zero delay limit h = ground arith
delay_loop_doubles (suc rounds) delay limit h =
    ground (arith, delay_loop_doubles rounds (delay * 2) limit)

abbrev pub limit_of : ℤ → ℕ
limit_of max_delay = positive_or max_delay default_reconnect_max_delay

delay_laws :
    (n delay limit : ℕ)
    → 1 ≤ delay
    → 1 ≤ limit
    → (1 ≤ delay_loop n delay limit)
      × (delay_loop n delay limit ≤ limit)
      × (delay_loop n delay limit ≤ delay_loop (suc n) delay limit)
      × (delay_loop n delay limit < limit / 2
          → delay_loop (suc n) delay limit ≡ delay_loop n delay limit * 2)
      × (limit ≤ n → delay_loop n delay limit ≡ limit)
delay_laws n delay limit h k = (
  (delay_loop_bounds n delay limit h k).0,
  (delay_loop_bounds n delay limit h k).1,
  delay_loop_grows n delay limit k,
  delay_loop_doubles n delay limit,
  λ e. delay_loop_reaches n delay limit h (omega arith),
)

-- The delay before an attempt is never zero and never above the maximum; it does not fall from one
-- attempt to the next; while it is below half the maximum the next is twice as long; and after as
-- many attempts as the maximum has nanoseconds it is the maximum. (A maximum or an initial delay
-- that is not positive stands for the default.)
pub reconnect_delay_laws :
    (n : ℕ) (initial max_delay : ℤ)
    → let delay = λ (k : ℕ). reconnect_delay (suc k) initial max_delay in
      (1 ≤ delay n)
      × (delay n ≤ limit_of max_delay)
      × (delay n ≤ delay (suc n))
      × (delay n < limit_of max_delay / 2 → delay (suc n) ≡ delay n * 2)
      × (limit_of max_delay ≤ n → delay n ≡ limit_of max_delay)
unfolding reconnect_delay
reconnect_delay_laws n initial max_delay =
    rw (sub_one (suc n), sub_one n)
      (delay_laws n (positive_or initial default_reconnect_initial_delay) (limit_of max_delay)
        (positive_or_pos initial _ (omega arith)) (positive_or_pos max_delay _ (omega arith)))
