-- ===== src/Worker/Execution/Delay.antt =====
-- adapters/aws/worker.py: the table of `_retry_delay`.
use moodle_autotask.Base.{ℕ, zero, suc, ◌-◌, ◌*◌, ◌^◌, ◌≤◌, min, ◌≡◌, refl, sym, ap, ◌∙◌, arith}
use moodle_autotask.Worker.Execution.{retry_delay}
use moodle_autotask.Worker.Execution.Types.{delay_at}

power_pos : (k : ℕ) → 1 ≤ 2 ^ k
power_pos zero = omega arith
power_pos (suc k) = let h = power_pos k in omega (arith, h)

table : (k : ℕ) → delay_at (min k 6) ≡ min 1800 (30 * 2 ^ k)
table zero = refl
table (suc zero) = refl
table (suc (suc zero)) = refl
table (suc (suc (suc zero))) = refl
table (suc (suc (suc (suc zero)))) = refl
table (suc (suc (suc (suc (suc zero))))) = refl
table (suc (suc (suc (suc (suc (suc k)))))) =
    let h = power_pos k in
    let six : min (suc (suc (suc (suc (suc (suc k)))))) 6 ≡ 6 = omega arith in
    let top : min 1800 (30 * 2 ^ suc (suc (suc (suc (suc (suc k)))))) ≡ 1800 = omega (arith, h) in
    ap delay_at six ∙ sym top

-- A retry waits half a minute after the first attempt, twice as long after each further attempt, and
-- never longer than half an hour; and at no attempts as after the first.
pub retry_delay_doubles : (attempts : ℕ) → retry_delay attempts ≡ min 1800 (30 * 2 ^ (attempts - 1))
unfolding retry_delay
retry_delay_doubles attempts = table (attempts - 1)
