-- ===== src/Prelude/Tables.antt =====
-- Facts about all numbers under a bound, checked by evaluation.
use volume_backup.Prelude.{ℕ, zero, suc, ◌<◌, ◌≡◌, arith, Bool, true, false, if◌then◌else◌}

unfoldable pub every : (ℕ → Bool) → ℕ → Bool
every test zero = true
every test (suc bound) = if every test bound then test bound else false

pub every-at : (test : ℕ → Bool) (k bound : ℕ) → k < bound → every test bound ≡ true → test k ≡ true
unfolding every
every-at test k zero below e = absurd (omega arith)
every-at test k (suc bound) below e = ground (arith, every-at test k bound)
