-- ===== src/Policyreport/Gate/Expiry.antt =====
-- The warning of an approval that expires soon, in days.
use Prim.Native.Nat.{◌/◌, ◌%◌}
use sealos_lifecycle.Base.{ℕ, suc, ◌+◌, ◌*◌, ◌≤◌, ◌<◌, ◌≡◌, ◌↔◌, nat_eq, true, false, pos, arith}
use sealos_lifecycle.Policyreport.Types.{Clock, GateConfig, GateResult}
use sealos_lifecycle.Policyreport.Gate.{
  day, wrap_int64, days_of, approval_expiry_warning_window, gate_approval_days_until_expiry,
  expire_soon, warn_of_expiry, add_violation, add_warning,
}

-- The days are the remaining time, rounded up.
days_of_bounds : (n : ℕ) → (d : ℕ) × (days_of (pos n) ≡ pos d) × (n ≤ d * day) × (d * day < n + day)
unfolding days_of
days_of_bounds n = elim (nat_eq.dec (n % day) 0) [
  | yes p ↦ (n / day, ground arith, omega arith, omega arith)
  | no p ↦ (suc (n / day), ground arith, omega arith, omega arith)
]

window_small :
    (config : GateConfig) (w : ℕ)
    → config.approval_expiry_warning_days ≡ pos w
    → w ≤ 106751
    → approval_expiry_warning_window config ≡ pos (w * day)
unfolding approval_expiry_warning_window wrap_int64
window_small config w e h = rw e (ground arith)

module _ (K : Clock) where
  -- An approval with some nanoseconds left expires soon exactly if they are at most the days of the
  -- configuration. The days that are then reported are the time left, rounded up, and at most
  -- those days. The days of the configuration are few enough for an `int64` of nanoseconds.
  pub warn_of_expiry_bounds :
      (now expires_at : K.Time) (config : GateConfig) (r : GateResult) (left days : ℕ)
      → K.after expires_at now ≡ true
      → K.sub expires_at now ≡ pos (suc left)
      → config.approval_expiry_warning_days ≡ pos days
      → days ≤ 106751
      → r.approval_summary.expires_soon ≡ false
      → (((warn_of_expiry K now expires_at config r).approval_summary.expires_soon ≡ true)
          ↔ (suc left ≤ days * day))
        × (suc left ≤ days * day
            → (d : ℕ) × ((warn_of_expiry K now expires_at config
                  r).approval_summary.days_until_expiry
                ≡ pos d)
              × (d ≤ days)
              × (suc left ≤ d * day)
              × (d * day < suc left + day))
  unfolding warn_of_expiry expire_soon add_violation add_warning gate_approval_days_until_expiry
  warn_of_expiry_bounds now expires_at config r left days a s e small fresh =
      let window = window_small config days e small in
      let (d, is, above, below) = days_of_bounds (suc left) in
      ((λ h. ground arith, λ h. ground arith), λ h. (d, ground arith, omega arith, above, below))
