-- ===== src/Registry/Resolve/Windows.antt =====
-- The window of a manifest, for resolution, and the window of a rule, for the runtime
-- (crates/ke-cli/src/registry/mod.rs, crates/ke-runtime/src/effective.rs).
use regulatory_rule_engine.Prelude.{
  ◌≡◌, refl, Option, none, some, true, false, Bool, not, if◌then◌else◌,
}
use regulatory_rule_engine.Ir.{JurisdictionDate, EffectiveWindow}
use regulatory_rule_engine.Runtime.Effective.{effective_at, key_lt, before_end}
use regulatory_rule_engine.Registry.Resolve.{date_lt, window_contains}

not-if : (b : Bool) → not b ≡ (if b then false else true)
not-if true = refl
not-if false = refl

same_window :
    (from : JurisdictionDate) (to : Option JurisdictionDate) (date : JurisdictionDate)
    → window_contains from to date ≡ (if key_lt date from then false else before_end date to)
unfolding window_contains date_lt key_lt before_end
same_window from none date = not-if (key_lt date from)
same_window from (some to) date = refl

-- The window in which resolution finds a manifest is the one in which the runtime applies a rule:
-- resolution takes a date for a start and an end exactly when a rule with a window of that start
-- and that end is effective at the date.
pub window_contains-effective_at :
    (w : EffectiveWindow) (date : JurisdictionDate)
    → window_contains w.effective_from w.effective_to date ≡ effective_at (some w) date
unfolding effective_at
window_contains-effective_at w date = same_window w.effective_from w.effective_to date
