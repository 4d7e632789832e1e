-- ===== src/Ir/Time.antt =====
-- Dates and effective windows (crates/ke-core/src/ir/time.rs). A year is an `i16`, of either sign.
use regulatory_rule_engine.Prelude.{ℕ, ℤ, pos, String, Option, Bool, leb, leb_ℤ, ◌&&◌}

pub record JurisdictionDate : Type 0 where
  pub year : ℤ
  pub month : ℕ
  pub day : ℕ

abbrev pub min_year : ℤ
min_year = pos 1900

-- Structure only: month 1 to 12, day 1 to 31. The days that a month has are not looked at.
unfoldable pub is_structurally_valid : JurisdictionDate → Bool
is_structurally_valid d =
    leb_ℤ min_year d.year && (leb 1 d.month && leb d.month 12) && (leb 1 d.day && leb d.day 31)

pub record TimeZone : Type 0 where
  pub name : String
  pub tz_data_version : String

pub data EffectiveTimePolicy : Type 0 where
  midnight_local : EffectiveTimePolicy

pub record EffectiveWindow : Type 0 where
  pub effective_from : JurisdictionDate
  pub effective_to : Option JurisdictionDate
  pub jurisdiction_time_zone : Option TimeZone
  pub effective_time_policy : Option EffectiveTimePolicy
