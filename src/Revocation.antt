-- ===== src/Revocation.antt =====
-- The policy that a revocation imposes (crates/ke-core/src/revocation.rs).
use regulatory_rule_engine.Prelude.{ℕ, ◌≤◌, Option, none, some, ltb, if◌then◌else◌, arith}
use regulatory_rule_engine.Manifest.{RevocationPolicy, hard_stop, finish_pinned, audit_only}

pub data RevocationReasonClass : Type 0 where
  key_compromise legal_invalidity routine_supersession advisory : RevocationReasonClass

unfoldable pub revocation_floor : RevocationReasonClass → RevocationPolicy
revocation_floor key_compromise = hard_stop
revocation_floor legal_invalidity = hard_stop
revocation_floor routine_supersession = finish_pinned
revocation_floor advisory = audit_only

unfoldable pub strictness_rank : RevocationPolicy → ℕ
strictness_rank hard_stop = 2
strictness_rank finish_pinned = 1
strictness_rank audit_only = 0

configured_or_floor : RevocationPolicy → Option RevocationPolicy → RevocationPolicy
unfolding strictness_rank
configured_or_floor floor none = floor
configured_or_floor floor (some c) =
    if ltb (strictness_rank floor) (strictness_rank c) then c else floor

unfoldable pub revocation_decision :
    RevocationReasonClass → Option RevocationPolicy → RevocationPolicy
unfolding configured_or_floor revocation_floor
revocation_decision reason configured = configured_or_floor (revocation_floor reason) configured

-- Whether a configured policy is, at most, as strict as another.
abbrev pub NoStricter : Option RevocationPolicy → RevocationPolicy → Type 0
NoStricter none p = Unit
NoStricter (some c) p = strictness_rank c ≤ strictness_rank p

-- The decision is the least strict policy that is no laxer than the floor of the reason and no
-- laxer than the configured policy: both are lower bounds of it in strictness, and any other policy
-- that they bound from below is at least as strict.
pub revocation_decision-IsJoin :
    (reason : RevocationReasonClass) (configured : Option RevocationPolicy)
    → let decided = revocation_decision reason configured in
      (strictness_rank (revocation_floor reason) ≤ strictness_rank decided)
      × NoStricter configured decided
      × ((p : RevocationPolicy)
          → strictness_rank (revocation_floor reason) ≤ strictness_rank p
          → NoStricter configured p
          → strictness_rank decided ≤ strictness_rank p)
unfolding revocation_decision
revocation_decision-IsJoin reason none = (ground arith, tt, λ p h k. ground arith)
revocation_decision-IsJoin reason (some c) = (ground arith, ground arith, λ p h k. ground arith)
