-- ===== src/Registry/State/Reach.antt =====
-- What a sequence of permitted transitions can do.
use mathlib.Core.Path.{subst, ap, refl}
use regulatory_rule_engine.Prelude.{ℕ, ◌+◌, ◌≤◌, ◌<◌, ◌≡◌, true, List, [], ◌∷◌, arith, length}
use regulatory_rule_engine.Registry.State.{
  LifecycleState, draft, structurally_verified, ml_checked, expert_attested, published, deprecated,
  revoked, Preconditions, can_transition,
}

-- One requested transition: the evidence at hand, and the state asked for.
pub record Request : Type 0 where
  pub pre : Preconditions
  pub target : LifecycleState

-- Every request of the list is permitted from the state that the one before it leads to.
abbrev pub Permitted : LifecycleState → List Request → LifecycleState → Type 0
Permitted s [] t = s ≡ t
Permitted s (r ∷ rs) t = (can_transition s r.target r.pre ≡ true) × Permitted r.target rs t

-- How far a state is along the lifecycle.
abbrev pub stage : LifecycleState → ℕ
stage draft = 0
stage structurally_verified = 1
stage ml_checked = 2
stage expert_attested = 3
stage published = 4
stage deprecated = 5
stage revoked = 6

pub stage-can_transition :
    (s t : LifecycleState) (pre : Preconditions) → can_transition s t pre ≡ true → stage s < stage t
unfolding can_transition
stage-can_transition s t pre h = ground arith

-- A sequence of permitted transitions is at most as long as the distance of its last state from its
-- first one, where the seven states have the stages 0 to 6 in the order of the source.
pub length-Permitted :
    (s t : LifecycleState) (rs : List Request) → Permitted s rs t → stage s + length rs ≤ stage t
length-Permitted s t [] h = ground arith
length-Permitted s t (r ∷ rs) h =
    omega (arith, stage-can_transition s r.target r.pre h.0, length-Permitted r.target t rs h.1)

draft_next :
    (t : LifecycleState) (pre : Preconditions)
    → can_transition draft t pre ≡ true
    → (t ≡ structurally_verified)
      × (pre.structural_clean ≡ true)
      × (pre.compiler_signature_valid ≡ true)
unfolding can_transition
draft_next t pre h = ground arith

verified_next :
    (t : LifecycleState) (pre : Preconditions)
    → can_transition structurally_verified t pre ≡ true
    → (t ≡ ml_checked) × (pre.consistency_block_present ≡ true)
unfolding can_transition
verified_next t pre h = ground arith

checked_next :
    (t : LifecycleState) (pre : Preconditions)
    → can_transition ml_checked t pre ≡ true
    → (t ≡ expert_attested) × (pre.attestation_set_valid ≡ true)
unfolding can_transition
checked_next t pre h = ground arith

attested_next :
    (t : LifecycleState) (pre : Preconditions)
    → can_transition expert_attested t pre ≡ true
    → (t ≡ published) × (pre.prior_is_expert_attested ≡ true)
unfolding can_transition
attested_next t pre h = ground arith

published_stays : (rs : List Request) → Permitted published rs published → rs ≡ []
published_stays [] h = refl
published_stays (r ∷ rs) h = absurd (omega (arith, length-Permitted published published (r ∷ rs) h))

from_attested :
    (rs : List Request)
    → Permitted expert_attested rs published
    → (d : Request) × (rs ≡ d ∷ []) × (d.pre.prior_is_expert_attested ≡ true)
from_attested [] h = absurd (cc)
from_attested (r ∷ rs) (c, h) =
    let (e, v) = attested_next r.target r.pre c in
    (r, ap (λ xs. r ∷ xs) (published_stays rs (subst (λ s. Permitted s rs published) e h)), v)

from_checked :
    (rs : List Request)
    → Permitted ml_checked rs published
    → (c d : Request) × (rs ≡ c ∷ d ∷ [])
      × (c.pre.attestation_set_valid ≡ true)
      × (d.pre.prior_is_expert_attested ≡ true)
from_checked [] h = absurd (cc)
from_checked (r ∷ rs) (c, h) =
    let (e, v) = checked_next r.target r.pre c in
    let (d, p, w) = from_attested rs (subst (λ s. Permitted s rs published) e h) in
    (r, d, ap (λ xs. r ∷ xs) p, v, w)

from_verified :
    (rs : List Request)
    → Permitted structurally_verified rs published
    → (b c d : Request) × (rs ≡ b ∷ c ∷ d ∷ [])
      × (b.pre.consistency_block_present ≡ true)
      × (c.pre.attestation_set_valid ≡ true)
      × (d.pre.prior_is_expert_attested ≡ true)
from_verified [] h = absurd (cc)
from_verified (r ∷ rs) (c, h) =
    let (e, v) = verified_next r.target r.pre c in
    let (c', d, p, w, x) = from_checked rs (subst (λ s. Permitted s rs published) e h) in
    (r, c', d, ap (λ xs. r ∷ xs) p, v, w, x)

-- A sequence of permitted transitions that takes an artifact from `draft` to `published` has exactly
-- four steps, and each had the evidence of its tier at hand: a clean structural verification and a
-- valid compiler signature, then a consistency block, then a valid attestation set, then the prior
-- state `expert_attested`.
pub published_needs_evidence :
    (rs : List Request)
    → Permitted draft rs published
    → (a b c d : Request) × (rs ≡ a ∷ b ∷ c ∷ d ∷ [])
      × (a.pre.structural_clean ≡ true)
      × (a.pre.compiler_signature_valid ≡ true)
      × (b.pre.consistency_block_present ≡ true)
      × (c.pre.attestation_set_valid ≡ true)
      × (d.pre.prior_is_expert_attested ≡ true)
published_needs_evidence [] h = absurd (cc)
published_needs_evidence (r ∷ rs) (c, h) =
    let (e, v, w) = draft_next r.target r.pre c in
    let (b, c', d, p, x, y, z) = from_verified rs (subst (λ s. Permitted s rs published) e h) in
    (r, b, c', d, ap (λ xs. r ∷ xs) p, v, w, x, y, z)
