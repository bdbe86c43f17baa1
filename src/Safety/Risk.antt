-- ===== src/Safety/Risk.antt =====
-- The score and the level of risk that `profileRisk` and `accountSafetyProfiles` give, src/wallet_safety.ts.
use lyth_mcp.Prelude.{ℕ, ◌*◌, ◌≤◌, min, ◌≡◌, List, [], ◌∷◌, arith, All}
use lyth_mcp.Safety.{
  RiskFactors, RiskLevel, risk_rank, higher_risk, risk_score, level_of, Profile, highest_of,
}

-- The same wallet, with no less that is pending or failed.
pub record Worse (f g : RiskFactors) : Type 0 where
  pub same_key : g.key_protection ≡ f.key_protection
  pub same_mode : g.hot_wallet ≡ f.hot_wallet
  pub same_expiry : g.has_expired ≡ f.has_expired
  pub more_signed : f.signed_count ≤ g.signed_count
  pub more_submitted : f.submitted_count ≤ g.submitted_count
  pub more_failed : f.failed_count ≤ g.failed_count

min-le : (c a b : ℕ) → a ≤ b → min c a ≤ min c b
min-le c a b h = omega arith

level-le : (a b : ℕ) → a ≤ b → risk_rank (level_of b) ≤ risk_rank (level_of a)
unfolding level_of
level-le a b h = ground arith

score-le : (f g : RiskFactors) → Worse f g → risk_score g ≤ risk_score f
unfolding risk_score
score-le f g w =
    let a = min-le 25 (f.signed_count * 8) (g.signed_count * 8) (omega (arith, w.more_signed)) in
    let b =
      min-le 15 (f.submitted_count * 5) (g.submitted_count * 5) (omega (arith, w.more_submitted)) in
    let c = min-le 20 (f.failed_count * 5) (g.failed_count * 5) (omega (arith, w.more_failed)) in
    rw (w.same_key, w.same_mode, w.same_expiry) (omega (arith, a, b, c))

-- If more payloads of the same wallet wait or have failed, the score is no higher, and the level of risk
-- no lower.
pub risk_score-Worse :
    (f g : RiskFactors)
    → Worse f g
    → (risk_score g ≤ risk_score f)
      × (risk_rank (level_of (risk_score f)) ≤ risk_rank (level_of (risk_score g)))
risk_score-Worse f g w = (score-le f g w, level-le (risk_score g) (risk_score f) (score-le f g w))

higher_risk-le :
    (a b : RiskLevel)
    → (risk_rank a ≤ risk_rank (higher_risk a b)) × (risk_rank b ≤ risk_rank (higher_risk a b))
higher_risk-le a b = ground arith

from_start :
    (level : RiskLevel) (qs : List Profile) → risk_rank level ≤ risk_rank (highest_of level qs)
from_start level [] = omega arith
from_start level (q ∷ qs) =
    omega (arith, from_start (higher_risk level q.level) qs, higher_risk-le level q.level)

-- The highest risk of a report is at least that of every profile in it.
pub highest_of-All :
    (level : RiskLevel) (qs : List Profile)
    → All (λ q. risk_rank q.level ≤ risk_rank (highest_of level qs)) qs
highest_of-All level [] = tt
highest_of-All level (q ∷ qs) = (
  omega (arith, from_start (higher_risk level q.level) qs, higher_risk-le level q.level),
  highest_of-All (higher_risk level q.level) qs,
)
