-- ===== src/Prelude/Invariants.antt =====
-- Invariants of actions, with what a returned value satisfies; one rule for each way to build one.
use mathlib.Core.Path.{◌≡◌, refl}
use mathlib.Core.Bool.{Bool, true, false}
use lyth_mcp.Prelude.Tests.{if◌then◌else◌}
use lyth_mcp.Prelude.Effects.{
  Result, ok, err, Exec, continue, ◌>>=◌, pure, raise, lift, rescue, recover,
}

abbrev pub OnOk : {E A : Type 0} → (A → Type 0) → Result E A → Type 0
OnOk Q (ok a) = Q a
OnOk Q (err e) = Unit

-- `m` keeps `P`, whether it returns or throws, and what it returns satisfies `Q`.
pub record Ensures {E S A : Type 0} (P : S → Type 0) (m : Exec E S A) (Q : A → Type 0)
    : Type 0 where
  pub at : (s : S) → P s → P (m s).1 × OnOk Q (m s).0

module _ {E S A B : Type 0} {P : S → Type 0} where
  pub Ensures-bind :
      {Q : A → Type 0} {R : B → Type 0} (m : Exec E S A) (f : A → Exec E S B)
      → Ensures P m Q
      → ((a : A) → Q a → Ensures P (f a) R)
      → Ensures P (m >>= f) R
  unfolding ◌>>=◌
  Ensures-bind {Q} {R} m f em ef = record {
    at = λ s h. let (kept, post) = em.at s h in continue_ensures (m s).0 (m s).1 kept post;
  }
    where
      continue_ensures :
          (r : Result E A) (t : S)
          → P t
          → OnOk Q r
          → P (continue r f t).1 × OnOk R (continue r f t).0
      continue_ensures (ok a) t kept post = (ef a post).at t kept
      continue_ensures (err e) t kept post = (kept, tt)

module _ {E S A : Type 0} {P : S → Type 0} where
  pub Ensures-pure : {Q : A → Type 0} (a : A) → Q a → Ensures {E = E} P (pure a) Q
  unfolding pure
  Ensures-pure a q = record { at = λ s h. (h, q) }

  pub Ensures-raise : {Q : A → Type 0} (e : E) → Ensures P (raise {A = A} e) Q
  unfolding raise
  Ensures-raise e = record { at = λ s h. (h, tt) }

  -- The rest of a block may use that `r` did not throw.
  pub Ensures-lift : (r : Result E A) → Ensures P (lift r) (λ a. r ≡ ok a)
  unfolding lift
  Ensures-lift r = record { at = λ s h. (h, returned r) }
    where
      returned : (r : Result E A) → OnOk (λ a. r ≡ ok a) r
      returned (ok a) = refl
      returned (err e) = tt

  pub Ensures-if :
      {Q : A → Type 0} (b : Bool) (m n : Exec E S A)
      → (b ≡ true → Ensures P m Q)
      → (b ≡ false → Ensures P n Q)
      → Ensures P (if b then m else n) Q
  Ensures-if true m n em en = em refl
  Ensures-if false m n em en = en refl

-- An invariant alone.
abbrev pub Keeps : {E S A : Type 0} → (S → Type 0) → Exec E S A → Type 0
Keeps P m = Ensures P m (λ _. Unit {0})

OnOk-trivial : {E A : Type 0} (r : Result E A) → OnOk (λ _. Unit {0}) r
OnOk-trivial (ok a) = tt
OnOk-trivial (err e) = tt

pub Keeps-of :
    {E S A : Type 0} {P : S → Type 0} (m : Exec E S A) → ((s : S) → P s → P (m s).1) → Keeps P m
Keeps-of m h = record { at = λ s p. (h s p, OnOk-trivial (m s).0) }

-- The rules for an invariant alone.
module _ {E S A : Type 0} {P : S → Type 0} where
  pub Keeps-pure : (a : A) → Keeps {E = E} P (pure a)
  Keeps-pure a = Ensures-pure a tt

  pub Keeps-raise : (e : E) → Keeps P (raise {A = A} e)
  Keeps-raise e = Ensures-raise e

  pub Keeps-lift : (r : Result E A) → Keeps P (lift r)
  unfolding lift
  Keeps-lift r = record { at = λ s h. (h, OnOk-trivial r) }

  pub Keeps-if :
      (b : Bool) (m n : Exec E S A) → Keeps P m → Keeps P n → Keeps P (if b then m else n)
  Keeps-if b m n km kn = Ensures-if b m n (λ _. km) (λ _. kn)

module _ {E S A B : Type 0} {P : S → Type 0} where
  pub Keeps-bind :
      (m : Exec E S A) (f : A → Exec E S B)
      → Keeps P m
      → ((a : A) → Keeps P (f a))
      → Keeps P (m >>= f)
  Keeps-bind m f km kf = Ensures-bind m f km (λ a _. kf a)

pub ruleset keeps_rules = (Keeps-pure, Keeps-raise, Keeps-lift, Keeps-if, Keeps-bind)

pub Keeps-recover :
    {E S A : Type 0} {P : S → Type 0} (m : Exec E S A) (h : E → Exec E S A)
    → Keeps P m
    → ((e : E) → Keeps P (h e))
    → Keeps P (recover m h)
unfolding recover
Keeps-recover {E} {S} {A} {P} m h km kh =
    Keeps-of (recover m h) (λ s p. caught (m s).0 (m s).1 (km.at s p).0)
  where
    caught : (r : Result E A) (t : S) → P t → P (rescue r h t).1
    caught (ok a) t kept = kept
    caught (err e) t kept = ((kh e).at t kept).0
