-- ===== src/Prelude/Triples.antt =====
-- What an action makes of the state, whether it returns or throws: a rule for each way to build one.
use mathlib.Core.Path.{◌≡◌, refl}
use mathlib.Core.Bool.{Bool, true, false}
use lyth_mcp.Prelude.Tests.{if◌then◌else◌}
use lyth_mcp.Prelude.Effects.{
  Result, ok, err, Exec, continue, ◌>>=◌, pure, raise, lift, rescue, recover,
}

abbrev pub Ends : {E S A : Type 0} → (A → S → Type 0) → (S → Type 0) → Result E A → S → Type 0
Ends Q R (ok a) s = Q a s
Ends Q R (err e) s = R s

-- From a state with `P`, `m` returns in a state with `Q`, or throws in a state with `R`.
pub record Triple {E S A : Type 0} (P : S → Type 0) (m : Exec E S A) (Q : A → S → Type 0)
    (R : S → Type 0) : Type 0 where
  pub at : (s : S) → P s → Ends Q R (m s).0 (m s).1

module _ {E S A B : Type 0} {P : S → Type 0} {R : S → Type 0} where
  pub Triple-bind :
      {Q : A → S → Type 0} {Q' : B → S → Type 0} (m : Exec E S A) (f : A → Exec E S B)
      → Triple P m Q R
      → ((a : A) → Triple (Q a) (f a) Q' R)
      → Triple P (m >>= f) Q' R
  unfolding ◌>>=◌
  Triple-bind {Q} {Q'} m f tm tf = record { at = λ s h. followed (m s).0 (m s).1 (tm.at s h) }
    where
      followed :
          (r : Result E A) (t : S) → Ends Q R r t → Ends Q' R (continue r f t).0 (continue r f t).1
      followed (ok a) t post = (tf a).at t post
      followed (err e) t post = post

module _ {E S A : Type 0} {P : S → Type 0} {Q : A → S → Type 0} {R : S → Type 0} where
  pub Triple-pure : (a : A) → ((s : S) → P s → Q a s) → Triple {E = E} P (pure a) Q R
  unfolding pure
  Triple-pure a q = record { at = q }

  pub Triple-raise : (e : E) → ((s : S) → P s → R s) → Triple P (raise {A = A} e) Q R
  unfolding raise
  Triple-raise e r = record { at = r }

  pub Triple-if :
      (b : Bool) (m n : Exec E S A)
      → (b ≡ true → Triple P m Q R)
      → (b ≡ false → Triple P n Q R)
      → Triple P (if b then m else n) Q R
  Triple-if true m n tm tn = tm refl
  Triple-if false m n tm tn = tn refl

  pub Triple-lift :
      (r : Result E A)
      → ((a : A) (s : S) → r ≡ ok a → P s → Q a s)
      → ((s : S) → P s → R s)
      → Triple P (lift r) Q R
  unfolding lift
  Triple-lift r q x = record { at = λ s h. ended r s (λ a. q a s) (x s h) h }
    where
      ended :
          (r' : Result E A) (s : S)
          → ((a : A) → r' ≡ ok a → P s → Q a s)
          → R s
          → P s
          → Ends Q R r' s
      ended (ok a) s k x h = k a refl h
      ended (err e) s k x h = x

  pub Triple-recover :
      {R' : S → Type 0} (m : Exec E S A) (h : E → Exec E S A)
      → Triple P m Q R'
      → ((e : E) → Triple R' (h e) Q R)
      → Triple P (recover m h) Q R
  unfolding recover
  Triple-recover {R'} m h tm th = record { at = λ s p. caught (m s).0 (m s).1 (tm.at s p) }
    where
      caught : (r : Result E A) (t : S) → Ends Q R' r t → Ends Q R (rescue r h t).0 (rescue r h t).1
      caught (ok a) t post = post
      caught (err e) t post = (th e).at t post

  pub Triple-weaken :
      {P' : S → Type 0} {Q' : A → S → Type 0} {R' : S → Type 0} (m : Exec E S A)
      → Triple P' m Q' R'
      → ((s : S) → P s → P' s)
      → ((a : A) (s : S) → Q' a s → Q a s)
      → ((s : S) → R' s → R s)
      → Triple P m Q R
  Triple-weaken {P'} {Q'} {R'} m t p q r = record {
    at = λ s h. weaker (m s).0 (m s).1 (t.at s (p s h));
  }
    where
      weaker : (x : Result E A) (s : S) → Ends Q' R' x s → Ends Q R x s
      weaker (ok a) s post = q a s post
      weaker (err e) s post = r s post
