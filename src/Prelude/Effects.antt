-- ===== src/Prelude/Effects.antt =====
-- Results of code that throws, and actions on a state that may throw. What was written before a
-- throw stays written, so an action gives the state back beside the error too.
use mathlib.Core.Path.{◌≡◌, refl, ap}
use mathlib.Core.Bool.{Bool, true, false}
use mathlib.Core.Option.{Option, none, some}
use mathlib.Core.Logic.{◌⊎◌, inl, inr}

pub data Result (E : Type 0) (A : Type 0) : Type 0 where
  ok : A → Result E A
  err : E → Result E A

abbrev pub then_result : {E A B : Type 0} → Result E A → (A → Result E B) → Result E B
then_result (ok a) f = f a
then_result (err e) f = err e

abbrev pub is_ok : {E A : Type 0} → Result E A → Bool
is_ok (ok _) = true
is_ok (err _) = false

abbrev pub of_option : {E A : Type 0} → E → Option A → Result E A
of_option e none = err e
of_option e (some a) = ok a

abbrev pub Exec : Type 0 → Type 0 → Type 0 → Type 0
Exec E S A = S → Result E A × S

abbrev pub continue : {E S A B : Type 0} → Result E A → (A → Exec E S B) → Exec E S B
continue (ok a) f s = f a s
continue (err e) f s = (err e, s)

unfoldable pub pure : {E S A : Type 0} → A → Exec E S A
pure a s = (ok a, s)

unfoldable pub raise : {E S A : Type 0} → E → Exec E S A
raise e s = (err e, s)

unfoldable pub lift : {E S A : Type 0} → Result E A → Exec E S A
lift r s = (r, s)

infixl 5 ◌>>=◌ ◌>>◌
-- Opening this opens `pure`, `raise` and `lift` too.
unfoldable pub ◌>>=◌ : {E S A B : Type 0} → Exec E S A → (A → Exec E S B) → Exec E S B
unfolding pure raise lift
◌>>=◌ m f s = continue (m s).0 f (m s).1

abbrev pub ◌>>◌ : {E S B : Type 0} → Exec E S (Unit {0}) → Exec E S B → Exec E S B
m >> k = m >>= λ _. k

pub Result-cases :
    {E A : Type 0} (r : Result E A) → ((a : A) × (r ≡ ok a)) ⊎ ((e : E) × (r ≡ err e))
Result-cases (ok a) = inl (a, refl)
Result-cases (err e) = inr (e, refl)

-- An action that returned goes on with what it returned.
pub >>=-of_ok :
    {E S A B : Type 0} (m : Exec E S A) (f : A → Exec E S B) (s : S) (a : A) (t : S)
    → m s ≡ (ok a, t)
    → (m >>= f) s ≡ f a t
unfolding ◌>>=◌
>>=-of_ok m f s a t e = ap (λ (p : Result _ _ × _). continue p.0 f p.1) e

-- Inversion of an action that returned.
pub >>=-eq-ok :
    {E S A B : Type 0} (m : Exec E S A) (f : A → Exec E S B) (s : S) (b : B) (s' : S)
    → (m >>= f) s ≡ (ok b, s')
    → (a : A) × (t : S) × (m s ≡ (ok a, t)) × (f a t ≡ (ok b, s'))
unfolding ◌>>=◌
>>=-eq-ok m f s b s' h = from_parts (m s).0 (m s).1 refl h
  where
    from_parts :
        (r : Result _ _) (t : _)
        → m s ≡ (r, t)
        → continue r f t ≡ (ok b, s')
        → (a : _) × (u : _) × (m s ≡ (ok a, u)) × (f a u ≡ (ok b, s'))
    from_parts (ok a) t e k = (a, t, e, k)
    from_parts (err x) t e k = absurd (cc)

abbrev pub rescue : {E S A : Type 0} → Result E A → (E → Exec E S A) → Exec E S A
rescue (ok a) h s = (ok a, s)
rescue (err e) h s = h e s

-- `try` and `catch`: what was written before the throw stays written.
unfoldable pub recover : {E S A : Type 0} → Exec E S A → (E → Exec E S A) → Exec E S A
recover m h s = rescue (m s).0 h (m s).1

pub ok-injective : {E A : Type 0} {a b : A} → ◌≡◌ {A = Result E A} (ok a) (ok b) → a ≡ b
ok-injective h = cc
