-- ===== src/Base/Exec.antt =====
-- Methods that change a state and may fail: what was done before a failure stays done, so the state
-- comes back beside the error too. A rule for each way to build one says which properties it keeps.
use mathlib.Core.Bool.{Bool, true, false}
use mathlib.Core.Path.{◌≡◌, refl, sym, subst, fun_ext}
use workspace_gateway.Base.Tests.{Result, ok, err, if◌then◌else◌}

abbrev pub Exec {ℓ} : Type ℓ → Type ℓ → Type ℓ → Type ℓ
Exec E S A = S → Result E A × S

module _ {ℓ} {E S A B : Type ℓ} where
  -- What follows a call, unless it failed.
  abbrev pub resume : Result E A → (A → Exec E S B) → Exec E S B
  resume (ok a) f s = f a s
  resume (err e) f s = (err e, s)

  infixl 5 ◌>>=◌ ◌>>◌
  unfoldable pub ◌>>=◌ : Exec E S A → (A → Exec E S B) → Exec E S B
  ◌>>=◌ m f s = let (r, s') = m s in resume r f s'

  abbrev pub ◌>>◌ : Exec E S A → Exec E S B → Exec E S B
  m >> k = m >>= λ _. k

module _ {ℓ} {E S A : Type ℓ} where
  abbrev pub pure : A → Exec E S A
  pure a s = (ok a, s)

  abbrev pub raise : E → Exec E S A
  raise e s = (err e, s)

  -- A failure that is swallowed, as by `_ = f()`.
  abbrev pub attempt : Exec E S A → Exec E S (Result E A)
  attempt m s = let (r, s') = m s in (ok r, s')

-- `if !b { return err }`
abbrev pub require : {E S : Type 0} → Bool → E → Exec E S (Unit {0})
require true e s = (ok tt, s)
require false e s = (err e, s)

-- The property `P` of the states holds after `action` where it held before, failure or not.
pub record Keeps {ℓ} {E S A : Type ℓ} (P : S → Type ℓ) (action : Exec E S A) : Type ℓ where
  pub at : (before : S) → P before → P (action before).1

module _ {ℓ} {E S A : Type ℓ} {P : S → Type ℓ} where
  -- Each branch may use its test.
  pub Keeps-if :
      (test : Bool) (yes_ no_ : Exec E S A)
      → (test ≡ true → Keeps P yes_)
      → (test ≡ false → Keeps P no_)
      → Keeps P (if test then yes_ else no_)
  Keeps-if true yes_ no_ on_true on_false = on_true refl
  Keeps-if false yes_ no_ on_true on_false = on_false refl

  pub Keeps-attempt : (action : Exec E S A) → Keeps P action → Keeps P (attempt action)
  Keeps-attempt action kept = record { at = λ before p. kept.at before p }

  pub Keeps-raise : (e : E) → Keeps P (raise {A = A} e)
  Keeps-raise e = record { at = λ _ p. p }

  pub Keeps-pure : (value : A) → Keeps P (pure {E = E} value)
  Keeps-pure value = record { at = λ _ p. p }

module _ {ℓ} {E S A B : Type ℓ} {P : S → Type ℓ} where
  resume-Keeps :
      (outcome : Result E A) (rest : A → Exec E S B)
      → ((value : A) → Keeps P (rest value))
      → (after : S) → P after
      → P (resume outcome rest after).1
  resume-Keeps (ok value) rest kept after p = (kept value).at after p
  resume-Keeps (err e) rest kept after p = p

  pub Keeps-bind :
      (first : Exec E S A) (rest : A → Exec E S B)
      → Keeps P first
      → ((value : A) → Keeps P (rest value))
      → Keeps P (first >>= rest)
  unfolding ◌>>=◌
  Keeps-bind first rest k kept = record {
    at = λ before p. resume-Keeps (first before).0 rest kept (first before).1 (k.at before p);
  }

module _ {E S B : Type 0} {P : S → Type 0} where
  pub Keeps-require :
      (b : Bool) (e : E) (k : Exec E S B) → (b ≡ true → Keeps P k) → Keeps P (require b e >> k)
  unfolding ◌>>=◌
  Keeps-require true e k h = record { at = λ s p. (h refl).at s p }
  Keeps-require false e k h = record { at = λ s p. p }

-- The test that ends a handler.
pub require-Keeps :
    {E S : Type 0} {P : S → Type 0} (b : Bool) (e : E) → Keeps P (require {S = S} b e)
require-Keeps true e = record { at = λ s p. p }
require-Keeps false e = record { at = λ s p. p }

pub ruleset keeps_rules = (Keeps-bind, Keeps-if, Keeps-pure, Keeps-raise, Keeps-attempt)

-- What holds of a result; nothing is said of an error.
abbrev pub OfResult {ℓ} : {E A : Type ℓ} → (A → Type ℓ) → Result E A → Type ℓ
OfResult Q (ok a) = Q a
OfResult Q (err e) = Unit

-- From a state with `P`, `action` ends in one with `P`, and what it returns has `Q`.
pub record Yields {ℓ} {E S A : Type ℓ} (P : S → Type ℓ) (Q : A → Type ℓ) (action : Exec E S A)
    : Type ℓ where
  pub run : (before : S) → P before → P (action before).1 × OfResult Q (action before).0

module _ {ℓ} {E S A : Type ℓ} {P : S → Type ℓ} {Q : A → Type ℓ} where
  pub Yields-pure : (value : A) → Q value → Yields P Q (pure {E = E} value)
  Yields-pure value q = record { run = λ before p. (p, q) }

  pub Yields-raise : (e : E) → Yields P Q (raise e)
  Yields-raise e = record { run = λ before p. (p, tt) }

module _ {ℓ} {E S A B : Type ℓ} {P : S → Type ℓ} where
  resume-Yields :
      (R : A → Type ℓ) (Q : B → Type ℓ) (outcome : Result E A) (rest : A → Exec E S B)
      → ((value : A) → R value → Yields P Q (rest value))
      → (after : S) → P after
      → OfResult R outcome
      → P (resume outcome rest after).1 × OfResult Q (resume outcome rest after).0
  resume-Yields R Q (ok value) rest next after p r = (next value r).run after p
  resume-Yields R Q (err e) rest next after p r = (p, tt)

  -- What follows may use what the call returns.
  pub Yields-bind :
      (R : A → Type ℓ) (Q : B → Type ℓ) (first : Exec E S A) (rest : A → Exec E S B)
      → Yields P R first
      → ((value : A) → R value → Yields P Q (rest value))
      → Yields P Q (first >>= rest)
  unfolding ◌>>=◌
  Yields-bind R Q first rest y next = record {
    run = λ before p.
        let (p', r) = y.run before p in
        resume-Yields R Q (first before).0 rest next (first before).1 p' r;
  }

module _ {E S B : Type 0} {P : S → Type 0} {Q : B → Type 0} where
  pub Yields-require :
      (b : Bool) (e : E) (k : Exec E S B)
      → (b ≡ true → Yields P Q k)
      → Yields P Q (require b e >> k)
  unfolding ◌>>=◌
  Yields-require true e k h = record { run = λ s p. (h refl).run s p }
  Yields-require false e k h = record { run = λ s p. (p, tt) }

module _ {ℓ} {E S A B C : Type ℓ} where
  resume_assoc :
      (f : A → Exec E S B) (k : B → Exec E S C) (r : Result E A) (s : S)
      → resume (resume r f s).0 k (resume r f s).1 ≡ resume r (λ a. f a >>= k) s
  unfolding ◌>>=◌
  resume_assoc f k (ok a) s = refl
  resume_assoc f k (err e) s = refl

  pub bind_assoc :
      (m : Exec E S A) (f : A → Exec E S B) (k : B → Exec E S C)
      → (m >>= f >>= k) ≡ (m >>= λ a. f a >>= k)
  unfolding ◌>>=◌
  bind_assoc m f k = fun_ext λ s. resume_assoc f k (m s).0 (m s).1

  -- A handler that is called first is read as its steps.
  pub Keeps-inline :
      {P : S → Type ℓ} (m : Exec E S A) (f : A → Exec E S B) (k : B → Exec E S C)
      → Keeps P (m >>= λ a. f a >>= k)
      → Keeps P (m >>= f >>= k)
  Keeps-inline {P} m f k h = subst (Keeps P) (sym (bind_assoc m f k)) h
