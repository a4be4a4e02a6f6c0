-- ===== src/Base/Leaves.antt =====
-- What a method leaves behind that starts in a state with some property and returns a value.
use mathlib.Core.Bool.{Bool, true, false}
use mathlib.Core.Path.{◌≡◌, refl}
use workspace_gateway.Base.Exec.{Exec, ◌>>=◌, ◌>>◌, pure, raise, require, attempt, resume, Keeps}
use workspace_gateway.Base.Tests.{Result, ok, err, if◌then◌else◌}

-- What holds of a value and the state behind it; nothing is said of an error.
abbrev pub After {ℓ} : {E S A : Type ℓ} → (A → S → Type ℓ) → Result E A → S → Type ℓ
After Q (ok a) s = Q a s
After Q (err e) s = Unit

-- From a state with `P`, an `action` that returns a value leaves `Q` of it and the state.
pub record Leaves {ℓ} {E S A : Type ℓ} (P : S → Type ℓ) (Q : A → S → Type ℓ) (action : Exec E S A)
    : Type ℓ where
  pub holds : (before : S) → P before → After Q (action before).0 (action before).1

module _ {ℓ} {E S A : Type ℓ} {P : S → Type ℓ} {Q : A → S → Type ℓ} where
  pub Leaves-pure : (value : A) → ((s : S) → P s → Q value s) → Leaves P Q (pure {E = E} value)
  Leaves-pure value q = record { holds = q }

  pub Leaves-raise : (e : E) → Leaves P Q (raise e)
  Leaves-raise e = record { holds = λ _ _. tt }

  pub Leaves-if :
      (test : Bool) (first second : Exec E S A)
      → (test ≡ true → Leaves P Q first)
      → (test ≡ false → Leaves P Q second)
      → Leaves P Q (if test then first else second)
  Leaves-if true first second f g = f refl
  Leaves-if false first second f g = g refl

pub After-of {ℓ} :
    {E S A : Type ℓ} (Q : A → S → Type ℓ) (outcome : Result E A) (s : S)
    → ((a : A) → Q a s)
    → After Q outcome s
After-of Q (ok a) s f = f a
After-of Q (err e) s f = tt

module _ {ℓ} {E S A : Type ℓ} {P : S → Type ℓ} where
  pub Leaves-of_Keeps : (action : Exec E S A) → Keeps P action → Leaves P (λ _. P) action
  Leaves-of_Keeps action k = record {
    holds = λ s p. After-of (λ _. P) (action s).0 (action s).1 (λ _. k.at s p);
  }

module _ {ℓ} {E S A : Type ℓ} {P : S → Type ℓ} where
  -- What a call leaves where its error is looked at.
  pub Leaves-attempt :
      (Q : A → S → Type ℓ) (action : Exec E S A)
      → Leaves P Q action
      → Leaves P (After Q) (attempt action)
  Leaves-attempt Q action leaves = record { holds = leaves.holds }

module _ {ℓ} {E S A B : Type ℓ} where
  resume-Leaves :
      (R : A → S → Type ℓ) (Q : B → S → Type ℓ) (outcome : Result E A) (rest : A → Exec E S B)
      → ((value : A) → Leaves (R value) Q (rest value))
      → (after : S) → After R outcome after
      → After Q (resume outcome rest after).0 (resume outcome rest after).1
  resume-Leaves R Q (ok value) rest next after r = (next value).holds after r
  resume-Leaves R Q (err e) rest next after r = tt

module _ {ℓ} {E S A B : Type ℓ} {P : S → Type ℓ} where
  -- What follows starts where the call ends.
  pub Leaves-bind :
      (R : A → S → Type ℓ) (Q : B → S → Type ℓ) (first : Exec E S A) (rest : A → Exec E S B)
      → Leaves P R first
      → ((value : A) → Leaves (R value) Q (rest value))
      → Leaves P Q (first >>= rest)
  unfolding ◌>>=◌
  Leaves-bind R Q first rest l next = record {
    holds = λ s p. resume-Leaves R Q (first s).0 rest next (first s).1 (l.holds s p);
  }

  -- A call that keeps what holds before it.
  pub Leaves-behind :
      (Q : B → S → Type ℓ) (first : Exec E S A) (rest : A → Exec E S B)
      → Keeps P first
      → ((value : A) → Leaves P Q (rest value))
      → Leaves P Q (first >>= rest)
  Leaves-behind Q first rest k next =
      Leaves-bind (λ _. P) Q first rest (Leaves-of_Keeps first k) next

module _ {ℓ} {E S A : Type ℓ} where
  After-with :
      (K : S → Type ℓ) (Q : A → S → Type ℓ) (r : Result E A) (s : S)
      → K s
      → After Q r s
      → After (λ a s. K s × Q a s) r s
  After-with K Q (ok a) s k q = (k, q)
  After-with K Q (err e) s k q = tt

  After-weaken :
      (Q R : A → S → Type ℓ) (r : Result E A) (s : S)
      → ((a : A) (s : S) → Q a s → R a s)
      → After Q r s
      → After R r s
  After-weaken Q R (ok a) s f q = f a s q
  After-weaken Q R (err e) s f q = tt

module _ {ℓ} {E S A : Type ℓ} {P : S → Type ℓ} where
  -- Beside what it leaves, what the call keeps.
  pub Leaves-with :
      (K : S → Type ℓ) (Q : A → S → Type ℓ) (action : Exec E S A)
      → Keeps K action
      → Leaves P Q action
      → Leaves (λ s. K s × P s) (λ a s. K s × Q a s) action
  Leaves-with K Q action keeps leaves = record {
    holds = λ s (k, p). After-with K Q (action s).0 (action s).1 (keeps.at s k) (leaves.holds s p);
  }

  pub Leaves-weaken :
      (O : S → Type ℓ) (Q R : A → S → Type ℓ) (action : Exec E S A)
      → ((s : S) → O s → P s)
      → ((a : A) (s : S) → Q a s → R a s)
      → Leaves P Q action
      → Leaves O R action
  Leaves-weaken O Q R action g f leaves = record {
    holds = λ s o. After-weaken Q R (action s).0 (action s).1 f (leaves.holds s (g s o));
  }

module _ {E S B : Type 0} {P : S → Type 0} where
  pub Leaves-require :
      (b : Bool) (e : E) (Q : B → S → Type 0) (k : Exec E S B)
      → Leaves P Q k
      → Leaves P Q (require b e >> k)
  unfolding ◌>>=◌
  Leaves-require true e Q k l = record { holds = λ s p. l.holds s p }
  Leaves-require false e Q k l = record { holds = λ s p. tt }

module _ {ℓ} {E S A B : Type ℓ} {P : S → Type ℓ} where
  resume-Keeps :
      (F : A → Type ℓ) (r : Result E A) (rest : A → Exec E S B)
      → ((a : A) → F a → Keeps P (rest a))
      → (s : S) → P s
      → After (λ a _. F a) r s
      → P (resume r rest s).1
  resume-Keeps F (ok a) rest next s p f = (next a f).at s p
  resume-Keeps F (err e) rest next s p f = p

  -- What follows keeps a property by what the call has made sure of.
  pub Keeps-given :
      (F : A → Type ℓ) (first : Exec E S A) (rest : A → Exec E S B)
      → Keeps P first
      → Leaves P (λ a _. F a) first
      → ((a : A) → F a → Keeps P (rest a))
      → Keeps P (first >>= rest)
  unfolding ◌>>=◌
  Keeps-given F first rest keeps leaves next = record {
    at = λ s p. resume-Keeps F (first s).0 rest next (first s).1 (keeps.at s p) (leaves.holds s p);
  }
