-- ===== src/Preprocessor/Exec.antt =====
-- Methods that update an object and may raise: what was written before a raise stays written, so
-- the object comes back beside the exception too.
use cgull.Prelude.{ℕ, Option, none, some}

pub data Resource : Type 0 where
  atoms bdd_nodes work : Resource

-- `limit_exceeded` is robdd.py's `AnalysisLimitExceeded` with its resource, limit and observed
-- value. The others are Python's: a key that a dictionary lacks, an index out of range, a failed
-- assertion, an operand of a wrong type, and a recursion deeper than the fuel of the model.
pub data Failure : Type 0 where
  limit_exceeded : Resource → ℕ → ℕ → Failure
  key_error index_error assertion_error recursion_error type_error : Failure

pub data Result {ℓ} (A : Type ℓ) : Type ℓ where
  ok : A → Result A
  raised : Failure → Result A

abbrev pub Exec : Type 0 → Type 0 → Type 0
Exec S A = S → Result A × S

module _ {S A : Type 0} where
  abbrev pub pure : A → Exec S A
  pure a s = (ok a, s)

  abbrev pub raise : Failure → Exec S A
  raise f s = (raised f, s)

  abbrev pub gets : (S → A) → Exec S A
  gets f s = (ok (f s), s)

abbrev pub update : {S : Type 0} → (S → S) → Exec S (Unit {0})
update f s = (ok tt, f s)

module _ {S A B : Type 0} where
  abbrev pub continue : Result A → (A → Exec S B) → Exec S B
  continue (ok a) f s = f a s
  continue (raised e) f s = (raised e, s)

  infixl 5 ◌>>=◌
  abbrev pub ◌>>=◌ : Exec S A → (A → Exec S B) → Exec S B
  ◌>>=◌ m f s = let (r, s') = m s in continue r f s'

infixl 5 ◌>>◌
abbrev pub ◌>>◌ : {S B : Type 0} → Exec S (Unit {0}) → Exec S B → Exec S B
m >> k = m >>= λ _. k

-- `if cached is not None: return cached`, and the code that follows.
abbrev pub or_else : {S A : Type 0} → Option A → Exec S A → Exec S A
or_else (some a) m = pure a
or_else none m = m
