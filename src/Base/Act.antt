-- ===== src/Base/Act.antt =====
-- Methods that change an object and may throw. What was written before a throw stays written.
pub mod Keeps
use rin_windows.Base.Results.{Result, ok, err}

abbrev pub Act {ℓ} : Type ℓ → Type ℓ → Type ℓ
Act S A = S → Result A × S

module _ {ℓ} {S A : Type ℓ} where
  abbrev pub pure : A → Act S A
  pure a s = (ok a, s)

  abbrev pub lift : Result A → Act S A
  lift r s = (r, s)

  abbrev pub gets : (S → A) → Act S A
  gets f s = (ok (f s), s)

module _ {ℓ} {S A B : Type ℓ} where
  abbrev pub resume : Result A × S → (A → Act S B) → Result B × S
  resume (ok a, s) f = f a s
  resume (err e, s) f = (err e, s)

  infixl 5 ◌>>=◌
  abbrev pub ◌>>=◌ : Act S A → (A → Act S B) → Act S B
  ◌>>=◌ m f s = resume (m s) f

abbrev pub modify : {S : Type 0} → (S → S) → Act S (Unit {0})
modify f s = (ok tt, f s)

infixl 5 ◌>>◌
abbrev pub ◌>>◌ : {S B : Type 0} → Act S (Unit {0}) → Act S B → Act S B
m >> n = m >>= λ _. n
