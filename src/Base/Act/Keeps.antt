-- ===== src/Base/Act/Keeps.antt =====
-- What a method leaves true of its object, however it ends: a rule for each way to build one.
use mathlib.Core.Bool.{Bool, true, false}
use rin_windows.Base.Tests.{if◌then◌else◌}
use rin_windows.Base.Results.{Result, ok, err}
use rin_windows.Base.Act.{Act, pure, lift, gets, modify, resume, ◌>>=◌}

pub record Keeps {S A : Type 0} (P : S → Type 0) (m : Act S A) : Type 0 where
  pub after : (s : S) → P s → P (m s).1

module _ {S A : Type 0} {P : S → Type 0} where
  pub pure-Keeps : (a : A) → Keeps P (pure a)
  pure-Keeps a = record { after = λ s h. h }

  pub lift-Keeps : (r : Result A) → Keeps P (lift r)
  lift-Keeps r = record { after = λ s h. h }

  pub gets-Keeps : (f : S → A) → Keeps P (gets f)
  gets-Keeps f = record { after = λ s h. h }

  pub if-Keeps : (b : Bool) (m n : Act S A) → Keeps P m → Keeps P n → Keeps P (if b then m else n)
  if-Keeps true m n p q = p
  if-Keeps false m n p q = q

pub modify-Keeps :
    {S : Type 0} {P : S → Type 0} (f : S → S) → ((s : S) → P s → P (f s)) → Keeps P (modify f)
modify-Keeps f h = record { after = h }

module _ {S A B : Type 0} {P : S → Type 0} where
  resume-Keeps :
      (r : Result A × S) (f : A → Act S B) → P r.1 → ((a : A) → Keeps P (f a)) → P (resume r f).1
  resume-Keeps (ok a, s) f h rest = (rest a).after s h
  resume-Keeps (err e, s) f h rest = h

  pub bind-Keeps :
      (m : Act S A) (f : A → Act S B) → Keeps P m → ((a : A) → Keeps P (f a)) → Keeps P (m >>= f)
  bind-Keeps m f first rest = record { after = λ s h. resume-Keeps (m s) f (first.after s h) rest }

pub ruleset keeps_rules = (pure-Keeps, lift-Keeps, gets-Keeps, if-Keeps, bind-Keeps)
