-- ===== src/Base/Action.antt =====
-- A service method as an action: it reads and writes a state `S`, and returns or throws. What was
-- written before a throw stays written.
use mathlib.Core.Path.{◌≡◌}
use mathlib.Core.Bool.{Bool}
use mathlib.Core.Option.{Option, none, some}
use madinaty_ai_core_mesh.Base.Tests.{if◌then◌else◌}

pub data Result (E A : Type 0) : Type 0 where
  ok : A → Result E A
  err : E → Result E A

abbrev pub Action : Type 0 → Type 0 → Type 0 → Type 0
Action E S A = S → Result E A × S

module _ {E S A : Type 0} where
  abbrev pub pure : A → Action E S A
  pure a s = (ok a, s)

  abbrev pub throw : E → Action E S A
  throw e s = (err e, s)

  abbrev pub gets : (S → A) → Action E S A
  gets f s = (ok (f s), s)

  -- `if (!row) throw e`
  abbrev pub or_throw : Option A → E → Action E S A
  or_throw none e s = (err e, s)
  or_throw (some a) _ s = (ok a, s)

infixl 5 ◌>>=◌ ◌>>◌
abbrev pub ◌>>=◌ : {E S A B : Type 0} → Action E S A → (A → Action E S B) → Action E S B
◌>>=◌ m f s = let (r, s') = m s in elim r [ ok a ↦ f a s' | err e ↦ (err e, s') ]

abbrev pub ◌>>◌ : {E S A B : Type 0} → Action E S A → Action E S B → Action E S B
m >> k = m >>= λ _. k

module _ {E S : Type 0} where
  -- `if (c) throw e`
  abbrev pub throw_if : Bool → E → Action E S (Unit {0})
  throw_if c e s = (if c then err e else ok tt, s)

  abbrev pub modify : (S → S) → Action E S (Unit {0})
  modify f s = (ok tt, f s)

-- The states before and after: a call that threw changed nothing.
abbrev pub IsAtomic : {E S A : Type 0} → S → Result E A × S → Type 0
IsAtomic s (ok _, s') = Unit {0}
IsAtomic s (err _, s') = s' ≡ s
