-- ===== src/Base/Dict.antt =====
-- JavaScript maps as functions from keys, which is all that the code observes of them: `get`,
-- `set`, `delete`, and the removal of the entries that fail a test.
use mathlib.Core.Path.{◌≡◌, refl}
use mathlib.Core.Logic.{◌≢◌, ◌↔◌}
use mathlib.Core.Bool.{Bool, true}
use mathlib.Core.Option.{Option, none, some}
use native.Mathlib.Omega.{arith}
use madinaty_ai_core_mesh.Base.Tests.{if◌then◌else◌}

pub record Equality (K : Type 0) : Type 0 where
  pub same : K → K → Bool
  pub same_iff : (a b : K) → (same a b ≡ true) ↔ (a ≡ b)

-- An entry that passes the test.
abbrev pub filter_entry : {V : Type 0} → (V → Bool) → Option V → Option V
filter_entry p none = none
filter_entry p (some v) = if p v then some v else none

module _ {K V : Type 0} where
  unfoldable pub no_entries : K → Option V
  no_entries q = none

  unfoldable pub retain : (V → Bool) → (K → Option V) → K → Option V
  retain p d q = filter_entry p (d q)

module _ {K V : Type 0} ⦃e : Equality K⦄ where
  unfoldable pub put : K → V → (K → Option V) → K → Option V
  put k v d q = if e.same q k then some v else d q

  unfoldable pub delete : K → (K → Option V) → K → Option V
  delete k d q = if e.same q k then none else d q

  pub put_self : (k : K) (v : V) (d : K → Option V) → put k v d k ≡ some v
  unfolding put
  put_self k v d = ground (arith, (e.same_iff k k).1 refl)

  pub put_ne : (k q : K) (v : V) (d : K → Option V) → q ≢ k → put k v d q ≡ d q
  unfolding put
  put_ne k q v d ne = ground (arith, (e.same_iff q k).0)
