-- ===== src/Common/Dict.antt =====
-- A Python dict as an association list in insertion order, over keys with a Boolean equality.
use Prim.Native.Nat.{ℕ}
use mathlib.Core.Path.{◌≡◌, refl}
use mathlib.Core.Bool.{Bool, ◌&&◌}
use mathlib.Core.Option.{Option, none, some}
use mathlib.Core.List.{List, [], ◌∷◌}
use native.Mathlib.Omega.{arith}
use portfolio_cv_project.Common.Tests.{◌==◌, if◌then◌else◌}

-- A (tractor, station) pair as a key.
abbrev pub same_pair : ℕ × ℕ → ℕ × ℕ → Bool
same_pair p q = p.0 == q.0 && p.1 == q.1

module _ {ℓ} {V : Type ℓ} where
  abbrev pub get_item : ℕ × ℕ → List ((ℕ × ℕ) × V) → Option V
  get_item k [] = none
  get_item k ((j, v) ∷ d) = if same_pair j k then some v else get_item k d

  -- `d[k] = v`: an old key keeps its place, a new one goes to the end.
  abbrev pub set_item : ℕ × ℕ → V → List ((ℕ × ℕ) × V) → List ((ℕ × ℕ) × V)
  set_item k v [] = (k, v) ∷ []
  set_item k v ((j, w) ∷ d) = if same_pair j k then (j, v) ∷ d else (j, w) ∷ set_item k v d

  pub get_item-set_item :
      (k j : ℕ × ℕ) (v : V) (d : List ((ℕ × ℕ) × V))
      → get_item j (set_item k v d) ≡ (if same_pair k j then some v else get_item j d)
  get_item-set_item k j v [] = refl
  get_item-set_item k j v ((i, w) ∷ d) = ground (arith, get_item-set_item k j v d)

  pub get_item-set_item_self :
      (k : ℕ × ℕ) (v : V) (d : List ((ℕ × ℕ) × V)) → get_item k (set_item k v d) ≡ some v
  get_item-set_item_self k v d = ground (arith, get_item-set_item k k v d)
