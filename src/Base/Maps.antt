-- ===== src/Base/Maps.antt =====
-- Maps as association lists, by a test of equality of keys.
use mathlib.Core.Bool.{Bool}
use mathlib.Core.List.{List, [], ◌∷◌}
use mathlib.Core.Option.{Option, none, some}
use openwire.Base.Tests.{if◌then◌else◌}

module _ {K V : Type 0} (same : K → K → Bool) where
  unfoldable pub map_get : K → List (K × V) → Option V
  map_get k [] = none
  map_get k ((j, v) ∷ m) = let rest = map_get k m in if same k j then some v else rest

  unfoldable pub map_insert : K → V → List (K × V) → List (K × V)
  map_insert k v [] = (k, v) ∷ []
  map_insert k v ((j, w) ∷ m) =
      let rest = map_insert k v m in if same k j then (j, v) ∷ m else (j, w) ∷ rest

  unfoldable pub map_remove : K → List (K × V) → List (K × V)
  map_remove k [] = []
  map_remove k ((j, v) ∷ m) = let rest = map_remove k m in if same k j then rest else (j, v) ∷ rest
