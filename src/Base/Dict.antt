-- ===== src/Base/Dict.antt =====
-- A Go map with string keys, as far as the program can tell: reading a key, writing a key. Its
-- iteration order is not modelled; the representation is private, and clients have `dict_laws`.
use Prim.Native.String.{String}
use mathlib.Core.Path.{◌≡◌, refl}
use mathlib.Core.Option.{Option, none, some}
use mathlib.Core.List.{List, [], ◌∷◌}
use native.Mathlib.Omega.{arith}
use text.Mathlib.Text.{◌==◌ as str_eq}
use text.Mathlib.TextEquality.{eq_iff}
use webguard_instance.Base.Tests.{if◌then◌else◌}

module _ {ℓ} {V : Type ℓ} where
  find : String → List (String × V) → Option V
  find k [] = none
  find k ((j, v) ∷ m) = if str_eq j k then some v else find k m

  write : String → V → List (String × V) → List (String × V)
  write k v [] = (k, v) ∷ []
  write k v ((j, w) ∷ m) = if str_eq j k then (j, v) ∷ m else (j, w) ∷ write k v m

  find-write :
      (k j : String) (v : V) (m : List (String × V))
      → find j (write k v m) ≡ (if str_eq k j then some v else find j m)
  unfolding find write
  find-write k j v [] = refl
  find-write k j v ((i, w) ∷ m) =
      ground (arith, eq_iff k j, eq_iff i k, eq_iff i j, find-write k j v m)

pub record Dict {ℓ} (V : Type ℓ) : Type ℓ where
  entries : List (String × V)

module _ {ℓ} {V : Type ℓ} where
  unfoldable pub empty : Dict V
  empty = record { entries = [] }

  unfoldable pub get : Dict V → String → Option V
  unfolding find
  get d k = find k d.entries

  unfoldable pub put : Dict V → String → V → Dict V
  unfolding write
  put d k v = record { entries = write k v d.entries }

  pub get-empty : (k : String) → get empty k ≡ none
  unfolding get empty find
  get-empty k = refl

  pub get-put :
      (d : Dict V) (k j : String) (v : V)
      → get (put d k v) j ≡ (if str_eq k j then some v else get d j)
  unfolding get put
  get-put d k j v = find-write k j v d.entries

pub ruleset dict_laws = (get-empty, get-put)
