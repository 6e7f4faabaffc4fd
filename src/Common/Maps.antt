-- ===== src/Common/Maps.antt =====
-- A Go map with text keys as a function of the key, which has no order.
use Prim.Native.String.{String}
use mathlib.Core.Path.{◌≡◌, fun_ext}
use mathlib.Core.Logic.{◌≢◌}
use mathlib.Core.Bool.{false}
use native.Mathlib.Omega.{arith}
use text.Mathlib.Text.{◌==◌ as str_eq}
use text.Mathlib.TextEquality.{eq_iff}
use text.Mathlib.TextPositions.{eq_refl}
use api_gateway.Common.Tests.{if◌then◌else◌}

pub str_ne : (s t : String) → s ≢ t → str_eq s t ≡ false
str_ne s t h = ground (arith, eq_iff s t)

module _ {ℓ} {V : Type ℓ} where
  -- `m[k] = v`
  abbrev pub assign : (String → V) → String → V → String → V
  assign m k v j = if str_eq k j then v else m j

  pub assign_self : (m : String → V) (k : String) (v : V) → assign m k v k ≡ v
  assign_self m k v = rw (eq_refl k)

  pub assign_ne : (m : String → V) (k j : String) (v : V) → k ≢ j → assign m k v j ≡ m j
  assign_ne m k j v h = ground (arith, eq_iff k j)

  -- Writes to two keys commute.
  pub assign_comm :
      (m : String → V) (k j : String) (v w : V)
      → k ≢ j
      → assign (assign m k v) j w ≡ assign (assign m j w) k v
  assign_comm m k j v w h = fun_ext λ i. ground (arith, eq_iff k i, eq_iff j i, h)
