-- ===== src/Common/Dict.antt =====
-- JavaScript's `Map`, of which the program uses only `get` and `set`: a function of the key.
use mathlib.Core.Path.{◌≡◌, sym, ap, subst₂}
use mathlib.Core.Logic.{◌≢◌, inl, inr}
use mathlib.Core.Option.{Option, none, some}
use native.Mathlib.Omega.{arith}
use flowdoc_vnext_backend.Common.Tests.{Bool-cases, StrictEq, ◌==◌, if◌then◌else◌}

pub record Dict {ℓ κ} (K : Type ℓ) (V : Type κ) : Type (ℓ ⊔ κ) where
  pub get : K → Option V

abbrev pub empty {ℓ κ} : {K : Type ℓ} {V : Type κ} → Dict K V
empty = record { get = λ k. none }

module _ {ℓ κ} {K : Type ℓ} {V : Type κ} ⦃e : StrictEq K⦄ where
  unfoldable pub set : Dict K V → K → V → Dict K V
  set d k v = record { get = λ j. if j == k then some v else d.get j }

  pub get-set_self : (d : Dict K V) (k : K) (v : V) → (set d k v).get k ≡ some v
  unfolding set
  get-set_self d k v = ground (arith, e.same_iff k k)

  pub get-set_ne : (d : Dict K V) (k : K) (v : V) (j : K) → j ≢ k → (set d k v).get j ≡ d.get j
  unfolding set
  get-set_ne d k v j h = ground (arith, e.same_iff j k)

  -- A write under a key that held nothing loses nothing.
  pub get-set_fresh :
      (d : Dict K V) (k : K) (v : V) (j : K) {w : V}
      → d.get k ≡ none
      → d.get j ≡ some w
      → (set d k v).get j ≡ some w
  unfolding set
  get-set_fresh d k v j absent held = elim (Bool-cases (j == k)) [
    | inl same_key ↦
        let same : d.get j ≡ d.get k = ap d.get ((e.same_iff j k).0 same_key) in
        cc (same, absent, held)
    | inr other ↦ rw other held
  ]

-- A write of what fits leaves only what fits.
pub set-fits {ℓ} :
    {K V : Type 0} ⦃e : StrictEq K⦄ (P : K → V → Type ℓ) (d : Dict K V) (k : K) (v : V)
    → P k v
    → ((j : K) (w : V) → d.get j ≡ some w → P j w)
    → (j : K) (w : V) → (set d k v).get j ≡ some w
    → P j w
unfolding set
set-fits ⦃e⦄ P d k v new old j w held = elim (Bool-cases (j == k)) [
  | inl same ↦
      let written : some v ≡ some w = rw same at held in
      let value : v ≡ w = cc written in subst₂ P (sym ((e.same_iff j k).0 same)) value new
  | inr other ↦ old j w (rw other at held)
]
