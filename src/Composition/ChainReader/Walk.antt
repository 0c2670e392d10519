-- ===== src/Composition/ChainReader/Walk.antt =====
-- The loop that composition/compositionSchedulerChainReader.ts has twice, from the tip of a chain to its
-- start. It is recursion on fuel, with none where the fuel is not enough.
use flowdoc_vnext_backend.Common.{
  ℕ, zero, suc, String, Bool, true, false, ◌||◌, Option, none, some, List, [], ◌∷◌, ltb, ◌==◌,
  text_eq, if◌then◌else◌,
}
use flowdoc_vnext_backend.Composition.SourcePin.{ContentRef}
use flowdoc_vnext_backend.Composition.Transition.{count_all}

abbrev pub push {ℓ} : {A : Type ℓ} → List A → A → List A
push [] a = a ∷ []
push (x ∷ xs) a = x ∷ push xs a

abbrev pub has : List String → String → Bool
has [] t = false
has (s ∷ ss) t = s == t || has ss t

-- What a loop has read, the oldest first, with the references, and whether nothing was wrong.
pub record Walked (A : Type 0) : Type 0 where
  pub items : List A
  pub refs : List ContentRef
  pub clean : Bool

-- What one turn of a loop finds.
pub data Turn (A : Type 0) : Type 0 where
  broken : Turn A
  read_one : A → ContentRef → Turn A

abbrev pub turn_of : {A : Type 0} → Option (A × ContentRef) → Turn A
turn_of none = broken
turn_of (some (a, r)) = read_one a r

-- One turn, for the record of a fingerprint: a fingerprint seen before and more items than the limit
-- break the loop.
unfoldable pub turn :
    {A : Type 0} → (String → Option (A × ContentRef)) → ℕ → String → List String → List A → Turn A
turn read limit t seen items =
    if has seen t || ltb limit (count_all items) then broken else turn_of (read t)

-- The loop, from the fingerprint of the tip back to the record that has none before it.
unfoldable pub walk :
    {A : Type 0}
    → (String → Option (A × ContentRef))
    → (A → Option String)
    → ℕ
    → ℕ
    → Option String
    → List String
    → List A
    → List ContentRef
    → Option (Walked A)
unfolding turn
walk read previous limit fuel none seen items refs =
    some (record { items = items; refs = refs; clean = true })
walk read previous limit zero (some t) seen items refs = none
walk read previous limit (suc fuel) (some t) seen items refs = elim (turn read limit t seen items) [
  | broken ↦ some (record { items = items; refs = refs; clean = false })
  | read_one a r ↦ walk read previous limit fuel (previous a) (t ∷ seen) (a ∷ items) (push refs r)
]
