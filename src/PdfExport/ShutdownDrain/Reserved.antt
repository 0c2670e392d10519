-- ===== src/PdfExport/ShutdownDrain/Reserved.antt =====
-- JavaScript's `Set` of texts, in its order of insertion, and `[...set].sort()`, which compares the
-- UTF-16 units (both in pdfExport/pdfExportShutdownDrain.ts).
use Prim.Native.Char.{code}
use Prim.Native.Nat.{◌/◌, ◌%◌}
use flowdoc_vnext_backend.Common.{
  ℕ, suc, ◌+◌, ◌-◌, String, ◌≡◌, refl, ◌∙◌, inl, inr, Bool, true, false, not, ◌||◌, ◌&&◌, List, [],
  ◌∷◌, ◌==◌, text_eq, number_eq, beq_refl, if◌then◌else◌, ltb, arith, Bool-cases, ap,
}

abbrev pub IdSet : Type 0
IdSet = List String

abbrev pub has : IdSet → String → Bool
has [] x = false
has (y ∷ ys) x = (x == y) || has ys x

abbrev pub size : IdSet → ℕ
size [] = 0
size (y ∷ ys) = suc (size ys)

-- A new text goes to the end.
unfoldable pub add : IdSet → String → IdSet
add [] x = x ∷ []
add (y ∷ ys) x = let rest = add ys x in if x == y then y ∷ ys else y ∷ rest

unfoldable pub add_each : IdSet → List String → IdSet
unfolding add
add_each s [] = s
add_each s (x ∷ xs) = add_each (add s x) xs

unfoldable pub delete : IdSet → String → IdSet
delete [] x = []
delete (y ∷ ys) x = let rest = delete ys x in if x == y then rest else y ∷ rest

-- A code point as one unit or a surrogate pair.
units : String → List ℕ
units String.[] = []
units (String.◌∷◌ c s) =
    if ltb (code c) 0x10000
    then code c ∷ units s
    else (0xd800 + (code c - 0x10000) / 1024) ∷ (0xdc00 + (code c - 0x10000) % 1024) ∷ units s

lex_leb : List ℕ → List ℕ → Bool
lex_leb [] ys = true
lex_leb (x ∷ xs) [] = false
lex_leb (x ∷ xs) (y ∷ ys) = let rest = lex_leb xs ys in if x == y then rest else ltb x y

unfoldable pub text_leb : String → String → Bool
unfolding units lex_leb
text_leb a b = lex_leb (units a) (units b)

unfoldable pub insert : String → List String → List String
insert x [] = x ∷ []
insert x (y ∷ ys) = let rest = insert x ys in if text_leb x y then x ∷ y ∷ ys else y ∷ rest

-- The order is total on texts, so every sorting algorithm gives this list.
unfoldable pub sort : IdSet → List String
unfolding insert
sort [] = []
sort (x ∷ xs) = insert x (sort xs)

-- No text twice.
abbrev pub Distinct : IdSet → Type 0
Distinct [] = Unit
Distinct (x ∷ xs) = (has xs x ≡ false) × Distinct xs

pub has-add : (s : IdSet) (x z : String) → has (add s x) z ≡ ((z == x) || has s z)
unfolding add
has-add [] x z = refl
has-add (y ∷ ys) x z =
    ground (arith, has-add ys x z, text_eq.same_iff x y, text_eq.same_iff z x, text_eq.same_iff z y)

pub add-Distinct : (s : IdSet) (x : String) → Distinct s → Distinct (add s x)
unfolding add
add-Distinct [] x h = (refl, tt)
add-Distinct (y ∷ ys) x h = elim (Bool-cases (x == y)) [
  | inl e ↦ rw e h
  | inr e ↦ rw e (
    ground (arith, has-add ys x y, text_eq.same_iff x y, text_eq.same_iff y x, h.0),
    add-Distinct ys x h.1,
  )
]

pub has-delete : (s : IdSet) (x z : String) → has (delete s x) z ≡ (not (z == x) && has s z)
unfolding delete
has-delete [] x z = ground arith
has-delete (y ∷ ys) x z =
    ground
      (arith, has-delete ys x z, text_eq.same_iff x y, text_eq.same_iff z x, text_eq.same_iff z y)

pub delete-absent : (s : IdSet) (x : String) → has s x ≡ false → delete s x ≡ s
unfolding delete
delete-absent [] x h = refl
delete-absent (y ∷ ys) x h =
    let other : (x == y) ≡ false = ground arith in
    rw other (ap (λ l. y ∷ l) (delete-absent ys x (ground arith)))

-- The first of distinct texts is deleted, and no other.
pub delete_head : (s : IdSet) (x : String) → Distinct (x ∷ s) → delete (x ∷ s) x ≡ s
unfolding delete
delete_head s x h = rw (beq_refl x) (delete-absent s x h.0)

pub delete-Distinct : (s : IdSet) (x : String) → Distinct s → Distinct (delete s x)
unfolding delete
delete-Distinct [] x h = tt
delete-Distinct (y ∷ ys) x h = elim (Bool-cases (x == y)) [
  | inl e ↦ rw e (delete-Distinct ys x h.1)
  | inr e ↦ rw e (ground (arith, has-delete ys x y, h.0), delete-Distinct ys x h.1)
]

pub has-add_each :
    (xs : List String) (s : IdSet) (z : String) → has (add_each s xs) z ≡ (has s z || has xs z)
unfolding add_each
has-add_each [] s z = ground arith
has-add_each (x ∷ xs) s z = ground (arith, has-add_each xs (add s x) z, has-add s x z)

has-insert :
    (x : String) (ys : List String) (z : String) → has (insert x ys) z ≡ ((z == x) || has ys z)
unfolding insert
has-insert x [] z = refl
has-insert x (y ∷ ys) z = ground (arith, has-insert x ys z)

pub has-sort : (s : IdSet) (z : String) → has (sort s) z ≡ has s z
unfolding sort
has-sort [] z = refl
has-sort (x ∷ xs) z = ground (arith, has-insert x (sort xs) z, has-sort xs z)

size-insert : (x : String) (ys : List String) → size (insert x ys) ≡ suc (size ys)
unfolding insert
size-insert x [] = refl
size-insert x (y ∷ ys) = ground (arith, size-insert x ys)

pub size-sort : (s : IdSet) → size (sort s) ≡ size s
unfolding sort
size-sort [] = refl
size-sort (x ∷ xs) = size-insert x (sort xs) ∙ ap (λ n. suc n) (size-sort xs)

lex_total : (xs ys : List ℕ) → lex_leb xs ys ≡ false → lex_leb ys xs ≡ true
unfolding lex_leb
lex_total [] ys h = cc h
lex_total (x ∷ xs) [] h = refl
lex_total (x ∷ xs) (y ∷ ys) h = ground (arith, lex_total xs ys)

text_total : (a b : String) → text_leb a b ≡ false → text_leb b a ≡ true
unfolding text_leb
text_total a b h = lex_total (units a) (units b) h

-- In the order of the UTF-16 units, neighbour by neighbour.
abbrev pub Sorted : List String → Type 0
Sorted [] = Unit
Sorted (x ∷ []) = Unit
Sorted (x ∷ y ∷ ys) = (text_leb x y ≡ true) × Sorted (y ∷ ys)

-- A sorted list that starts at or after a text stays so with one more text at or after it.
insert-Sorted_from :
    (w x : String) (ys : List String)
    → text_leb w x ≡ true
    → Sorted (w ∷ ys)
    → Sorted (w ∷ insert x ys)
unfolding insert
insert-Sorted_from w x [] le h = (le, tt)
insert-Sorted_from w x (y ∷ ys) le h = elim (Bool-cases (text_leb x y)) [
  | inl e ↦ rw e (le, (e, h.1))
  | inr e ↦ rw e (h.0, insert-Sorted_from y x ys (text_total x y e) h.1)
]

insert-Sorted : (x : String) (ys : List String) → Sorted ys → Sorted (insert x ys)
unfolding insert
insert-Sorted x [] h = tt
insert-Sorted x (y ∷ ys) h = elim (Bool-cases (text_leb x y)) [
  | inl e ↦ rw e (e, h)
  | inr e ↦ rw e (insert-Sorted_from y x ys (text_total x y e) h)
]

pub sort-Sorted : (s : IdSet) → Sorted (sort s)
unfolding sort
sort-Sorted [] = tt
sort-Sorted (x ∷ xs) = insert-Sorted x (sort xs) (sort-Sorted xs)
