-- ===== src/Composition/JobHead/Validity/Parser.antt =====
-- The parser of job heads accepts exactly the valid heads.
use text.Mathlib.TextEquality.{eq_iff}
use mathlib.Core.Path.{subst}
use flowdoc_vnext_backend.Common.{
  ◌≡◌, ◌≢◌, refl, sym, ap, ◌∙◌, ◌↔◌, true, ◌==◌, text_eq, number_eq, String, Option, none, some,
  Option-cases, Bool-cases, inl, inr,
}
use flowdoc_vnext_backend.Common.Text.{is_fingerprint}
use flowdoc_vnext_backend.PdfExport.Issue.{Digest, fingerprint}
use flowdoc_vnext_backend.Composition.Core.{
  Manifest, Cursor, OpenPage, Demand, CompositionCore, ParsesSelf,
}
use flowdoc_vnext_backend.Composition.SourcePin.{SourcePin}
use flowdoc_vnext_backend.Composition.JobHead.{
  JobFacts, JobHead, all_valid, with_state, with_demand, checked, read_facts, finalized,
  finalize_head, same_head, parse_head,
}
use flowdoc_vnext_backend.Composition.JobHead.Validity.{Holds, FactsFit, Accepted, IsValid}
use flowdoc_vnext_backend.Composition.JobHead.Validity.Conditions.{all_iff}

with_state_self :
    (core : CompositionCore) (m : Manifest) (f : JobFacts)
    → core.parse_state m f.cursor f.open_page ≡ some (f.cursor, f.open_page)
    → with_state f (core.parse_state m f.cursor f.open_page) ≡ some f
unfolding with_state
with_state_self core m f e = ap (with_state f) e

with_demand_self :
    (f : JobFacts) (o : Option Demand) (parse : Demand → Option Demand)
    → f.demand ≡ o
    → Holds (λ x. parse x ≡ some x) o
    → with_demand (some f) o parse ≡ some f
unfolding with_demand
with_demand_self f none parse e h = refl
with_demand_self f (some x) parse e h =
    rw (h, with_demand) (ap (λ (z : Option Demand). some (record f { demand = z })) (sym e))

with_state-inverse :
    (core : CompositionCore) (self : ParsesSelf core) (m : Manifest) (f : JobFacts)
    (o : Option (Cursor × Option OpenPage)) (g : JobFacts)
    → core.parse_state m f.cursor f.open_page ≡ o
    → with_state f o ≡ some g
    → (g ≡ f) × (core.parse_state m f.cursor f.open_page ≡ some (f.cursor, f.open_page))
unfolding with_state
with_state-inverse core self m f none g e h = cc h
with_state-inverse core self m f (some (c, o)) g e h =
    let (c', o') = self.state_self m f.cursor c f.open_page o e in
    let made : record f { cursor = c; open_page = o } ≡ g = cc h in
    (sym made ∙ (λ i. record f { cursor = c' i; open_page = o' i }), e ∙ (λ i. some (c' i, o' i)))

with_demand-inverse :
    (core : CompositionCore) (self : ParsesSelf core) (f : JobFacts) (o : Option Demand)
    (g : JobFacts)
    → f.demand ≡ o
    → with_demand (some f) o core.parse_demand ≡ some g
    → (g ≡ f) × Holds (λ x. core.parse_demand x ≡ some x) o
unfolding with_demand
with_demand-inverse core self f none g e h = (cc h, tt)
with_demand-inverse core self f (some x) g e h = elim (Option-cases (core.parse_demand x)) [
  | inl t ↦ cc (rw (t, with_demand) at h)
  | inr (y, t) ↦
      let made : some (record f { demand = some y }) ≡ some g = rw (t, with_demand) at h in
      let same = self.demand_self x y t in
      let value : record f { demand = some y } ≡ g = cc made in
      (
        sym value
            ∙ ap (λ (z : Demand). record f { demand = some z }) same
            ∙ ap (λ (z : Option Demand). record f { demand = z }) (sym e),
        t ∙ ap (λ (z : Demand). some z) same,
      )
]

module _ (core : CompositionCore) (pin : SourcePin) (m : Manifest) where
  pub read_facts-Fits :
      (f : JobFacts) → Accepted core m f → FactsFit pin m f → read_facts core pin m f ≡ some f
  unfolding read_facts checked
  read_facts-Fits f a v =
      ap (λ z. checked pin m (with_demand z f.demand core.parse_demand))
        (with_state_self core m f a.state)
      ∙ ap (checked pin m) (with_demand_self f f.demand core.parse_demand refl a.demand)
      ∙ rw ((all_iff pin m f).1 v) refl

  checked-inverse :
      (o : Option JobFacts) (g : JobFacts)
      → checked pin m o ≡ some g
      → (o ≡ some g) × FactsFit pin m g
  unfolding checked
  checked-inverse none g e = cc e
  checked-inverse (some f) g e = elim (Bool-cases (all_valid pin m f)) [
    | inl t ↦
        let one : f ≡ g = cc (rw (t, checked) at e) in
        (ap (λ (z : JobFacts). some z) one, subst (FactsFit pin m) one ((all_iff pin m f).0 t))
    | inr t ↦ cc (rw (t, checked) at e)
  ]

  with_demand-none :
      (o : Option JobFacts) (d : Option Demand) (g : JobFacts)
      → with_demand o d core.parse_demand ≡ some g
      → (f : JobFacts) × (o ≡ some f)
  unfolding with_demand
  with_demand-none none d g e = cc e
  with_demand-none (some f) d g e = (f, refl)

  -- What is read is what was given, and fits.
  pub read_facts-inverse :
      (self : ParsesSelf core) (f g : JobFacts)
      → read_facts core pin m f ≡ some g
      → (g ≡ f) × Accepted core m g × FactsFit pin m g
  unfolding read_facts
  read_facts-inverse self f g e =
      let state = with_state f (core.parse_state m f.cursor f.open_page) in
      let (whole, fits) = checked-inverse (with_demand state f.demand core.parse_demand) g e in
      let (f', at) = with_demand-none state f.demand g whole in
      let (same, accepted) =
        with_state-inverse core self m f (core.parse_state m f.cursor f.open_page) f' refl at in
      let read : with_demand (some f) f.demand core.parse_demand ≡ some g =
        ap (λ z. with_demand z f.demand core.parse_demand)
          (ap (λ (z : JobFacts). some z) (sym same) ∙ sym at)
        ∙ whole in
      let (same', demand) = with_demand-inverse core self f f.demand g refl read in
      (
        same',
        subst (Accepted core m) (sym same') (record { state = accepted; demand = demand }),
        fits,
      )

module _ (core : CompositionCore) ⦃d : Digest JobFacts⦄ (pin : SourcePin) (m : Manifest) where
  -- A head that is finalized is that of the given facts, and is valid.
  pub finalize_head-inverse :
      (self : ParsesSelf core) (f : JobFacts) (h : JobHead)
      → finalize_head core pin m f ≡ some h
      → (h.facts ≡ f) × IsValid core pin m h
  unfolding finalize_head
  finalize_head-inverse self f h e = elim (Option-cases (read_facts core pin m f)) [
    | inl t ↦ cc (rw (t, finalized) at e)
    | inr (g, t) ↦
        let made : record { facts = g; fingerprint = fingerprint g } ≡ h =
          cc (rw (t, finalized) at e) in
        let (same, accepted, fits) = read_facts-inverse core pin m self f g t in
        subst (λ (z : JobHead). (z.facts ≡ f) × IsValid core pin m z) made
          (same, record { facts = fits; accepted = accepted; matches = refl })
  ]

  -- Facts that fit are finalized.
  pub finalize_head-Fits :
      (f : JobFacts)
      → Accepted core m f
      → FactsFit pin m f
      → finalize_head core pin m f ≡ some (record { facts = f; fingerprint = fingerprint f })
  unfolding finalize_head finalized
  finalize_head-Fits f a v = ap finalized (read_facts-Fits core pin m f a v)

  same_head-same :
      (h g k : JobHead)
      → k.facts ≡ h.facts
      → IsValid core pin m k
      → same_head h.fingerprint (some k) ≡ some g
      → (g ≡ h) × IsValid core pin m g
  unfolding same_head
  same_head-same h g k facts valid e = elim (Bool-cases (k.fingerprint == h.fingerprint)) [
    | inr t ↦ cc (rw (t, same_head) at e)
    | inl t ↦
        let one : k ≡ g = cc (rw (t, same_head) at e) in
        let text = (eq_iff k.fingerprint h.fingerprint).0 t in
        (
          sym one ∙ (λ i. record { facts = facts i; fingerprint = text i }),
          subst (IsValid core pin m) one valid,
        )
  ]

  same_head-none :
      (h g : JobHead)
      → finalize_head core pin m h.facts ≡ none
      → same_head h.fingerprint (finalize_head core pin m h.facts) ≢ some g
  unfolding same_head
  same_head-none h g t e =
      let read : none ≡ some g = sym (ap (same_head h.fingerprint) t) ∙ e in cc read

  same_head-inverse :
      (self : ParsesSelf core) (h g : JobHead)
      → same_head h.fingerprint (finalized (read_facts core pin m h.facts)) ≡ some g
      → (g ≡ h) × IsValid core pin m g
  unfolding same_head finalize_head
  same_head-inverse self h g e = elim (Option-cases (finalize_head core pin m h.facts)) [
    | inl t ↦ absurd (same_head-none h g t e)
    | inr (k, t) ↦
        let (facts, valid) = finalize_head-inverse self h.facts k t in
        let read : same_head h.fingerprint (some k) ≡ some g =
          ap (same_head h.fingerprint) (sym t) ∙ e in
        same_head-same h g k facts valid read
  ]

  -- What the parser gives out is what it was given, and is valid.
  pub parse_head-inverse :
      (self : ParsesSelf core) (h g : JobHead)
      → parse_head core pin m h ≡ some g
      → (g ≡ h) × IsValid core pin m g
  unfolding parse_head
  parse_head-inverse self h g e = elim (Bool-cases (is_fingerprint h.fingerprint)) [
    | inr t ↦ cc (rw (t, parse_head) at e)
    | inl t ↦ same_head-inverse self h g (rw (t, parse_head) at e)
  ]

  IsValid-parse_head : (h : JobHead) → IsValid core pin m h → parse_head core pin m h ≡ some h
  unfolding parse_head same_head finalized
  IsValid-parse_head h v =
      let form : is_fingerprint h.fingerprint ≡ true =
        ap is_fingerprint v.matches ∙ d.digest-is_fingerprint h.facts in
      let same : (fingerprint h.facts == h.fingerprint) ≡ true =
        (eq_iff (fingerprint h.facts) h.fingerprint).1 (sym v.matches) in
      let made : same_head h.fingerprint
            (some (record { facts = h.facts; fingerprint = fingerprint h.facts }))
          ≡ some h =
        rw (same, same_head)
          (ap (λ (s : String). some (record { facts = h.facts; fingerprint = s }))
            (sym v.matches)) in
      rw (form, parse_head)
        (ap (λ z. same_head h.fingerprint (finalized z))
            (read_facts-Fits core pin m h.facts v.accepted v.facts)
          ∙ made)

  -- A head is parsed, to itself, exactly when it is valid.
  pub parse_head-AcceptsValid :
      ParsesSelf core → (h : JobHead) → (parse_head core pin m h ≡ some h) ↔ IsValid core pin m h
  parse_head-AcceptsValid self h = (λ e. (parse_head-inverse self h h e).1, IsValid-parse_head h)
