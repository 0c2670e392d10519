-- ===== src/Composition/ChainReader/Pages.antt =====
-- What the pages of a loaded chain are (composition/compositionSchedulerChainReader.ts): one numbered
-- sequence, from the first page to the counts of the head.
use mathlib.Core.Path.{subst}
use flowdoc_vnext_backend.Common.{
  ◌+◌, ◌≡◌, refl, sym, ap, ◌∙◌, Bool, true, ◌&&◌, Option, none, some, List, [], ◌∷◌, ◌++◌, ◌==◌,
  text_eq, number_eq, arith, Bool-cases, Option-cases, inl, inr,
}
use flowdoc_vnext_backend.Common.Text.{is_fingerprint}
use flowdoc_vnext_backend.PdfExport.Issue.{Digest, fingerprint}
use flowdoc_vnext_backend.Composition.Core.{Manifest, ClosedPage, CompositionCore}
use flowdoc_vnext_backend.Composition.SourcePin.{SourcePin}
use flowdoc_vnext_backend.Composition.JobHead.Validity.Conditions.{same_text_iff}
use flowdoc_vnext_backend.Composition.Transition.{
  ChunkFacts, PageChunk, count_all, count_true, Running, after_page, page_continues, pages_continue,
  after_pages, before_chunk, chunk_chain_valid, record_owners_match, chunk_scalars_valid,
  chunk_bound, chunk_checked, read_chunk, parse_pages, finalized_chunk, finalize_chunk, same_chunk,
  parse_chunk,
}
use flowdoc_vnext_backend.Composition.ChainReader.{
  ChainRunning, after_chunk, chunk_continues, chunks_continue, after_chunks, pages_of,
  count_placements, count_headings,
}

-- Pages that follow a number of pages, with as many placements and headings before each as there are.
abbrev pub ArePages : Running → List ClosedPage → Type 0
ArePages r [] = Unit {0}
ArePages r (p ∷ ps) =
    (p.page_index ≡ r.pages)
    × (p.page_number ≡ r.pages + 1)
    × (p.closed_page_count_before ≡ r.pages)
    × (p.closed_placement_count_before ≡ r.placements)
    × (p.closed_heading_count_before ≡ r.headings)
    × (p.previous_prefix ≡ r.prefix)
    × ArePages
        (record {
          pages = r.pages + 1;
          placements = r.placements + count_all p.placements;
          headings = r.headings + count_true p.placements;
          prefix = some p.prefix;
        })
        ps

pub pages_continue-ArePages :
    (r : Running) (ps : List ClosedPage) → pages_continue r ps ≡ true → ArePages r ps
unfolding pages_continue page_continues after_page
pages_continue-ArePages r [] e = tt
pages_continue-ArePages r (p ∷ ps) e =
    let rest = pages_continue-ArePages (after_page r p) ps (ground arith) in
    let prefix = (same_text_iff p.previous_prefix r.prefix).0 (ground arith) in
    (ground arith, ground arith, ground arith, ground arith, ground arith, prefix, rest)

pages_continue-join :
    (r : Running) (ps qs : List ClosedPage)
    → pages_continue r ps ≡ true
    → pages_continue (after_pages r ps) qs ≡ true
    → pages_continue r (ps ++ qs) ≡ true
unfolding pages_continue after_pages
pages_continue-join r [] qs a b = b
pages_continue-join r (p ∷ ps) qs a b =
    let rest = pages_continue-join (after_page r p) ps qs (ground arith) b in ground (arith, rest)

after_pages-join :
    (r : Running) (ps qs : List ClosedPage)
    → after_pages r (ps ++ qs) ≡ after_pages (after_pages r ps) qs
unfolding after_pages
after_pages-join r [] qs = refl
after_pages-join r (p ∷ ps) qs = after_pages-join (after_page r p) ps qs

pub after_pages-counts :
    (r : Running) (ps : List ClosedPage)
    → ((after_pages r ps).pages ≡ r.pages + count_all ps)
      × ((after_pages r ps).placements ≡ r.placements + count_placements ps)
      × ((after_pages r ps).headings ≡ r.headings + count_headings ps)
unfolding after_pages after_page count_placements count_headings
after_pages-counts r [] = (omega arith, omega arith, omega arith)
after_pages-counts r (p ∷ ps) =
    let (a, b, c) = after_pages-counts (after_page r p) ps in
    (omega (arith, a), omega (arith, b), omega (arith, c))

chunk-joins :
    (r : ChainRunning) (c : PageChunk)
    → chunk_chain_valid c.facts ≡ true
    → chunk_continues r c ≡ true
    → (pages_continue r.at c.pages ≡ true) × (after_pages r.at c.pages ≡ (after_chunk r c).at)
unfolding chunk_chain_valid chunk_continues after_chunk
chunk-joins r c valid next =
    let before = before_chunk c.facts in
    let first : before.pages ≡ r.at.pages = ground arith in
    let second : before.placements ≡ r.at.placements = ground arith in
    let third : before.headings ≡ r.at.headings = ground arith in
    let fourth : before.prefix ≡ r.at.prefix =
      (same_text_iff c.closed_prefix_before r.at.prefix).0 (ground arith) in
    let same : before ≡ r.at = λ i. record {
      pages = first i;
      placements = second i;
      headings = third i;
      prefix = fourth i;
    } in
    let (a, b, d) = after_pages-counts r.at c.pages in
    let continues : pages_continue before c.pages ≡ true = ground arith in
    let last : (after_pages before c.pages).prefix ≡ some c.closed_prefix_after =
      (same_text_iff _ _).0 (ground arith) in
    let tip : (after_pages r.at c.pages).prefix ≡ some c.closed_prefix_after =
      subst (λ (z : Running). (after_pages z c.pages).prefix ≡ some c.closed_prefix_after) same
        last in
    (
      subst (λ (z : Running). pages_continue z c.pages ≡ true) same continues,
      λ i. record { pages = a i; placements = b i; headings = d i; prefix = tip i },
    )

-- A property of all items.
abbrev pub Every : {A : Type 0} → (A → Type 0) → List A → Type 0
Every P [] = Unit {0}
Every P (x ∷ xs) = P x × Every P xs

abbrev pub IsChained : PageChunk → Type 0
IsChained c = chunk_chain_valid c.facts ≡ true

pub chunks-join :
    (r : ChainRunning) (cs : List PageChunk)
    → Every IsChained cs
    → chunks_continue r cs ≡ true
    → (pages_continue r.at (pages_of cs) ≡ true)
      × (after_pages r.at (pages_of cs) ≡ (after_chunks r cs).at)
unfolding chunks_continue after_chunks pages_continue after_pages
chunks-join r [] all e = (refl, refl)
chunks-join r (c ∷ cs) (valid, all) e =
    let (a, b) = chunk-joins r c valid (ground arith) in
    let (x, y) = chunks-join (after_chunk r c) cs all (ground arith) in
    (
      pages_continue-join r.at c.pages (pages_of cs) a
          (subst (λ (z : Running). pages_continue z (pages_of cs) ≡ true) (sym b) x),
      after_pages-join r.at c.pages (pages_of cs)
          ∙ ap (λ (z : Running). after_pages z (pages_of cs)) b
          ∙ y,
    )

last_of_four : (a b c d : Bool) → (a && b && c && d) ≡ true → d ≡ true
last_of_four a b c d e = ground arith

checked-IsChained :
    (pin : SourcePin) (m : Manifest) (f g : ChunkFacts) (o : Option (List ClosedPage))
    → chunk_checked pin m f o ≡ some g
    → chunk_chain_valid g ≡ true
unfolding chunk_checked
checked-IsChained pin m f g none e = cc e
checked-IsChained pin m f g (some ps) e =
    let h = record f { pages = ps } in
    elim (Bool-cases (
      record_owners_match pin m
      && chunk_scalars_valid h
      && chunk_bound pin m h
      && chunk_chain_valid h)) [
        | inr t ↦ cc (rw (t, chunk_checked) at e)
        | inl t ↦
            let same : h ≡ g = cc (rw (t, chunk_checked) at e) in
            subst (λ (z : ChunkFacts). chunk_chain_valid z ≡ true) same
              (last_of_four (record_owners_match pin m) (chunk_scalars_valid h)
                (chunk_bound pin m h) (chunk_chain_valid h) t)
      ]

module _ ⦃d : Digest ChunkFacts⦄ where
  finalized-IsChained :
      (core : CompositionCore) (pin : SourcePin) (m : Manifest) (f : ChunkFacts) (c : PageChunk)
      → finalize_chunk core pin m f ≡ some c
      → IsChained c
  unfolding finalize_chunk read_chunk
  finalized-IsChained core pin m f c e =
      elim (Option-cases (chunk_checked pin m f (parse_pages core f.pages))) [
        | inl t ↦ cc (rw (t, finalized_chunk) at e)
        | inr (g, t) ↦
            let made : record { facts = g; fingerprint = fingerprint g } ≡ c =
              cc (rw (t, finalized_chunk) at e) in
            subst IsChained made (checked-IsChained pin m f g (parse_pages core f.pages) t)
      ]

  -- The pages of a chunk that is parsed continue one another.
  pub parse_chunk-IsChained :
      (core : CompositionCore) (pin : SourcePin) (m : Manifest) (c k : PageChunk)
      → parse_chunk core pin m c ≡ some k
      → IsChained k
  unfolding parse_chunk
  parse_chunk-IsChained core pin m c k e = elim (Bool-cases (is_fingerprint c.fingerprint)) [
    | inr t ↦ cc (rw (t, parse_chunk) at e)
    | inl t ↦ elim (Option-cases (finalize_chunk core pin m c.facts)) [
      | inl u ↦ cc (rw (t, u, same_chunk) at e)
      | inr (g, u) ↦ elim (Bool-cases (g.fingerprint == c.fingerprint)) [
        | inr v ↦ cc (rw (t, u, v, same_chunk) at e)
        | inl v ↦
            let same : g ≡ k = cc (rw (t, u, v, same_chunk) at e) in
            subst IsChained same (finalized-IsChained core pin m c.facts g u)
      ]
    ]
  ]
