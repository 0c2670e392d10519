-- ===== src/Examples/Drains.antt =====
-- The shutdown gate, with two claims.
use flowdoc_vnext_backend.Common.{
  some, ◌≡◌, refl, sym, ap, inl, inr, true, ◌==◌, text_eq, Bool-cases, List, [], ◌∷◌, arith,
}
use flowdoc_vnext_backend.Common.Text.{is_bounded}
use flowdoc_vnext_backend.PdfExport.ShutdownDrain.{
  Gate, create_gate, initial_gate, reserve_claim, begin_drain, force_stop, draining,
}
use flowdoc_vnext_backend.PdfExport.ShutdownDrain.Reserved.{has, add}
use flowdoc_vnext_backend.PdfExport.ShutdownDrain.Invariant.{
  Call, reserve, release, drain, GateFits, gate-GateFits, run_calls, after,
}
use flowdoc_vnext_backend.PdfExport.ShutdownDrain.Draining.{Forces, force_stop-Forces}
use flowdoc_vnext_backend.PdfExport.ShutdownDrain.Completion.{AllReleased, CompletesBy, drain_ends}
use flowdoc_vnext_backend.Examples.Data.{drain_digest}

abbrev gate0 : Gate
gate0 = initial_gate "gate" 0

created : create_gate "gate" 0 ≡ some gate0
unfolding create_gate is_bounded
created = refl

abbrev calls : List Call
calls = reserve "b" 1 ∷ reserve "a" 2 ∷ drain 3 ∷ []

-- The gate that drains.
unfoldable gate3 : Gate
gate3 = run_calls gate0 calls

gate3-GateFits : GateFits gate3
unfolding gate3
gate3-GateFits = gate-GateFits "gate" 0 gate0 calls created

gate-GateFits_example : GateFits (run_calls gate0 calls)
gate-GateFits_example = gate-GateFits "gate" 0 gate0 calls created

waits : gate3.state.status ≡ draining
unfolding gate3 run_calls after reserve_claim begin_drain add is_bounded
waits = refl

reserved_ids : gate3.reservations ≡ "b" ∷ "a" ∷ []
unfolding gate3 run_calls after reserve_claim begin_drain add is_bounded
reserved_ids = refl

updated : gate3.state.updated_at ≡ 3
unfolding gate3 run_calls after reserve_claim begin_drain add is_bounded
updated = refl

-- The claims are released in the other order, with calls that are refused in between.
abbrev ending : List Call
ending = release "a" 5 ∷ reserve "c" 6 ∷ drain 6 ∷ release "b" 7 ∷ release "a" 8 ∷ []

all_released : AllReleased gate3 ending
all_released id held = elim (Bool-cases (id == "b")) [
  | inl e ↦ (7, inr (inr (inr (inl (ap (λ x. release x 7) (sym ((text_eq.same_iff id "b").0 e)))))))
  | inr other ↦ elim (Bool-cases (id == "a")) [
    | inl e ↦ (5, inl (ap (λ x. release x 5) (sym ((text_eq.same_iff id "a").0 e))))
    | inr neither ↦
        let none_left : has ("b" ∷ "a" ∷ []) id ≡ true = rw reserved_ids at held in
        absurd (cc (rw (other, neither) at none_left))
  ]
]

drain_ends_example : CompletesBy gate3 ending (run_calls gate3 ending)
drain_ends_example =
    drain_ends ending gate3 gate3-GateFits waits
      (omega (arith, updated), (omega arith, (omega arith, (omega arith, (omega arith, tt)))))
      (tt, (tt, (tt, (tt, (tt, tt))))) all_released

force_stop-Forces_example : Forces gate3 5 (force_stop gate3 5).0 (force_stop gate3 5).1
force_stop-Forces_example =
    force_stop-Forces gate3 5 gate3-GateFits (rw waits refl) (omega (arith, updated))
