-- ===== src/Status/Tests.antt =====
-- Phases of internal/cli/status.go.
use subctl.Base.{◌≡◌, refl, ◌↔◌, true, false, List, [], ◌∷◌, ◌++◌}
use subctl.Status.{
  success, failure, warning, result_from_messages, end, Call, start_call, report_call, apply_calls,
  new_reporter,
}
use subctl.Status.Lossless.{messages, reported, so_far, apply_calls-so_far, end-All_shown}
use subctl.Status.Worst.{HasKind, result_from_messages-Worst}

abbrev calls : List Call
calls =
    report_call warning "before" "before"
    ∷ start_call "first"
    ∷ report_call success "%s" ""
    ∷ report_call failure "" ""
    ∷ report_call failure "two" "two"
    ∷ start_call "second"
    ∷ report_call success "three" "three"
    ∷ []

end-All_shown_example :
    messages ((end (apply_calls calls (new_reporter true))).output) ≡ reported calls
end-All_shown_example = end-All_shown true calls

apply_calls-so_far_example :
    so_far (apply_calls calls (new_reporter false)) ≡ so_far (new_reporter false) ++ reported calls
apply_calls-so_far_example = apply_calls-so_far calls (new_reporter false) (λ _. refl)

result_from_messages-Worst_example :
    ((result_from_messages ((warning, "w") ∷ []) ≡ failure) ↔ HasKind failure ((warning, "w") ∷ []))
    × ((result_from_messages ((warning, "w") ∷ []) ≡ warning)
        ↔ ((HasKind failure ((warning, "w") ∷ []) → ⊥) × HasKind warning ((warning, "w") ∷ [])))
result_from_messages-Worst_example = result_from_messages-Worst ((warning, "w") ∷ [])
