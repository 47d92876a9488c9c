-- ===== src/Semeru/Rounds.antt =====
-- Reconciles of an application, one behind the other: the references stay well formed, and a
-- reconcile that succeeds leaves its generation as the only completed one.
use open_liberty_operator.Common.{
  ℕ, suc, ◌+◌, ◌*◌, ◌^◌, ◌<◌, true, false, not, ◌||◌, List, [], ◌∷◌, ◌++◌, none, some, length, ◌≡◌,
  refl, sym, ap, ◌∙◌, subst, arith, inl, inr, All, format_nat,
}
use open_liberty_operator.Semeru.{App, get_semeru_compiler_name}
use open_liberty_operator.Semeru.Cleanup.{Resource}
use open_liberty_operator.Semeru.Reconcile.{
  Status, Round, Reconciled, reconcile_semeru_compiler, bumped, run_round, run_rounds,
}
use open_liberty_operator.Semeru.Listed.{listed, deletions}
use open_liberty_operator.Semeru.Marking.{completed_with-listed, listed_one}
use open_liberty_operator.Semeru.History.{IsTracked, IsWritten, blank, Tracked-weaken}
use open_liberty_operator.Semeru.Step.{
  reconcile-references, mark-Completing, completed_with-IsWritten, upgraded_references,
  upgraded_references-IsWritten, result-left, result-cleaned,
}

pub unmarked :
    (a : App) (e : Round) (s : Status)
    → (reconcile_semeru_compiler e.answers a (bumped e.image_changed s)).old_instances ≡ false
    → (run_round a e s).0.references
      ≡ (reconcile_semeru_compiler e.answers a (bumped e.image_changed s)).status.references
unfolding run_round
unmarked a e s old = ground (arith, old)

pub run_round-IsTracked :
    (a : App) (e : Round) (s : Status) (n : ℕ)
    → n + 4 < 2 ^ 63
    → IsTracked n s.references
    → IsTracked (n + 4) (run_round a e s).0.references
run_round-IsTracked a e s n b h =
    let w = upgraded_references-IsWritten a e s n b h in
    elim (reconcile-references e.answers a (bumped e.image_changed s)) [
      | inl (refs, old, f) ↦ inl (subst (IsWritten (n + 4)) (sym (unmarked a e s old ∙ refs)) w)
      | inr (refs, old, fine) ↦
          let c = mark-Completing (n + 4) (upgraded_references a e s n) b w in
          elim (result-left a e s n c refs old fine b) [
            | inl left ↦ inl (
                subst (IsWritten (n + 4)) (sym left)
                  (completed_with-IsWritten (n + 4) c.from c.current c.older c.bound c.below c.at))
            | inr left ↦ inl (
                subst (IsWritten (n + 4)) (sym left)
                  (completed_with-IsWritten (n + 4) c.from c.current [] c.bound tt c.at))
          ]
    ]

IsTracked-run_rounds :
    (a : App) (es : List Round) (s : Status) (n : ℕ)
    → n + 4 * length es < 2 ^ 63
    → IsTracked n s.references
    → IsTracked (n + 4 * length es) (run_rounds a es s).references
unfolding run_rounds
IsTracked-run_rounds a [] s n b h = Tracked-weaken n (n + 0) s.references (omega arith) h
IsTracked-run_rounds a (e ∷ es) s n b h =
    Tracked-weaken (n + 4 + 4 * length es) (n + 4 * suc (length es))
      (run_rounds a es (run_round a e s).0).references (omega arith)
      (IsTracked-run_rounds a es (run_round a e s).0 (n + 4) (omega arith)
        (run_round-IsTracked a e s n (omega arith) h))

-- The status of a new application: no generation, and none completed.
abbrev pub new_status : Status
new_status = record { references = some blank; compiler = none }

pub run_rounds-IsTracked :
    (a : App) (es : List Round)
    → 4 * length es < 2 ^ 63
    → IsTracked (4 * length es) (run_rounds a es new_status).references
run_rounds-IsTracked a es b =
    Tracked-weaken (0 + 4 * length es) (4 * length es) (run_rounds a es new_status).references
      (omega arith) (IsTracked-run_rounds a es new_status 0 (omega arith) (inr refl))

-- What `reconcileSemeruCompiler` does in a reconcile behind others.
abbrev pub reconciled_after : App → List Round → Round → Reconciled
reconciled_after a es e =
    reconcile_semeru_compiler e.answers a (bumped e.image_changed (run_rounds a es new_status))

-- After any reconciles of a new application, fewer than 2^61 in all, one with the compiler enabled
-- that succeeds, with the application ready and no deletion refused, leaves its generation as the only
-- completed one, and the resources that it deletes are just those of the older generations, which
-- stood before it in the list.
pub run_round-cleaned :
    (a : App) (es : List Round) (e : Round)
    → 4 * length es + 4 < 2 ^ 63
    → e.answers.enabled ≡ true
    → (reconciled_after a es e).failure ≡ none
    → e.ready ≡ true
    → ((x : Resource) → e.refuses x ≡ false)
    → (g : ℕ) × (gs : List ℕ) × ((reconciled_after a es e).status.references
        ≡ some (record {
          generation = some (format_nat g);
          completed = some (listed (gs ++ (g ∷ [])));
        }))
      × All (λ x. x < g) gs
      × ((run_round a e (run_rounds a es new_status)).0.references
          ≡ some (record { generation = some (format_nat g); completed = some (format_nat g) }))
      × ((run_round a e (run_rounds a es new_status)).1
          ≡ deletions
              (not e.answers.is_openshift || e.answers.cert_manager)
              (get_semeru_compiler_name a)
              gs)
run_round-cleaned a es e b on fine ready free =
    let s = run_rounds a es new_status in
    let n = 4 * length es in
    let w = upgraded_references-IsWritten a e s n b (run_rounds-IsTracked a es (omega arith)) in
    elim (reconcile-references e.answers a (bumped e.image_changed s)) [
      | inl (refs, old, f) ↦ absurd (f fine on)
      | inr (refs, old, fine') ↦
          let c = mark-Completing (n + 4) (upgraded_references a e s n) b w in
          let (left, calls) = result-cleaned a e s n c refs old fine b ready free in
          (
            c.current,
            c.older,
            refs
                ∙ ap (λ p. p.0) c.left
                ∙ ap some (completed_with-listed c.from c.current c.older c.at),
            c.below,
            left
                ∙ ap some (
                    completed_with-listed c.from c.current [] c.at
                    ∙ ap
                        (λ t. record {
                          generation = some (format_nat c.current);
                          completed = some t;
                        })
                        (listed_one c.current)),
            calls,
          )
    ]
