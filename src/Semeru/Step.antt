-- ===== src/Semeru/Step.antt =====
-- What one reconcile of the application leaves of well-formed references.
use open_liberty_operator.Common.{
  ℕ, suc, ◌+◌, ◌^◌, ◌<◌, ◌≤◌, Bool, true, false, not, ◌||◌, List, [], ◌∷◌, ◌++◌, Option, none, some,
  ◌≡◌, refl, arith, inl, inr, ◌⊎◌, All, format_nat,
}
use open_liberty_operator.Semeru.{
  References, App, get_generation, create_new_semeru_generation, get_semeru_compiler_name,
}
use open_liberty_operator.Semeru.Cleanup.{Resource, delete_completed_semeru_instances}
use open_liberty_operator.Semeru.Reconcile.{
  Answers, Status, Round, mark_completed, upgraded, reconcile_semeru_compiler, bumped, run_round,
}
use open_liberty_operator.Semeru.Listed.{deletions}
use open_liberty_operator.Semeru.Marking.{
  completed_with, completed_of-append, is_nonempty, mark_text, Cleans, delete_completed-Cleans,
  delete_completed-succeeds,
}
use open_liberty_operator.Semeru.History.{
  IsTracked, IsWritten, create_new-IsWritten, upgraded-IsWritten, get_generation-some,
  Written-weaken, Tracked-weaken, Written→Tracked, either_branch,
}

-- The references behind a reconcile are those of the upgrade check, or those with the generation
-- marked; the latter when it succeeds for an enabled compiler.
pub reconcile-references :
    (c : Answers) (a : App) (s : Status)
    → let r = upgraded c a s.references in
      let d = reconcile_semeru_compiler c a s in
      ((d.status.references ≡ r)
        × (d.old_instances ≡ false)
        × (d.failure ≡ none → c.enabled ≡ true → ⊥))
      ⊎ ((d.status.references ≡ (mark_completed (get_generation r) r).0)
          × (d.old_instances ≡ (mark_completed (get_generation r) r).1)
          × (d.failure ≡ none))
unfolding reconcile_semeru_compiler
reconcile-references c a s = ground arith

-- What marking the generation of well-formed references leaves.
pub record Completing (n : ℕ) (o : Option References) (m : Option References × Bool) : Type 0 where
  pub from : References
  pub source : o ≡ some from
  pub current : ℕ
  pub older : List ℕ
  pub bound : current ≤ n
  pub below : All (λ x. x < current) older
  pub at : from.generation ≡ some (format_nat current)
  pub left : m ≡ (some (completed_with from (older ++ (current ∷ []))), is_nonempty older)

pub mark-Completing :
    (n : ℕ) (o : Option References)
    → n < 2 ^ 63
    → IsWritten n o
    → Completing n o (mark_completed (get_generation o) o)
mark-Completing n o b (r, e, w) = record {
  from = r;
  source = e;
  current = w.current;
  older = w.older;
  bound = w.bound;
  below = w.below;
  at = w.at;
  left =
      rw (e, get_generation-some r (format_nat w.current) w.at)
        (mark_text w.current w.older w.is_done r (omega (arith, w.bound)) w.below w.holds);
}

pub completed_with-IsWritten :
    (n : ℕ) (r : References) (c : ℕ) (gs : List ℕ)
    → c ≤ n
    → All (λ x. x < c) gs
    → r.generation ≡ some (format_nat c)
    → IsWritten n (some (completed_with r (gs ++ (c ∷ []))))
completed_with-IsWritten n r c gs b l e = (
  completed_with r (gs ++ (c ∷ [])),
  refl,
  record { current = c; older = gs; is_done = true; bound = b; below = l; at = e; holds = refl },
)

Empty-cases : (gs : List ℕ) → (gs ≡ []) ⊎ (is_nonempty gs ≡ true)
Empty-cases [] = inl refl
Empty-cases (g ∷ gs) = inr refl

module _ (a : App) (e : Round) (s : Status) (n : ℕ) where
  abbrev pub upgraded_references : Option References
  upgraded_references = upgraded e.answers a (bumped e.image_changed s).references

  pub upgraded_references-IsWritten :
      n + 4 < 2 ^ 63 → IsTracked n s.references → IsWritten (n + 4) upgraded_references
  upgraded_references-IsWritten b h =
      let start : IsTracked (suc n) (bumped e.image_changed s).references =
        either_branch (IsTracked (suc n)) e.image_changed
          (create_new_semeru_generation s.references) s.references
          (Written→Tracked (suc n) (create_new_semeru_generation s.references)
            (create_new-IsWritten n s.references (omega arith) h))
          (Tracked-weaken n (suc n) s.references (omega arith) h) in
      Written-weaken (suc (suc (suc (suc n)))) (n + 4) upgraded_references (omega arith) (
        upgraded-IsWritten (suc n) e.answers a (bumped e.image_changed s).references (omega arith)
          start)

  abbrev pub reconciled_status : Status
  reconciled_status = (reconcile_semeru_compiler e.answers a (bumped e.image_changed s)).status

  abbrev pub marked : Option References × Bool
  marked = mark_completed (get_generation upgraded_references) upgraded_references

  -- The references that the reconcile leaves, once the compiler's part of it is known.
  module _ (c : Completing (n + 4) upgraded_references marked)
      (refs : reconciled_status.references ≡ marked.0)
      (old : (reconcile_semeru_compiler e.answers a (bumped e.image_changed s)).old_instances
        ≡ marked.1)
      (fine : (reconcile_semeru_compiler e.answers a (bumped e.image_changed s)).failure ≡ none)
      (b : n + 4 < 2 ^ 63) where
    abbrev pub result : Status × List Resource
    result = run_round a e s

    marked-Cleans :
        Cleans
          (not e.answers.is_openshift || e.answers.cert_manager)
          (get_semeru_compiler_name a)
          c.current
          c.older
          (completed_with c.from (c.older ++ (c.current ∷ [])))
          (delete_completed_semeru_instances e.refuses e.answers.is_openshift e.answers.cert_manager
            a
            (some (completed_with c.from (c.older ++ (c.current ∷ [])))))
    marked-Cleans =
        delete_completed-Cleans e.refuses e.answers.is_openshift e.answers.cert_manager a c.current
          c.older (completed_with c.from (c.older ++ (c.current ∷ []))) (omega (arith, c.bound))
          c.below c.at (completed_of-append c.older c.current)

    pub result-left :
        (result.0.references ≡ some (completed_with c.from (c.older ++ (c.current ∷ []))))
        ⊎ (result.0.references ≡ some (completed_with c.from (c.current ∷ [])))
    unfolding run_round
    result-left = ground (arith, refs, old, fine, c.left, marked-Cleans)

    -- Where nothing is refused, the current generation alone is left, and the resources of the older
    -- ones are deleted.
    pub result-cleaned :
        e.ready ≡ true
        → ((x : Resource) → e.refuses x ≡ false)
        → (result.0.references ≡ some (completed_with c.from (c.current ∷ [])))
          × (result.1
              ≡ deletions
                  (not e.answers.is_openshift || e.answers.cert_manager)
                  (get_semeru_compiler_name a)
                  c.older)
    unfolding run_round
    result-cleaned ready free = elim (Empty-cases c.older) [
      | inl none_older ↦ ground (arith, refs, old, fine, c.left, none_older)
      | inr some_older ↦ ground (
        arith,
        refs,
        old,
        fine,
        c.left,
        some_older,
        marked-Cleans,
        delete_completed-succeeds e.refuses e.answers.is_openshift e.answers.cert_manager a
            (completed_with c.from (c.older ++ (c.current ∷ []))) free,
      )
    ]
