-- ===== src/Sharing/Steady.antt =====
-- What an election by another instance leaves of a leader's tracker.
use open_liberty_operator.Common.{
  ℕ, suc, Str, ◌==◌, str_eq, str_beq_iff, Bool, true, false, List, [], ◌∷◌, ◌++◌, map, Option, none,
  some, if◌then◌else◌, length, ◌≡◌, ◌≢◌, refl, sym, ap, subst, ◌∙◌, inl, inr, arith, Bool-cases,
}
use open_liberty_operator.Tracker.{LeaderTracker, set_owner, clear_owner_if_shares}
use open_liberty_operator.Sharing.{Metadata, Election, leader_index}
use open_liberty_operator.Sharing.Locate.{NoneNamed, leader_index-none, length-map, other_name}
use open_liberty_operator.Sharing.Elect.{Elected, fresh, clear-name, clear-other}
use open_liberty_operator.Sharing.Agreement.{WhenSaved}

module _ (n a : Str) where
  -- The tracker of the resource `n` that `a` owns is as before in the second list, and no tracker is
  -- renamed to `n`.
  abbrev pub Steady : List LeaderTracker → List LeaderTracker → Type 0
  Steady [] [] = Unit
  Steady [] (t' ∷ ts') = (t'.name ≢ n) × Steady [] ts'
  Steady (t ∷ ts) [] = ⊥
  Steady (t ∷ ts) (t' ∷ ts') =
      (t'.name ≡ t.name) × (t.name ≡ n → t.owner ≡ a → t' ≡ t) × Steady ts ts'

  pub Steady-refl : (ts : List LeaderTracker) → Steady ts ts
  Steady-refl [] = tt
  Steady-refl (t ∷ ts) = (refl, λ _ _. refl, Steady-refl ts)

  pub Steady-leader_index :
      (ts ts' : List LeaderTracker) (i : ℕ) (f f' : Option (ℕ × LeaderTracker))
      → ((j : ℕ) (t : LeaderTracker) → f ≡ some (j, t) → t.owner ≡ a → f' ≡ some (j, t))
      → Steady ts ts'
      → (j : ℕ) → (t : LeaderTracker) → leader_index n ts i f ≡ some (j, t)
      → t.owner ≡ a
      → leader_index n ts' i f' ≡ some (j, t)
  unfolding leader_index
  Steady-leader_index [] [] i f f' k s j t h o = k j t h o
  Steady-leader_index [] (t' ∷ ts') i f f' k (other, s) j t h o =
      rw (other_name n t' other) (Steady-leader_index [] ts' (suc i) f f' k s j t h o)
  Steady-leader_index (x ∷ ts) [] i f f' k s j t h o = absurd s
  Steady-leader_index (x ∷ ts) (x' ∷ ts') i f f' k (e, keep, s) j t h o =
      Steady-leader_index ts ts' (suc i) _ _ step s j t h o
    where
      found_tracker : Option (ℕ × LeaderTracker) → LeaderTracker
      found_tracker none = x
      found_tracker (some (j, t)) = t

      step :
          (j : ℕ) (t : LeaderTracker)
          → (if x.name == n then some (i, x) else f) ≡ some (j, t)
          → t.owner ≡ a
          → (if x'.name == n then some (i, x') else f') ≡ some (j, t)
      step j t h o = elim (Bool-cases (x.name == n)) [
        | inr other ↦ rw (e, other) (k j t (rw other at h) o)
        | inl named ↦
            let h' = rw named at h in
            let same : x ≡ t = ap found_tracker h' in
            let n_name : x.name ≡ n = ground (arith, named, str_beq_iff x.name n) in
            let named' : (x'.name == n) ≡ true = ap (λ w. w == n) e ∙ named in
            rw named' (ap (λ y. some (i, y)) (keep n_name (ap (λ y. y.owner) same ∙ o)) ∙ h')
      ]

  -- Clearing another instance's ownership.
  pub Steady-clear :
      (b path : Str) (ts : List LeaderTracker)
      → (a == b) ≡ false
      → Steady ts (map (clear_owner_if_shares b path) ts)
  Steady-clear b path [] h = tt
  Steady-clear b path (t ∷ ts) h = (
    clear-name b path t,
    (λ _ o. clear-other b path t (ap (λ w. w == b) o ∙ h)),
    Steady-clear b path ts h,
  )

  pub Steady-append :
      (xs xs' ys ys' : List LeaderTracker)
      → length xs ≡ length xs'
      → Steady xs xs'
      → Steady ys ys'
      → Steady (xs ++ ys) (xs' ++ ys')
  Steady-append [] [] ys ys' l s s' = s'
  Steady-append [] (x' ∷ xs') ys ys' l s s' = absurd (omega (arith, l))
  Steady-append (x ∷ xs) [] ys ys' l s s' = absurd (omega (arith, l))
  Steady-append (x ∷ xs) (x' ∷ xs') ys ys' l (e, k, s) s' =
      (e, k, Steady-append xs xs' ys ys' (omega (arith, l)) s s')

  pub Steady-snoc :
      (xs xs' : List LeaderTracker) (new : LeaderTracker)
      → new.name ≢ n
      → Steady xs xs'
      → Steady xs (xs' ++ (new ∷ []))
  Steady-snoc [] [] new h s = (h, tt)
  Steady-snoc [] (x' ∷ xs') new h (k, s) = (k, Steady-snoc [] xs' new h s)
  Steady-snoc (x ∷ xs) [] new h s = absurd s
  Steady-snoc (x ∷ xs) (x' ∷ xs') new h (e, k, s) = (e, k, Steady-snoc xs xs' new h s)

  module _ (b : Str) (m : Metadata) (s : Bool) (ts : List LeaderTracker) where
    -- A tracker that another instance may take: one of another resource, or one that `a` does not own.
    pub Elected-Steady :
        (e : Election)
        → (a == []) ≡ false
        → (a == b) ≡ false
        → (i : ℕ) → (t : LeaderTracker) → leader_index n ts 0 none ≡ some (i, t)
        → t.owner ≡ a
        → Elected b m s ts e
        → WhenSaved (Steady ts) e.saved
    Elected-Steady e ha hb i t h o (Elected.unknown_waits _ _) = tt
    Elected-Steady e ha hb i t h o (Elected.vacant_waits _ _ _) = tt
    Elected-Steady e ha hb i t h o (Elected.unknown_elects none_named _) =
        Steady-snoc ts (map (clear_owner_if_shares b m.path) ts) (fresh b m) new_name
          (Steady-clear b m.path ts hb)
      where
        new_name : m.name ≢ n
        new_name same =
            let missing =
              leader_index-none n ts 0 none (subst (λ w. NoneNamed w ts) same none_named) in
            ground (arith, h, missing)
    Elected-Steady e ha hb i t h o (Elected.follows_self l held self) = Steady-refl ts
    Elected-Steady e ha hb i t h o (Elected.follows_other l held other) =
        Steady-clear b m.path ts hb
    Elected-Steady e ha hb i t h o (Elected.vacant_elects l vacant _) = rw l.parts (
        Steady-append l.before (map clear l.before) (l.at ∷ l.after)
          (set_owner b l.at ∷ map clear l.after) (sym (length-map clear l.before))
          (Steady-clear b m.path l.before hb)
          (refl, (λ _ o'. absurd (not_vacant o')), Steady-clear b m.path l.after hb))
      where
        clear : LeaderTracker → LeaderTracker
        clear = clear_owner_if_shares b m.path

        not_vacant : l.at.owner ≡ a → ⊥
        not_vacant e' = ground (arith, sym vacant ∙ ap (λ w. w == []) e' ∙ ha)
