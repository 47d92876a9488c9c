-- ===== src/Injector/Capacity.antt =====
-- The number of workers stays within the configured maximum.
use open_liberty_operator.Common.{
  ℕ, ◌≤◌, Str, codes, ◌==◌, str_eq, str_beq_iff, nat_eq, Bool, true, false, ◌||◌, List, [], ◌∷◌,
  ◌++◌, Option, none, some, if◌then◌else◌, ltb, leb, length, length-append, Distinct, In, ◌≡◌, ◌≢◌,
  refl, sym, inl, inr, arith, Bool-cases, Option-cases, parse_int, parsed, pos, negsuc,
  syntax_error, range_error, Parsed,
}
use open_liberty_operator.Injector.Message.{Request, receive, Received, blank, malformed, request}
use open_liberty_operator.Injector.{
  State, initial_state, Response, has_worker, remove_worker, desired_workers, set_max_workers,
  start, complete, Step, unlists, marks_completed, names_file, records_error, callback_step,
  pod_key, process_action, handle_messages, handle_read, Event, reads, proceeds, after_event,
  after_events,
}

-- At most the maximum of workers, which is from 1 to 100, with distinct pod keys.
pub record IsWithin (s : State) : Type 0 where
  pub at_most : length s.workers ≤ s.current_max_workers
  pub least : 1 ≤ s.current_max_workers
  pub greatest : s.current_max_workers ≤ 100
  pub distinct : Distinct s.workers

pub remove_worker-In : (k w : Str) (ws : List Str) → In w (remove_worker k ws) → In w ws
unfolding remove_worker
remove_worker-In k w [] h = h
remove_worker-In k w (x ∷ ws) h = elim (Bool-cases (x == k)) [
  | inl e ↦ inr (rw (remove_worker, e) at h)
  | inr e ↦ elim (rw (remove_worker, e) at h) [
    | inl same ↦ inl same
    | inr later ↦ inr (remove_worker-In k w ws later)
  ]
]

remove_worker-Distinct : (k : Str) (ws : List Str) → Distinct ws → Distinct (remove_worker k ws)
unfolding remove_worker
remove_worker-Distinct k [] h = h
remove_worker-Distinct k (x ∷ ws) (fresh, h) = elim (Bool-cases (x == k)) [
  | inl e ↦ rw e h
  | inr e ↦ rw e ((λ m. fresh (remove_worker-In k x ws m)), remove_worker-Distinct k ws h)
]

length-remove_worker : (k : Str) (ws : List Str) → length (remove_worker k ws) ≤ length ws
unfolding remove_worker
length-remove_worker k [] = omega arith
length-remove_worker k (x ∷ ws) = ground (arith, length-remove_worker k ws)

has_worker-In : (k : Str) (ws : List Str) → has_worker k ws ≡ false → ¬ (In k ws)
unfolding has_worker
has_worker-In k [] h m = m
has_worker-In k (x ∷ ws) h (inl same) = ground (arith, h, same, str_beq_iff x k)
has_worker-In k (x ∷ ws) h (inr later) = has_worker-In k ws (ground (arith, h)) later

append-Distinct : (k : Str) (ws : List Str) → ¬ (In k ws) → Distinct ws → Distinct (ws ++ (k ∷ []))
append-Distinct k [] h d = ((λ m. m), tt)
append-Distinct k (x ∷ ws) h (fresh, d) =
    ((λ m. other ws (λ e. h (inl (sym e))) fresh m), append-Distinct k ws (λ m. h (inr m)) d)
  where
    other : (vs : List Str) → x ≢ k → ¬ (In x vs) → In x (vs ++ (k ∷ [])) → ⊥
    other [] n f (inl e) = n e
    other [] n f (inr m) = m
    other (v ∷ vs) n f (inl e) = f (inl e)
    other (v ∷ vs) n f (inr m) = other vs n (λ m'. f (inr m')) m

pub removed-IsWithin :
    (k : Str) (s s' : State)
    → s'.workers ≡ remove_worker k s.workers
    → s'.current_max_workers ≡ s.current_max_workers
    → IsWithin s
    → IsWithin s'
removed-IsWithin k s s' w m h = record {
  at_most = rw (w, m) (omega (arith, length-remove_worker k s.workers, h.at_most));
  least = rw m h.least;
  greatest = rw m h.greatest;
  distinct = rw w (remove_worker-Distinct k s.workers h.distinct);
}

kept :
    (s s' : State)
    → s'.workers ≡ s.workers
    → s'.current_max_workers ≡ s.current_max_workers
    → IsWithin s
    → IsWithin s'
kept s s' w m h = record {
  at_most = rw (w, m) h.at_most;
  least = rw m h.least;
  greatest = rw m h.greatest;
  distinct = rw w h.distinct;
}

desired_workers-range :
    (payload : Str) (n : ℕ) → desired_workers payload ≡ some n → (1 ≤ n) × (n ≤ 100)
unfolding desired_workers
desired_workers-range payload n h = in_range (parse_int payload) h
  where
    in_range :
        (r : Parsed)
        → (elim r [
          | parsed (pos n) ↦ if ltb n 1 || ltb 100 n then none else some n
          | parsed (negsuc n) ↦ none
          | syntax_error ↦ none
          | range_error z ↦ none
        ])
          ≡ some n
        → (1 ≤ n) × (n ≤ 100)
    in_range (parsed (pos m)) e = ground (arith, e)
    in_range (parsed (negsuc m)) e = absurd (ground (arith, e))
    in_range syntax_error e = absurd (ground (arith, e))
    in_range (range_error z) e = absurd (ground (arith, e))

module _ (s : State) (h : IsWithin s) where
  set_max_workers-IsWithin : (payload : Str) → IsWithin (set_max_workers payload s).0
  unfolding set_max_workers
  set_max_workers-IsWithin payload = elim (Option-cases (desired_workers payload)) [
    | inl bad ↦ rw (set_max_workers, bad) h
    | inr (n, e) ↦
        let (low, high) = desired_workers-range payload n e in
        rw (set_max_workers, e)
          (record {
            at_most = ground (arith, h.at_most);
            least = ground (arith, h.least, low);
            greatest = ground (arith, h.at_most, h.greatest, high);
            distinct = h.distinct;
          })
  ]

  begun :
      (started : Bool) (k : Str)
      → has_worker k s.workers ≡ false
      → leb s.current_max_workers (length s.workers) ≡ false
      → IsWithin (start started k s).0
  unfolding start
  begun true k new room =
      rw (start, new, room)
        (record {
          at_most = ground (arith, room, length-append s.workers (k ∷ []));
          least = h.least;
          greatest = h.greatest;
          distinct = append-Distinct k s.workers (has_worker-In k s.workers new) h.distinct;
        })
  begun false k new room =
      rw (start, new, room)
        (record {
          at_most = h.at_most;
          least = h.least;
          greatest = h.greatest;
          distinct = h.distinct;
        })

  pub start-IsWithin : (started : Bool) (k : Str) → IsWithin (start started k s).0
  unfolding start
  start-IsWithin started k = elim (Bool-cases (has_worker k s.workers)) [
    | inl has ↦ rw (start, has) h
    | inr new ↦ elim (Bool-cases (leb s.current_max_workers (length s.workers))) [
      | inl full ↦ rw (start, new, full) h
      | inr room ↦ begun started k new room
    ]
  ]

  pub callback_step-IsWithin : (step : Step) (k : Str) → IsWithin (callback_step step k s)
  unfolding callback_step
  callback_step-IsWithin unlists k = removed-IsWithin k s _ refl refl h
  callback_step-IsWithin marks_completed k = kept s _ refl refl h
  callback_step-IsWithin (names_file file_name) k = kept s _ refl refl h
  callback_step-IsWithin (records_error message) k = kept s _ refl refl h

if-first :
    {R : Type 0} (P : State → Type 0) (b : Bool) (x y : State × R)
    → P x.0
    → P y.0
    → P (if b then x else y).0
if-first P true x y px py = px
if-first P false x y px py = py

-- `processAction` keeps the workers within the maximum, whatever the action.
pub process_action-IsWithin :
    (started : Bool) (pod_name pod_namespace action attrs : Str) (s : State)
    → IsWithin s
    → IsWithin (process_action started pod_name pod_namespace action attrs s).0
unfolding process_action
process_action-IsWithin started [] n action attrs s h = h
process_action-IsWithin started (c ∷ p) [] action attrs s h = h
process_action-IsWithin started (c ∷ p) (d ∷ n) action attrs s h =
    let k = pod_key (c ∷ p) (d ∷ n) attrs in
    let chosen = if-first {R = Option Response} IsWithin in
    chosen (action == codes "setMaxWorkers") _ _ (set_max_workers-IsWithin s h attrs) (
      chosen (action == codes "start") _ _ (start-IsWithin s h started k) (
        chosen (action == codes "complete") _ _
          (unfold complete in removed-IsWithin k s (complete k s) refl refl h)
          (chosen (action == codes "status") _ _ h (
            chosen (action == codes "linperfFileName") _ _ h
              (chosen (action == codes "stop") _ _ (removed-IsWithin k s _ refl refl h) h)))))

handle_messages-IsWithin :
    (started : Request → Bool) (messages : List Received) (s : State)
    → IsWithin s
    → IsWithin (handle_messages started messages s).0
unfolding handle_messages
handle_messages-IsWithin started [] s h = h
handle_messages-IsWithin started (blank ∷ messages) s h =
    handle_messages-IsWithin started messages s h
handle_messages-IsWithin started (malformed ∷ messages) s h = h
handle_messages-IsWithin started (request r ∷ messages) s h =
    handle_messages-IsWithin started messages _
      (process_action-IsWithin (started r) r.pod_name r.pod_namespace r.action r.attrs s h)

-- From the operator's start, over every sequence of reads, on any connections, and of steps of callbacks,
-- there are at most as many workers as the maximum, which stays from 1 to 100, and no pod has two.
pub after_events-IsWithin : (es : List Event) → IsWithin (after_events es initial_state)
unfolding after_event handle_read
after_events-IsWithin es = from es initial_state begins
  where
    begins : IsWithin initial_state
    begins = record {
      at_most = omega arith;
      least = omega arith;
      greatest = omega arith;
      distinct = tt;
    }

    one : (e : Event) (s : State) → IsWithin s → IsWithin (after_event e s)
    one (reads started read) s h = handle_messages-IsWithin started (receive read) s h
    one (proceeds step k) s h = callback_step-IsWithin s h step k

    from : (es : List Event) (s : State) → IsWithin s → IsWithin (after_events es s)
    from [] s h = h
    from (e ∷ es) s h = from es (after_event e s) (one e s h)
