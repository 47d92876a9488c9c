-- ===== src/Injector.antt =====
-- The pod injector of the operator (utils/socket/pod_injector.go): its workers and what it remembers of
-- their pods, as one state that the actions of a connection change one at a time. A worker's pipes
-- and its cancel function are left out: the state keeps the pod key.
mod Message
mod Capacity
mod Lifecycle
mod RoundTrip
mod Tests
use open_liberty_operator.Common.{
  ℕ, zero, suc, Str, codes, ◌==◌, str_eq, nat_eq, int_eq, Bool, true, false, not, ◌&&◌, ◌||◌, List,
  [], ◌∷◌, ◌++◌, Option, none, some, if◌then◌else◌, ltb, leb, length, ℤ, pos, negsuc, ltb_ℤ, Parsed,
  parsed, syntax_error, range_error, parse_int,
}
use open_liberty_operator.Injector.Message.{
  Attrs, decode_linperf_attr, attr_of, Request, Received, receive, blank, malformed, request,
}

-- A `sync.Map` with text keys: the entries, the last one stored first.
abbrev pub SyncMap : Type 0 → Type 0
SyncMap V = List (Str × V)

module _ {V : Type 0} where
  unfoldable pub load : Str → SyncMap V → Option V
  load k [] = none
  load k ((k', v) ∷ m) = if k' == k then some v else load k m

  unfoldable pub delete : Str → SyncMap V → SyncMap V
  delete k [] = []
  delete k ((k', v) ∷ m) = let rest = delete k m in if k' == k then rest else (k', v) ∷ rest

  unfoldable pub store : Str → V → SyncMap V → SyncMap V
  unfolding delete
  store k v m = (k, v) ∷ delete k m

-- The package's variables.
pub record State : Type 0 where
  pub workers : List Str
  pub completed_pods : SyncMap Bool
  pub erroring_pods : SyncMap Str
  pub linperf_file_names : SyncMap Str
  pub current_max_workers : ℕ

abbrev pub initial_state : State
initial_state = record {
  workers = [];
  completed_pods = [];
  erroring_pods = [];
  linperf_file_names = [];
  current_max_workers = 10;
}

-- The responses, with what follows `error:` and `name:`.
pub data Response : Type 0 where
  update_max_workers_success update_max_workers_busy update_max_workers_invalid_argument : Response
  writing idle done not_found too_many_workers : Response
  error name : Str → Response

-- `hasWorker`.
unfoldable pub has_worker : Str → List Str → Bool
has_worker k [] = false
has_worker k (w ∷ ws) = if w == k then true else has_worker k ws

-- `removeWorker`: the first worker of the pod.
unfoldable pub remove_worker : Str → List Str → List Str
remove_worker k [] = []
remove_worker k (w ∷ ws) = if w == k then ws else w ∷ remove_worker k ws

abbrev pub without_worker : Str → State → State
without_worker k s = record {
  workers = remove_worker k s.workers;
  completed_pods = s.completed_pods;
  erroring_pods = s.erroring_pods;
  linperf_file_names = s.linperf_file_names;
  current_max_workers = s.current_max_workers;
}

abbrev pub with_max : ℕ → State → State
with_max n s = record {
  workers = s.workers;
  completed_pods = s.completed_pods;
  erroring_pods = s.erroring_pods;
  linperf_file_names = s.linperf_file_names;
  current_max_workers = n;
}

-- The number that `setMaxWorkers` is given, if it is between `MinWorkers` and `MaxWorkers`.
unfoldable pub desired_workers : Str → Option ℕ
desired_workers payload = elim (parse_int payload) [
  | parsed (pos n) ↦ if ltb n 1 || ltb 100 n then none else some n
  | parsed (negsuc n) ↦ none
  | syntax_error ↦ none
  | range_error z ↦ none
]

-- The case `setMaxWorkers` of `processAction`.
unfoldable pub set_max_workers : Str → State → State × Response
unfolding desired_workers
set_max_workers payload s = elim (desired_workers payload) [
  | none ↦ (s, update_max_workers_invalid_argument)
  | some n ↦
      let active = length s.workers in
      let max_workers =
        if not (n == s.current_max_workers)
        then (if ltb active n then n else active)
        else s.current_max_workers in
      (
        with_max max_workers s,
        (if n == max_workers then update_max_workers_success else update_max_workers_busy),
      )
]

-- The case `start`, with whether `CopyAndRunLinperf` has started the script.
unfoldable pub start : Bool → Str → State → State × Response
unfolding has_worker store
start started k s =
    if has_worker k s.workers
    then (s, writing)
    else if leb s.current_max_workers (length s.workers)
    then (s, too_many_workers)
    else (
      record {
        workers = if started then s.workers ++ (k ∷ []) else s.workers;
        completed_pods = store k false s.completed_pods;
        erroring_pods = s.erroring_pods;
        linperf_file_names = delete k s.linperf_file_names;
        current_max_workers = s.current_max_workers;
      },
      writing,
    )

-- The case `complete`.
unfoldable pub complete : Str → State → State
unfolding remove_worker delete
complete k s = record {
  workers = remove_worker k s.workers;
  completed_pods = delete k s.completed_pods;
  erroring_pods = delete k s.erroring_pods;
  linperf_file_names = s.linperf_file_names;
  current_max_workers = s.current_max_workers;
}

-- The case `status`.
unfoldable pub status : Str → State → Response
unfolding has_worker load
status k s = if has_worker k s.workers then writing else elim (load k s.erroring_pods) [
  | some message ↦ error message
  | none ↦
      if is_true (load k s.completed_pods)
      then done
      else if leb s.current_max_workers (length s.workers)
      then too_many_workers
      else idle
]
  where
    is_true : Option Bool → Bool
    is_true none = false
    is_true (some b) = b

-- The case `linperfFileName`.
unfoldable pub linperf_file_name : Str → State → Response
unfolding load
linperf_file_name k s = elim (load k s.linperf_file_names) [
  | some file_name ↦ name file_name
  | none ↦ not_found
]

-- The end of a script, as its callback receives it: the file name of a success, or the error message.
pub data Outcome : Type 0 where
  succeeded failed : Str → Outcome

-- What the callback that `start` gives to `CopyAndRunLinperf` does. It does not hold the mutex, so that other
-- calls come between its steps.
pub data Step : Type 0 where
  unlists marks_completed : Step
  names_file records_error : Str → Step

unfoldable pub callback_steps : Outcome → List Step
callback_steps (succeeded file_name) = unlists ∷ marks_completed ∷ names_file file_name ∷ []
callback_steps (failed message) = unlists ∷ records_error message ∷ []

-- A step of the callback of a pod.
unfoldable pub callback_step : Step → Str → State → State
unfolding remove_worker store
callback_step unlists k s = without_worker k s
callback_step marks_completed k s = record s { completed_pods = store k true s.completed_pods }
callback_step (names_file file_name) k s = record s {
  linperf_file_names = store k file_name s.linperf_file_names;
}
callback_step (records_error message) k s = record s {
  erroring_pods = store k message s.erroring_pods;
}

-- `getPodKey`, with the uid that `processAction` puts behind it.
unfoldable pub pod_key : Str → Str → Str → Str
unfolding decode_linperf_attr
pod_key pod_name pod_namespace attrs =
    pod_namespace ++ (b':' ∷ pod_name ++ (b':' ∷ attr_of (codes "uid") (decode_linperf_attr attrs)))

-- `processAction`: the new state and the response, if one is written.
unfoldable pub process_action : Bool → Str → Str → Str → Str → State → State × Option Response
unfolding set_max_workers start complete status linperf_file_name pod_key remove_worker
process_action started [] pod_namespace action attrs s = (s, none)
process_action started (c ∷ pod_name) [] action attrs s = (s, none)
process_action started (c ∷ pod_name) (d ∷ pod_namespace) action attrs s =
    let k = pod_key (c ∷ pod_name) (d ∷ pod_namespace) attrs in
    let (set_max, max_response) = set_max_workers attrs s in
    let (begun, start_response) = start started k s in
    if action == codes "setMaxWorkers"
    then (set_max, some max_response)
    else if action == codes "start"
    then (begun, some start_response)
    else if action == codes "complete"
    then (complete k s, none)
    else if action == codes "status"
    then (s, some (status k s))
    else if action == codes "linperfFileName"
    then (s, some (linperf_file_name k s))
    else if action == codes "stop"
    then (without_worker k s, none)
    else (s, none)

-- The loop of `handleConnection` over the messages of one read: the responses, and whether a malformed
-- message ends the connection. `started` says of each request whether its script starts.
unfoldable pub handle_messages :
    (Request → Bool) → List Received → State → State × List Response × Bool
unfolding process_action
handle_messages started [] s = (s, [], false)
handle_messages started (blank ∷ messages) s = handle_messages started messages s
handle_messages started (malformed ∷ messages) s = (s, [], true)
handle_messages started (request r ∷ messages) s =
    let (s', response) = process_action (started r) r.pod_name r.pod_namespace r.action r.attrs s in
    let (s'', responses, ended) = handle_messages started messages s' in
    (s'', (elim response [ none ↦ responses | some x ↦ x ∷ responses ]), ended)

-- `handleConnection`, for one read.
unfoldable pub handle_read : (Request → Bool) → Str → State → State × List Response × Bool
unfolding receive handle_messages
handle_read started read s = handle_messages started (receive read) s

-- What happens to the injector: a read of some connection is handled, or the callback of a script takes a
-- step.
pub data Event : Type 0 where
  reads : (Request → Bool) → Str → Event
  proceeds : Step → Str → Event

unfoldable pub after_event : Event → State → State
unfolding handle_read callback_step
after_event (reads started read) s = (handle_read started read s).0
after_event (proceeds step k) s = callback_step step k s

abbrev pub after_events : List Event → State → State
after_events [] s = s
after_events (e ∷ es) s = after_events es (after_event e s)
