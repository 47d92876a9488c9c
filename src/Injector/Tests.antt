-- ===== src/Injector/Tests.antt =====
-- A run of the pod injector, and a request.
use open_liberty_operator.Common.{
  Str, codes, str_eq, nat_eq, str_beq, true, false, List, [], ◌∷◌, ◌≡◌, refl, pos, format_int,
  has_byte, has_byte-Lacks, arith,
}
use open_liberty_operator.Injector.{
  initial_state, writing, done, name, load, has_worker, start, status, linperf_file_name,
  callback_steps, succeeded, unlists, records_error, Event, reads, proceeds, after_events,
}
use open_liberty_operator.Injector.Message.{
  Request, receive, request, blank, newline, encode_linperf_attr, decode_linperf_attr,
}
use open_liberty_operator.Injector.Capacity.{IsWithin, after_events-IsWithin}
use open_liberty_operator.Injector.Lifecycle.{
  Call, starts, completes, called_all, interleaved, status_of_run,
}
use open_liberty_operator.Injector.RoundTrip.{
  IsField, IsValue, IsSendable, messages_of, receive-build_message, decode-encode,
}

abbrev some_events : List Event
some_events =
    reads (λ _. true) (codes "pod:ns:linperf:start:uid/7\npod:ns:linperf:setMaxWorkers:2\n")
    ∷ proceeds unlists (codes "ns:pod:7")
    ∷ reads (λ _. true) (codes "pod:ns:linperf:status:uid/7\n")
    ∷ proceeds (records_error (codes "lost")) (codes "ns:pod:7")
    ∷ []

after_events-IsWithin_example : IsWithin (after_events some_events initial_state)
after_events-IsWithin_example = after_events-IsWithin some_events

initial_state-IsWithin : IsWithin initial_state
initial_state-IsWithin = record {
  at_most = omega arith;
  least = omega arith;
  greatest = omega arith;
  distinct = tt;
}

abbrev other_calls : List (Call × Str)
other_calls = (starts true, codes "ns:other:8") ∷ (completes, codes "ns:other:8") ∷ []

status_of_run_example :
    let running = called_all other_calls (start true (codes "ns:pod:7") initial_state).0 in
    let finished =
      interleaved
        (codes "ns:pod:7")
        (callback_steps (succeeded (codes "f.tar.gz")))
        (other_calls ∷ [] ∷ other_calls ∷ [])
        running in
    (status (codes "ns:pod:7") running ≡ writing)
    × (status (codes "ns:pod:7") finished ≡ done)
    × (linperf_file_name (codes "ns:pod:7") finished ≡ name (codes "f.tar.gz"))
unfolding has_worker load str_beq
status_of_run_example =
    status_of_run (codes "ns:pod:7") (codes "f.tar.gz") initial_state other_calls other_calls []
      other_calls initial_state-IsWithin refl (omega arith) refl (refl, (refl, tt))
      ((refl, (refl, tt)), (tt, ((refl, (refl, tt)), tt)))

abbrev start_request : Request
start_request = record {
  pod_name = codes "pod";
  pod_namespace = codes "ns";
  tool = codes "linperf";
  action = codes "start";
  attrs = codes "uid/7";
}

field :
    (s : Str)
    → has_byte b':' s ≡ false
    → has_byte b' ' s ≡ false
    → has_byte newline s ≡ false
    → IsField s
field s h k l = (has_byte-Lacks b':' s h, has_byte-Lacks b' ' s k, has_byte-Lacks newline s l)

start-IsSendable : IsSendable start_request
unfolding has_byte
start-IsSendable = (
  field (codes "pod") refl refl refl,
  field (codes "ns") refl refl refl,
  field (codes "linperf") refl refl refl,
  field (codes "start") refl refl refl,
  field (codes "uid/7") refl refl refl,
)

receive-build_message_example :
    receive (messages_of (start_request ∷ start_request ∷ []))
    ≡ request start_request ∷ request start_request ∷ blank ∷ []
receive-build_message_example =
    receive-build_message (start_request ∷ start_request ∷ [])
      (start-IsSendable, (start-IsSendable, tt))

value :
    (s : Str)
    → has_byte b'|' s ≡ false
    → has_byte b'/' s ≡ false
    → has_byte b' ' s ≡ false
    → IsValue s
value s h k l = (has_byte-Lacks b'|' s h, has_byte-Lacks b'/' s k, has_byte-Lacks b' ' s l)

decode-encode_example :
    decode_linperf_attr (encode_linperf_attr (pos 240) (pos 30) (codes "7") (codes "data"))
    ≡ (codes "name", codes "data")
      ∷ (codes "uid", codes "7")
      ∷ (codes "interval", format_int (pos 30))
      ∷ (codes "timespan", format_int (pos 240))
      ∷ []
unfolding has_byte
decode-encode_example =
    decode-encode (pos 240) (pos 30) (codes "7") (codes "data") (value (codes "7") refl refl refl)
      (value (codes "data") refl refl refl)
