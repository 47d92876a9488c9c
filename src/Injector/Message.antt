-- ===== src/Injector/Message.antt =====
-- The messages of the pod injector's socket (utils/socket/pod_injector.go), and the attributes in their payload
-- (utils/utils.go).
use open_liberty_operator.Common.{
  ℕ, map, Str, codes, ◌==◌, str_eq, nat_eq, List, [], ◌∷◌, ◌++◌, if◌then◌else◌, split, trim_left,
  trim_right, ℤ, format_int,
}

abbrev pub Attrs : Type 0
Attrs = List (Str × Str)

-- `EncodeLinperfAttr` of the instance's timespan, interval, uid and name.
unfoldable pub encode_linperf_attr : ℤ → ℤ → Str → Str → Str
encode_linperf_attr timespan interval uid instance_name =
    codes "timespan/"
    ++ (format_int timespan
        ++ (codes "|interval/"
            ++ (format_int interval
                ++ (codes "|uid/" ++ (uid ++ (codes "|name/" ++ instance_name))))))

-- The loop of `DecodeLinperfAttr`; a later entry stands in front of an earlier one.
unfoldable pub decode_attrs : List Str → Attrs → Attrs
decode_attrs [] m = m
decode_attrs (attr ∷ attrs) m = elim (split b'/' attr) [
  | k ∷ v ∷ [] ↦ decode_attrs attrs ((k, v) ∷ m)
  | _ ↦ decode_attrs attrs m
]

-- `DecodeLinperfAttr`.
unfoldable pub decode_linperf_attr : Str → Attrs
unfolding decode_attrs
decode_linperf_attr encoded =
    decode_attrs (split b'|' (trim_right b' ' (trim_left b' ' encoded))) []

-- The value of a key, empty when it is missing.
unfoldable pub attr_of : Str → Attrs → Str
attr_of k [] = []
attr_of k ((k', v) ∷ m) = if k' == k then v else attr_of k m

pub record Request : Type 0 where
  pub pod_name : Str
  pub pod_namespace : Str
  pub tool : Str
  pub action : Str
  pub attrs : Str

abbrev pub newline : ℕ
newline = 10

-- `buildMessage`.
unfoldable pub build_message : Request → Str
build_message r =
    r.pod_name
    ++ (b':' ∷ r.pod_namespace
        ++ (b':' ∷ r.tool ++ (b':' ∷ r.action ++ (b':' ∷ r.attrs ++ (newline ∷ [])))))

-- A message of a connection: none for a blank line, and the parts of one with five of them.
pub data Received : Type 0 where
  blank malformed : Received
  request : Request → Received

-- What `handleConnection` makes of one message without spaces around it.
unfoldable pub parse_message : Str → Received
parse_message [] = blank
parse_message (c ∷ rest) = elim (split b':' (c ∷ rest)) [
  | p ∷ n ∷ t ∷ a ∷ x ∷ [] ↦
      request (record { pod_name = p; pod_namespace = n; tool = t; action = a; attrs = x })
  | _ ↦ malformed
]

-- A message, with the spaces around it cut.
unfoldable pub receive_message : Str → Received
unfolding parse_message
receive_message message = parse_message (trim_right b' ' (trim_left b' ' message))

-- The messages of one read of `handleConnection`.
unfoldable pub receive : Str → List Received
unfolding receive_message
receive read = map receive_message (split newline read)
