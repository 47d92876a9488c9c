-- ===== src/Injector/RoundTrip.antt =====
-- A request that a client builds is received as it is, and the attributes in it are decoded.
use open_liberty_operator.Common.{
  ℕ, Str, codes, nat_eq, str_eq, false, List, [], ◌∷◌, ◌++◌, split, join, split-append, map,
  append_assoc, has_byte, has_byte-Lacks, trim_left, trim_right, ℤ, format_int, All, All-append,
  Lacks, split-join, ◌≡◌, ◌≢◌, refl, sym, ap, ◌∙◌, inl, inr, arith, format_int-Lacks,
}
use mathlib.Core.List.{cons-ne-nil}
use open_liberty_operator.Injector.Message.{
  Attrs, encode_linperf_attr, decode_attrs, decode_linperf_attr, Request, build_message, receive,
  parse_message, request, receive_message, newline, blank,
}

trim_left-Lacks : (b : ℕ) (s : Str) → Lacks b s → trim_left b s ≡ s
unfolding trim_left
trim_left-Lacks b [] h = refl
trim_left-Lacks b (c ∷ s) h = ground (arith, h.0)

trim_right-Lacks : (b : ℕ) (s : Str) → Lacks b s → trim_right b s ≡ s
unfolding trim_right
trim_right-Lacks b [] h = refl
trim_right-Lacks b (c ∷ s) h = kept s (trim_right-Lacks b s h.1)
  where
    kept : (t : Str) → trim_right b t ≡ t → trim_right b (c ∷ t) ≡ c ∷ t
    kept [] e = ground (arith, h.0)
    kept (d ∷ t) e = rw e refl

-- The text is a field of a message: it holds no colon, no space and no newline.
abbrev pub IsField : Str → Type 0
IsField s = Lacks b':' s × Lacks b' ' s × Lacks newline s

abbrev pub IsSendable : Request → Type 0
IsSendable r =
    IsField r.pod_name
    × IsField r.pod_namespace
    × IsField r.tool
    × IsField r.action
    × IsField r.attrs

-- A message without its newline.
abbrev line_of : Request → Str
line_of r =
    r.pod_name
    ++ (b':' ∷ r.pod_namespace ++ (b':' ∷ r.tool ++ (b':' ∷ r.action ++ (b':' ∷ r.attrs))))

build_message-line_of :
    (r : Request) (rest : Str) → build_message r ++ rest ≡ line_of r ++ (newline ∷ rest)
unfolding build_message
build_message-line_of r rest = simp (append_assoc)

part-Lacks : (b : ℕ) (s t : Str) → b ≢ b':' → Lacks b s → Lacks b t → Lacks b (s ++ (b':' ∷ t))
part-Lacks b s t n h k = All-append (λ c. c ≢ b) s (b':' ∷ t) h ((λ e. n (sym e)), k)

line_of-Lacks :
    (b : ℕ) (r : Request)
    → b ≢ b':'
    → Lacks b r.pod_name
    → Lacks b r.pod_namespace
    → Lacks b r.tool
    → Lacks b r.action
    → Lacks b r.attrs
    → Lacks b (line_of r)
line_of-Lacks b r n p q t a x =
    part-Lacks b r.pod_name _ n p (
      part-Lacks b r.pod_namespace _ n q
        (part-Lacks b r.tool _ n t (part-Lacks b r.action _ n a x)))

line_of-ne-nil : (r : Request) → line_of r ≢ []
line_of-ne-nil r e = append-ne-nil r.pod_name (b':') _ e
  where
    append-ne-nil : (s : Str) (c : ℕ) (t : Str) → s ++ (c ∷ t) ≢ []
    append-ne-nil [] c t = cons-ne-nil c t
    append-ne-nil (d ∷ s) c t = cons-ne-nil d (s ++ (c ∷ t))

receive_message-line_of : (r : Request) → IsSendable r → receive_message (line_of r) ≡ request r
unfolding receive_message parse_message join
receive_message-line_of r (p, n, t, a, x) =
    let parts = r.pod_name ∷ r.pod_namespace ∷ r.tool ∷ r.action ∷ r.attrs ∷ [] in
    let spaces = line_of-Lacks b' ' r (λ e. ground (arith, e)) p.1 n.1 t.1 a.1 x.1 in
    let trimmed : trim_right b' ' (trim_left b' ' (line_of r)) ≡ line_of r =
      ap (trim_right b' ') (trim_left-Lacks b' ' (line_of r) spaces)
      ∙ trim_right-Lacks b' ' (line_of r) spaces in
    let cut : split b':' (line_of r) ≡ parts =
      split-join b':' parts (cons-ne-nil _ _) (p.0, (n.0, (t.0, (a.0, (x.0, tt))))) in
    rw trimmed (parsed (line_of r) (line_of-ne-nil r) cut)
  where
    parsed :
        (s : Str)
        → s ≢ []
        → split b':' s ≡ r.pod_name ∷ r.pod_namespace ∷ r.tool ∷ r.action ∷ r.attrs ∷ []
        → parse_message s ≡ request r
    parsed [] h e = absurd (h refl)
    parsed (c ∷ s) h e = rw (parse_message, e) refl

-- Messages that are sent one behind the other.
abbrev pub messages_of : List Request → Str
messages_of [] = []
messages_of (r ∷ rs) = build_message r ++ messages_of rs

-- One read of `handleConnection` of the messages that `buildMessage` wrote for some requests receives these
-- requests in their order, and a blank message behind them that is skipped, when no part of a
-- request holds a colon, a space or a newline.
pub receive-build_message :
    (rs : List Request)
    → All IsSendable rs
    → receive (messages_of rs) ≡ map request rs ++ (blank ∷ [])
unfolding receive split
receive-build_message [] h = unfold receive_message parse_message trim_left trim_right in refl
receive-build_message (r ∷ rs) ((p, n, t, a, x), hs) =
    let lines = line_of-Lacks newline r (λ e. ground (arith, e)) p.2 n.2 t.2 a.2 x.2 in
    let first : split newline (messages_of (r ∷ rs)) ≡ line_of r ∷ split newline (messages_of rs) =
      ap (split newline) (build_message-line_of r (messages_of rs))
      ∙ split-append newline (line_of r) (messages_of rs) lines in
    ap (map receive_message) first
    ∙ ap (λ q. q ∷ map receive_message (split newline (messages_of rs)))
        (receive_message-line_of r (p, n, t, a, x))
    ∙ ap (λ qs. request r ∷ qs) (receive-build_message rs hs)

-- An attribute's text: no separator of the attributes and no space.
abbrev pub IsValue : Str → Type 0
IsValue s = Lacks b'|' s × Lacks b'/' s × Lacks b' ' s

entry : Str → Str → Str
entry k v = k ++ (b'/' ∷ v)

decode-entry :
    (k v : Str) (attrs : List Str) (m : Attrs)
    → Lacks b'/' k
    → Lacks b'/' v
    → decode_attrs (entry k v ∷ attrs) m ≡ decode_attrs attrs ((k, v) ∷ m)
unfolding decode_attrs entry join
decode-entry k v attrs m hk hv =
    let cut : split b'/' (k ++ (b'/' ∷ v)) ≡ k ∷ v ∷ [] =
      split-join b'/' (k ∷ v ∷ []) (cons-ne-nil _ _) (hk, (hv, tt)) in
    rw (decode_attrs, cut) refl

entry-Lacks : (b : ℕ) (k v : Str) → b ≢ b'/' → Lacks b k → Lacks b v → Lacks b (entry k v)
unfolding entry
entry-Lacks b k v n hk hv = All-append (λ c. c ≢ b) k (b'/' ∷ v) hk ((λ e. n (sym e)), hv)

join-Lacks : (b sep : ℕ) (ps : List Str) → b ≢ sep → All (Lacks b) ps → Lacks b (join sep ps)
unfolding join
join-Lacks b sep [] n h = tt
join-Lacks b sep (p ∷ []) n h = h.0
join-Lacks b sep (p ∷ q ∷ ps) n (hp, h) =
    All-append (λ c. c ≢ b) p (sep ∷ join sep (q ∷ ps)) hp
      ((λ e. n (sym e)), join-Lacks b sep (q ∷ ps) n h)

format_int-IsValue : (z : ℤ) → IsValue (format_int z)
format_int-IsValue z = (
  format_int-Lacks b'|' z (inr (omega arith)) (λ e. ground (arith, e)),
  format_int-Lacks b'/' z (inl (omega arith)) (λ e. ground (arith, e)),
  format_int-Lacks b' ' z (inl (omega arith)) (λ e. ground (arith, e)),
)

module _ (timespan interval : ℤ) (uid instance_name : Str) where
  entries : List Str
  entries =
      entry (codes "timespan") (format_int timespan)
      ∷ entry (codes "interval") (format_int interval)
      ∷ entry (codes "uid") uid
      ∷ entry (codes "name") instance_name
      ∷ []

  encode-join : encode_linperf_attr timespan interval uid instance_name ≡ join b'|' entries
  unfolding encode_linperf_attr join entry entries
  encode-join = refl

  keys : List Str
  keys = codes "timespan" ∷ codes "interval" ∷ codes "uid" ∷ codes "name" ∷ []

  keys-Lacks : (b : ℕ) → All (λ k. has_byte b k ≡ false) keys → All (Lacks b) keys
  unfolding keys
  keys-Lacks b (t, (i, (u, (n, _)))) = (
    has_byte-Lacks b (codes "timespan") t,
    (
      has_byte-Lacks b (codes "interval") i,
      (has_byte-Lacks b (codes "uid") u, (has_byte-Lacks b (codes "name") n, tt)),
    ),
  )

  entries-Lacks :
      (b : ℕ)
      → b ≢ b'/'
      → All (Lacks b) keys
      → Lacks b (format_int timespan)
      → Lacks b (format_int interval)
      → Lacks b uid
      → Lacks b instance_name
      → All (Lacks b) entries
  unfolding entries keys
  entries-Lacks b n (kt, (ki, (ku, (kn, _)))) ht hi hu hn = (
    entry-Lacks b (codes "timespan") (format_int timespan) n kt ht,
    (
      entry-Lacks b (codes "interval") (format_int interval) n ki hi,
      (
        entry-Lacks b (codes "uid") uid n ku hu,
        (entry-Lacks b (codes "name") instance_name n kn hn, tt),
      ),
    ),
  )

  encoded-trimmed : (s : Str) → Lacks b' ' s → trim_right b' ' (trim_left b' ' s) ≡ s
  encoded-trimmed s h = ap (trim_right b' ') (trim_left-Lacks b' ' s h) ∙ trim_right-Lacks b' ' s h

  -- `DecodeLinperfAttr` gives back the attributes that `EncodeLinperfAttr` wrote, for a uid and a name without
  -- a separator or a space.
  pub decode-encode :
      IsValue uid
      → IsValue instance_name
      → decode_linperf_attr (encode_linperf_attr timespan interval uid instance_name)
        ≡ (codes "name", instance_name)
          ∷ (codes "uid", uid)
          ∷ (codes "interval", format_int interval)
          ∷ (codes "timespan", format_int timespan)
          ∷ []
  unfolding decode_linperf_attr entries keys has_byte decode_attrs
  decode-encode hu hn =
      let ht = format_int-IsValue timespan in
      let hi = format_int-IsValue interval in
      let bars =
        entries-Lacks b'|' (λ e. ground (arith, e))
          (keys-Lacks b'|' (refl, (refl, (refl, (refl, tt))))) ht.0 hi.0 hu.0 hn.0 in
      let spaces =
        entries-Lacks b' ' (λ e. ground (arith, e))
          (keys-Lacks b' ' (refl, (refl, (refl, (refl, tt))))) ht.2 hi.2 hu.2 hn.2 in
      let (kt, (ki, (ku, (kn, _)))) = keys-Lacks b'/' (refl, (refl, (refl, (refl, tt)))) in
      let trimmed =
        encoded-trimmed (join b'|' entries)
          (join-Lacks b' ' b'|' entries (λ e. ground (arith, e)) spaces) in
      let cut = split-join b'|' entries (cons-ne-nil _ _) bars in
      let e_interval = entry (codes "interval") (format_int interval) in
      let e_uid = entry (codes "uid") uid in
      let e_name = entry (codes "name") instance_name in
      let m_timespan : Str × Str = (codes "timespan", format_int timespan) in
      let m_interval : Str × Str = (codes "interval", format_int interval) in
      let m_uid : Str × Str = (codes "uid", uid) in
      rw (encode-join, trimmed, cut)
        (decode-entry (codes "timespan") (format_int timespan) (e_interval ∷ e_uid ∷ e_name ∷ []) []
            kt ht.1
          ∙ decode-entry (codes "interval") (format_int interval) (e_uid ∷ e_name ∷ [])
              (m_timespan ∷ []) ki hi.1
          ∙ decode-entry (codes "uid") uid (e_name ∷ []) (m_interval ∷ m_timespan ∷ []) ku hu.1
          ∙ decode-entry (codes "name") instance_name [] (m_uid ∷ m_interval ∷ m_timespan ∷ []) kn
              hn.1)
