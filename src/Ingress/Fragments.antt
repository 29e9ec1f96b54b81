-- ===== src/Ingress/Fragments.antt =====
-- A ClientHello that is cut into records (ingressgateway/clienthello.go).
use guangyue_panel.Prelude.{
  ℕ, zero, suc, ◌+◌, ◌-◌, ◌*◌, ◌/◌, ◌%◌, ◌≤◌, ◌<◌, ◌≡◌, ◌∙◌, refl, sym, ap, true, false, ◌&&◌, List,
  [], ◌∷◌, ◌++◌, if◌then◌else◌, ltb, leb, nat_eq, arith, Bool-cases, inl, inr, All, length, take,
  drop, length-append, Result, ok, ◌>>=◌,
}
use mathlib.Core.List.{append_assoc, append-nil}
use guangyue_panel.Ingress.{
  Bytes, byte_at, declared, ClientHello, read_full, record_size, good_header, wanted_size,
  finish_hello, read_records, read_client_hello,
}

-- A record of TLS: the last byte of its version, and what it carries.
pub record Fragment : Type 0 where
  pub version : ℕ
  pub bytes : Bytes

abbrev pub IsFragment : Fragment → Type 0
IsFragment f = (f.version ≤ 3) × (0 < length f.bytes) × (length f.bytes ≤ 18432)

abbrev pub header_of : Fragment → Bytes
header_of f = 22 ∷ 3 ∷ f.version ∷ length f.bytes / 256 ∷ length f.bytes % 256 ∷ []

abbrev pub record_of : Fragment → Bytes
record_of f = header_of f ++ f.bytes

abbrev pub wire : List Fragment → Bytes
wire [] = []
wire (f ∷ fs) = record_of f ++ wire fs

abbrev pub content : List Fragment → Bytes
content [] = []
content (f ∷ fs) = f.bytes ++ content fs

-- A ClientHello with its length in front.
pub record Message : Type 0 where
  pub high : ℕ
  pub middle : ℕ
  pub low : ℕ
  pub body : Bytes

abbrev pub IsMessage : Message → Type 0
IsMessage m =
    (length m.body ≡ m.high * 65536 + m.middle * 256 + m.low)
    × (38 ≤ length m.body)
    × (length m.body ≤ 65527)

abbrev pub bytes_of : Message → Bytes
bytes_of m = 1 ∷ m.high ∷ m.middle ∷ m.low ∷ m.body

pub take-length : (xs ys : Bytes) → take (length xs) (xs ++ ys) ≡ xs
take-length [] ys = refl
take-length (x ∷ xs) ys = rw (take-length xs ys)

pub drop-length : (xs ys : Bytes) → drop (length xs) (xs ++ ys) ≡ ys
drop-length [] ys = refl
drop-length (x ∷ xs) ys = drop-length xs ys

byte_at-append : (i : ℕ) (xs ys : Bytes) → i < length xs → byte_at i (xs ++ ys) ≡ byte_at i xs
byte_at-append i [] ys h = absurd (omega (arith, h))
byte_at-append zero (x ∷ xs) ys h = refl
byte_at-append (suc i) (x ∷ xs) ys h = byte_at-append i xs ys (omega (arith, h))

read_full-append : (xs ys : Bytes) (n : ℕ) → n ≡ length xs → read_full n (xs ++ ys) ≡ ok (xs, ys)
read_full-append xs ys n e =
    let enough : leb (length xs) (length (xs ++ ys)) ≡ true = ground (arith, length-append xs ys) in
    rw e (rw (enough, take-length xs ys, drop-length xs ys) refl)

joined : (raw h b w l : Bytes) → (raw ++ h ++ b) ++ (w ++ l) ≡ raw ++ (((h ++ b) ++ w) ++ l)
joined raw h b w l =
    ap (λ x. x ++ (w ++ l)) (append_assoc raw h b)
    ∙ append_assoc raw (h ++ b) (w ++ l)
    ∙ ap (λ x. raw ++ x) (sym (append_assoc (h ++ b) w l))

-- What a round does with what it has read.
abbrev then_rounds : (Bytes → Bytes) → ℕ → Bytes → Bytes → Bytes → ℕ → Result (ClientHello × Bytes)
then_rounds lower records raw body s wanted =
    if ltb 0 wanted && leb wanted (length body)
    then finish_hello lower raw (take (wanted - 4) (drop 4 body)) s
    else read_records lower records raw body wanted s

size_of : (f : Fragment) → record_size (header_of f) ≡ length f.bytes
size_of f = omega arith

good_record :
    (raw : Bytes) (f : Fragment)
    → IsFragment f
    → length raw + (5 + length f.bytes) ≤ 65536
    → good_header raw (header_of f) ≡ true
good_record raw f ok' room = rw (size_of f) (ground (arith, ok'.0, ok'.1, ok'.2, room))

-- A round on a record.
read_one :
    (lower : Bytes → Bytes) (records : ℕ) (raw body : Bytes) (wanted : ℕ) (f : Fragment) (s : Bytes)
    → IsFragment f
    → length raw + (5 + length f.bytes) ≤ 65536
    → read_records lower (suc records) raw body wanted (record_of f ++ s) ≡ (
        wanted_size (body ++ f.bytes) wanted
        >>= then_rounds lower records (raw ++ header_of f ++ f.bytes) (body ++ f.bytes) s)
unfolding read_records
read_one lower records raw body wanted f s good room =
    let e1 = read_full-append (header_of f) (f.bytes ++ s) 5 refl in
    let e2 = good_record raw f good room in
    let e3 = read_full-append f.bytes s (record_size (header_of f)) (size_of f) in
    rw (e1, e2, e3) refl

module _ (lower : Bytes → Bytes) (m : Message) (is_message : IsMessage m) where
  abbrev total : ℕ
  total = length (bytes_of m)

  -- What is wanted when so much of the message is there.
  abbrev known : Bytes → ℕ
  known body = if leb 4 (length body) then total else 0

  same_head :
      (body more extra : Bytes) (i : ℕ)
      → body ++ more ≡ bytes_of m ++ extra
      → i < length body
      → byte_at i body ≡ byte_at i (bytes_of m ++ extra)
  same_head body more extra i e h = sym (byte_at-append i body more h) ∙ ap (byte_at i) e

  -- The size is read from the first bytes of the message, once.
  wanted_size-known :
      (body piece more extra : Bytes)
      → (body ++ piece) ++ more ≡ bytes_of m ++ extra
      → wanted_size (body ++ piece) (known body) ≡ ok (known (body ++ piece))
  wanted_size-known body piece more extra e =
      let longer = length-append body piece in
      elim (Bool-cases (leb 4 (length (body ++ piece)))) [
        | inl there ↦ elim (Bool-cases (leb 4 (length body))) [
          | inl before ↦ rw (there, before) (ground arith)
          | inr new ↦
              let all' = body ++ piece in
              let long : 4 ≤ length all' = ground (arith, there) in
              let h0 = same_head all' more extra 0 e (omega (arith, long)) in
              let h1 = same_head all' more extra 1 e (omega (arith, long)) in
              let h2 = same_head all' more extra 2 e (omega (arith, long)) in
              let h3 = same_head all' more extra 3 e (omega (arith, long)) in
              let d : declared all' ≡ total = rw (h1, h2, h3) (omega (arith, is_message.0)) in
              let low : leb 42 total ≡ true = ground (arith, is_message.1) in
              let high : leb total 65531 ≡ true = ground (arith, is_message.2) in
              rw (there, new, h0, d) (rw (low, high) refl)
        ]
        | inr few ↦
            let fewer : leb 4 (length body) ≡ false = ground (arith, few, longer) in
            rw (few, fewer) refl
      ]

  unfinished :
      (body : Bytes)
      → length body < total
      → (ltb 0 (known body) && leb (known body) (length body)) ≡ false
  unfinished body short = ground (arith, short)

  complete :
      (body extra : Bytes)
      → body ≡ bytes_of m ++ extra
      → ((ltb 0 (known body) && leb (known body) (length body)) ≡ true)
        × (take (known body - 4) (drop 4 body) ≡ m.body)
  complete body extra e =
      let size : length body ≡ total + length extra =
        ap length e ∙ length-append (bytes_of m) extra in
      let there : leb 4 (length body) ≡ true = ground (arith, size) in
      let reached : leb total (length body) ≡ true = ground (arith, size) in
      (
        rw (there, reached) (ground arith),
        let four : total - 4 ≡ length m.body = omega arith in
            rw (there, four)
              (ap (λ x. take (length m.body) (drop 4 x)) e ∙ take-length m.body extra),
      )

  rounds :
      (fs : List Fragment) (records : ℕ) (raw body : Bytes) (last : Fragment) (extra rest : Bytes)
      → All IsFragment fs
      → IsFragment last
      → length fs < records
      → length raw + (length (wire fs) + (5 + length last.bytes)) ≤ 65536
      → body ++ (content fs ++ last.bytes) ≡ bytes_of m ++ extra
      → length body + length (content fs) < total
      → read_records lower records raw body (known body) (wire fs ++ (record_of last ++ rest))
        ≡ finish_hello lower (raw ++ (wire fs ++ record_of last)) m.body rest
  rounds fs zero raw body last extra rest good good_last enough room e short =
      absurd (omega (arith, enough))
  rounds [] (suc records) raw body last extra rest good good_last enough room e short =
      let body' = body ++ last.bytes in
      let c = complete body' extra e in
      let raw' = raw ++ header_of last ++ last.bytes in
      let k = wanted_size-known body last.bytes [] extra (append-nil (body ++ last.bytes) ∙ e) in
      read_one lower records raw body (known body) last rest good_last (omega (arith, room))
      ∙ ap (λ x. x >>= then_rounds lower records raw' body' rest) k
      ∙ rw c.0 (
          ap (λ x. finish_hello lower raw' x rest) c.1
          ∙ ap (λ x. finish_hello lower x m.body rest)
              (append_assoc raw (header_of last) last.bytes))
  rounds (f ∷ fs) (suc records) raw body last extra rest good good_last enough room e short =
      let tail = record_of last ++ rest in
      let body' = body ++ f.bytes in
      let raw' = raw ++ header_of f ++ f.bytes in
      let sizes = length-append body f.bytes in
      let regrouped : body' ++ (content fs ++ last.bytes) ≡ bytes_of m ++ extra =
        append_assoc body f.bytes (content fs ++ last.bytes)
        ∙ ap (λ x. body ++ x) (sym (append_assoc f.bytes (content fs) last.bytes))
        ∙ e in
      let more = length-append f.bytes (content fs) in
      let grown = length-append (raw ++ header_of f) f.bytes in
      let started = length-append raw (header_of f) in
      let sent = length-append (record_of f) (wire fs) in
      let k = wanted_size-known body f.bytes (content fs ++ last.bytes) extra regrouped in
      let u = unfinished body' (omega (arith, sizes, more, short)) in
      let ih =
        rounds fs records raw' body' last extra rest good.1 good_last (omega (arith, enough))
          (omega (arith, grown, started, sent, room)) regrouped
          (omega (arith, sizes, more, short)) in
      ap (read_records lower (suc records) raw body (known body))
        (append_assoc (record_of f) (wire fs) tail)
      ∙ read_one lower records raw body (known body) f (wire fs ++ tail) good.0
          (omega (arith, sent, room))
      ∙ ap (λ x. x >>= then_rounds lower records raw' body' (wire fs ++ tail)) k
      ∙ rw u (
          ih
          ∙ ap (λ x. finish_hello lower x m.body rest)
              (joined raw (header_of f) f.bytes (wire fs) (record_of last)))

-- A ClientHello of 42 to 65531 bytes, with its size in front, may be cut into at most 128 records
-- of at most 18432 bytes, 65536 with their headers, none of them empty, and the last of them may
-- carry more behind it: reading the records, whatever follows them, comes to parsing the body of
-- the message, keeps the bytes of these records, and leaves what follows.
pub read_client_hello-fragments :
    (lower : Bytes → Bytes) (m : Message) (fs : List Fragment) (last : Fragment)
    (extra rest : Bytes)
    → IsMessage m
    → All IsFragment fs
    → IsFragment last
    → length fs < 128
    → length (wire fs ++ record_of last) ≤ 65536
    → content fs ++ last.bytes ≡ bytes_of m ++ extra
    → length (content fs) < length (bytes_of m)
    → read_client_hello lower (wire fs ++ (record_of last ++ rest))
      ≡ finish_hello lower (wire fs ++ record_of last) m.body rest
unfolding read_client_hello
read_client_hello-fragments lower m fs last extra rest is_message good good_last enough room e
      short =
    rounds lower m is_message fs 128 [] [] last extra rest good good_last enough
      (omega (arith, length-append (wire fs) (record_of last), room)) e (omega (arith, short))
