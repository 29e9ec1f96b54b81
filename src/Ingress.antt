-- ===== src/Ingress.antt =====
-- `readClientHello` and `parseHelloBody` of ingressgateway/clienthello.go, with `validDomain` of
-- ingressgateway/config.go. Bytes are numbers; a connection is the bytes that will arrive on it.
pub mod Replay
pub mod Fragments
pub mod Offers
pub mod Parse
use guangyue_panel.Prelude.{
  ℕ, zero, suc, ◌+◌, ◌-◌, ◌*◌, ◌%◌, Bool, true, false, not, ◌&&◌, ◌||◌, List, [], ◌∷◌, ◌++◌,
  if◌then◌else◌, ltb, leb, ◌==◌, nat_eq, any, length, take, drop, Result, ok, err, ◌>>=◌, ◌>>◌,
  guard, short_read, bad_record, not_hello, hello_length, hello_fragments, bad_hello,
  bad_server_name, no_server_name, mixed_acme, out_of_rounds,
}

abbrev pub Bytes : Type 0
Bytes = List ℕ

-- Equal bytes.
abbrev pub same_bytes : Bytes → Bytes → Bool
same_bytes [] [] = true
same_bytes (x ∷ xs) (y ∷ ys) = x == y && same_bytes xs ys
same_bytes _ _ = false

-- b[i]; the code stays within the bounds.
abbrev pub byte_at : ℕ → Bytes → ℕ
byte_at i [] = 0
byte_at zero (x ∷ xs) = x
byte_at (suc i) (x ∷ xs) = byte_at i xs

abbrev pub alphanumeric : ℕ → Bool
alphanumeric b = leb 97 b && leb b 122 || leb 48 b && leb b 57

-- Where the pattern of domains is: before a label, after a character that may end one, or after a
-- dash.
pub data Place : Type 0 where
  label_start label_end label_dash : Place

abbrev pub may_end : Place → Bool
may_end label_end = true
may_end _ = false

abbrev pub begins : Place → Bool
begins label_start = true
begins _ = false

-- The pattern of `domainPattern` from a place on; `dotted` tells that a label has ended before.
unfoldable pub domain_from : Place → Bool → Bytes → Bool
domain_from place dotted [] = may_end place && dotted
domain_from place dotted (b ∷ bs) =
    let next_label = domain_from label_start true bs in
    let next = domain_from label_end dotted bs in
    let dash = domain_from label_dash dotted bs in
    if b == 46
    then may_end place && next_label
    else if alphanumeric b
    then next
    else b == 45 && not (begins place) && dash

unfoldable pub valid_domain : Bytes → Bool
unfolding domain_from
valid_domain s = leb (length s) 63 && domain_from label_start false s

-- `helloCursor`: what has been taken, and the cursor after it.
unfoldable pub take_bytes : ℕ → Bytes → Result (Bytes × Bytes)
take_bytes n c = if leb n (length c) then ok (take n c, drop n c) else err bad_hello

unfoldable pub u8 : Bytes → Result (ℕ × Bytes)
unfolding take_bytes
u8 c = do (b, rest) ← take_bytes 1 c; ok (byte_at 0 b, rest)

unfoldable pub u16 : Bytes → Result (ℕ × Bytes)
unfolding take_bytes
u16 c = do (b, rest) ← take_bytes 2 c; ok (byte_at 0 b * 256 + byte_at 1 b, rest)

-- What the extensions have given.
pub record Offered : Type 0 where
  pub name : Bytes
  pub protocols : List Bytes

abbrev pub is_empty : Bytes → Bool
is_empty [] = true
is_empty (b ∷ bs) = false

-- The loop over server names; `lower` is `strings.ToLower`.
unfoldable pub server_names : (Bytes → Bytes) → ℕ → Bytes → Bytes → Result Bytes
unfolding u8 u16 take_bytes valid_domain
server_names lower rounds name [] = ok name
server_names lower zero name e = err out_of_rounds
server_names lower (suc rounds) name e = do
  (kind, e) ← u8 e
  guard (kind == 0 && is_empty name) bad_hello
  (size, e) ← u16 e
  (v, e) ← take_bytes size e
  guard (valid_domain (lower v)) bad_server_name
  server_names lower rounds (lower v) e

unfoldable pub protocol_names : ℕ → List Bytes → Bytes → Result (List Bytes)
unfolding u8 take_bytes
protocol_names rounds protocols [] = ok protocols
protocol_names zero protocols e = err out_of_rounds
protocol_names (suc rounds) protocols e = do
  (size, e) ← u8 e
  guard (not (size == 0)) bad_hello
  (v, e) ← take_bytes size e
  protocol_names rounds (protocols ++ v ∷ []) e

-- One extension; of a kind other than 0 and 16 nothing is read.
unfoldable pub extension : (Bytes → Bytes) → ℕ → Bytes → Offered → Result Offered
unfolding server_names protocol_names u16
extension lower kind value o =
    if kind == 0
    then (do
      (size, e) ← u16 value
      guard (size == length e) bad_hello
      name ← server_names lower (length e) o.name e
      ok (record o { name = name }))
    else if kind == 16
    then (do
      (size, e) ← u16 value
      guard (size == length e && not (size == 0)) bad_hello
      protocols ← protocol_names (length e) o.protocols e
      ok (record o { protocols = protocols }))
    else ok o

unfoldable pub extensions : (Bytes → Bytes) → ℕ → List ℕ → Offered → Bytes → Result Offered
unfolding extension u16 take_bytes
extensions lower rounds seen o [] = ok o
extensions lower zero seen o c = err out_of_rounds
extensions lower (suc rounds) seen o c = do
  (kind, c) ← u16 c
  (size, c) ← u16 c
  (value, c) ← take_bytes size c
  guard (not (any (λ k. k == kind) seen)) bad_hello
  o' ← extension lower kind value o
  extensions lower rounds (kind ∷ seen) o' c

-- "acme-tls/1".
abbrev pub acme_protocol : Bytes
acme_protocol = 97 ∷ 99 ∷ 109 ∷ 101 ∷ 45 ∷ 116 ∷ 108 ∷ 115 ∷ 47 ∷ 49 ∷ []

abbrev pub good_protocols : List Bytes → Bool
good_protocols protocols = not (any (same_bytes acme_protocol) protocols) || length protocols == 1

unfoldable pub parse_hello_body : (Bytes → Bytes) → Bytes → Result Offered
unfolding take_bytes u8 u16 extensions
parse_hello_body lower b = do
  (random, c) ← take_bytes 34 b
  (n, c) ← u8 c
  guard (leb n 32) bad_hello
  (session, c) ← take_bytes n c
  (n, c) ← u16 c
  guard (leb 2 n && n % 2 == 0) bad_hello
  (ciphers, c) ← take_bytes n c
  (n, c) ← u8 c
  guard (not (n == 0)) bad_hello
  (compressions, c) ← take_bytes n c
  (n, c) ← u16 c
  guard (n == length c) bad_hello
  o ← extensions lower (length c) [] (record { name = []; protocols = [] }) c
  guard (not (is_empty o.name)) no_server_name
  guard (good_protocols o.protocols) mixed_acme
  ok o

pub record ClientHello : Type 0 where
  pub offered : Offered
  pub raw : Bytes

abbrev pub read_full : ℕ → Bytes → Result (Bytes × Bytes)
read_full n s = if leb n (length s) then ok (take n s, drop n s) else err short_read

abbrev pub record_size : Bytes → ℕ
record_size h = byte_at 3 h * 256 + byte_at 4 h

abbrev pub good_header : Bytes → Bytes → Bool
good_header raw h =
    byte_at 0 h == 22
    && byte_at 1 h == 3
    && leb (byte_at 2 h) 3
    && not (record_size h == 0)
    && leb (record_size h) 18432
    && leb (length raw + (5 + record_size h)) 65536

abbrev pub declared : Bytes → ℕ
declared body = 4 + byte_at 1 body * 65536 + byte_at 2 body * 256 + byte_at 3 body

-- The size that the message declares, once its first four bytes are there.
abbrev pub wanted_size : Bytes → ℕ → Result ℕ
wanted_size body wanted =
    if leb 4 (length body) && wanted == 0
    then (do
      guard (byte_at 0 body == 1) not_hello
      guard (leb 42 (declared body) && leb (declared body) 65531) hello_length
      ok (declared body))
    else ok wanted

-- The message is complete.
abbrev pub finish_hello : (Bytes → Bytes) → Bytes → Bytes → Bytes → Result (ClientHello × Bytes)
finish_hello lower raw message rest = do
  o ← parse_hello_body lower message
  ok (record { offered = o; raw = raw }, rest)

-- The loop over records: at most `records` more. The second result is what is still to arrive.
unfoldable pub read_records :
    (Bytes → Bytes) → ℕ → Bytes → Bytes → ℕ → Bytes → Result (ClientHello × Bytes)
unfolding parse_hello_body
read_records lower zero raw body wanted s = err hello_fragments
read_records lower (suc records) raw body wanted s = do
  (h, s) ← read_full 5 s
  guard (good_header raw h) bad_record
  (b, s) ← read_full (record_size h) s
  wanted' ← wanted_size (body ++ b) wanted
  let more = read_records lower records (raw ++ h ++ b) (body ++ b) wanted' s in
      if ltb 0 wanted' && leb wanted' (length (body ++ b))
      then finish_hello lower (raw ++ h ++ b) (take (wanted' - 4) (drop 4 (body ++ b))) s
      else more

unfoldable pub read_client_hello : (Bytes → Bytes) → Bytes → Result (ClientHello × Bytes)
unfolding read_records
read_client_hello lower s = read_records lower 128 [] [] 0 s
