-- ===== src/Ingress/Replay.antt =====
-- What `readClientHello` of ingressgateway/clienthello.go has consumed, for its replay.
use guangyue_panel.Prelude.{
  subst, ℕ, zero, suc, ◌-◌, ◌≤◌, ◌≡◌, ◌∙◌, refl, ap, true, ◌&&◌, [], ◌++◌, if_true, if_false, ltb,
  leb, nat_eq, arith, Bool-cases, inl, inr, length, take, drop, take-append-drop, length-append,
  length-take, ok, err, >>=-eq-ok, guard-eq-ok, short_read, bad_record,
}
use mathlib.Core.List.{append_assoc}
use guangyue_panel.Ingress.{
  Bytes, parse_hello_body, ClientHello, read_full, record_size, good_header, wanted_size,
  finish_hello, read_records, read_client_hello,
}

-- What has been read and what is still to arrive make up the stream, and the first part is bounded.
abbrev pub Replays : Bytes → Bytes → ClientHello × Bytes → Type 0
Replays raw s r = (r.0.raw ++ r.1 ≡ raw ++ s) × (length r.0.raw ≤ 65536)

read_full-ok :
    (n : ℕ) (s : Bytes) (r : Bytes × Bytes)
    → read_full n s ≡ ok r
    → (r.0 ++ r.1 ≡ s) × (length r.0 ≡ n)
read_full-ok n s r h = elim (Bool-cases (leb n (length s))) [
  | inl enough ↦
      let e = if_true (ok (take n s, drop n s)) (err short_read) enough h in
      let same : (take n s, drop n s) ≡ r = cc e in
      (
        subst (λ x. x.0 ++ x.1 ≡ s) same (take-append-drop n s),
        subst (λ x. length x.0 ≡ n) same (ground (arith, enough, length-take n s)),
      )
  | inr few ↦ cc (if_false (ok (take n s, drop n s)) (err short_read) few h)
]

parts : (raw h b s1 s2 s : Bytes) → h ++ s1 ≡ s → b ++ s2 ≡ s1 → (raw ++ h ++ b) ++ s2 ≡ raw ++ s
parts raw h b s1 s2 s e f =
    append_assoc (raw ++ h) b s2
    ∙ ap (λ x. (raw ++ h) ++ x) f
    ∙ append_assoc raw h s1
    ∙ ap (λ x. raw ++ x) e

within :
    (raw h b : Bytes)
    → good_header raw h ≡ true
    → length h ≡ 5
    → length b ≡ record_size h
    → length (raw ++ h ++ b) ≤ 65536
within raw h b good five all' =
    ground (arith, good, five, all', length-append (raw ++ h) b, length-append raw h)

finish-Replays :
    (lower : Bytes → Bytes) (raw message rest : Bytes) (r : ClientHello × Bytes)
    → length raw ≤ 65536
    → finish_hello lower raw message rest ≡ ok r
    → Replays raw rest r
finish-Replays lower raw message rest r small h =
    let p = >>=-eq-ok (parse_hello_body lower message) _ h in
    let same : (record { offered = p.0; raw = raw }, rest) ≡ r = cc p.2 in
    subst (Replays raw rest) same (refl, small)

read_records-Replays :
    (lower : Bytes → Bytes) (records : ℕ) (raw body : Bytes) (wanted : ℕ) (s : Bytes)
    (r : ClientHello × Bytes)
    → read_records lower records raw body wanted s ≡ ok r
    → Replays raw s r
unfolding read_records
read_records-Replays lower zero raw body wanted s r h = cc h
read_records-Replays lower (suc records) raw body wanted s r h =
    let p = >>=-eq-ok (read_full 5 s) _ h in
    let g = guard-eq-ok (good_header raw p.0.0) bad_record _ p.2 in
    let q = >>=-eq-ok (read_full (record_size p.0.0) p.0.1) _ g.1 in
    let w = >>=-eq-ok (wanted_size (body ++ q.0.0) wanted) _ q.2 in
    let raw' = raw ++ p.0.0 ++ q.0.0 in
    let header = read_full-ok 5 s p.0 p.1 in
    let content = read_full-ok (record_size p.0.0) p.0.1 q.0 q.1 in
    let same : raw' ++ q.0.1 ≡ raw ++ s = parts raw p.0.0 q.0.0 p.0.1 q.0.1 s header.0 content.0 in
    let small : length raw' ≤ 65536 = within raw p.0.0 q.0.0 g.0 header.1 content.1 in
    let done = finish_hello lower raw' (take (w.0 - 4) (drop 4 (body ++ q.0.0))) q.0.1 in
    let more = read_records lower records raw' (body ++ q.0.0) w.0 q.0.1 in
    elim (Bool-cases (ltb 0 w.0 && leb w.0 (length (body ++ q.0.0)))) [
      | inl full ↦
          let k =
            finish-Replays lower raw' (take (w.0 - 4) (drop 4 (body ++ q.0.0))) q.0.1 r small
              (if_true done more full w.2) in
          (k.0 ∙ same, k.1)
      | inr short ↦
          let k =
            read_records-Replays lower records raw' (body ++ q.0.0) w.0 q.0.1 r
              (if_false done more short w.2) in
          (k.0 ∙ same, k.1)
    ]

-- If a hello is accepted, the bytes kept for the replay and those that are still to arrive are the
-- input, and the first are at most 65536.
pub read_client_hello-Replays :
    (lower : Bytes → Bytes) (s : Bytes) (r : ClientHello × Bytes)
    → read_client_hello lower s ≡ ok r
    → (r.0.raw ++ r.1 ≡ s) × (length r.0.raw ≤ 65536)
unfolding read_client_hello
read_client_hello-Replays lower s r h = read_records-Replays lower 128 [] [] 0 s r h
