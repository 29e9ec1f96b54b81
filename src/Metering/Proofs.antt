-- ===== src/Metering/Proofs.antt =====
-- Each byte is counted once, for its account and at its rate.
use guangyue_panel.Prelude.{
  ℕ, ◌+◌, ◌*◌, ◌≡◌, refl, subst, String, true, some, List, Map, [], ◌∷◌, ◌==◌, nat_eq, string_eq,
  lookup, insert, lookup-insert, insert-same, pos, arith, ok, ◌>>=◌, >>=-eq-ok, guard-eq-ok,
  Bool-cases, Option-cases, inl, inr, ◌⊎◌, invalid_counter,
}
use guangyue_panel.Domain.Account.{User, QuotaMeter, init_meter}
use guangyue_panel.Domain.Counters.{weighted_bytes, add_counter}
use guangyue_panel.Domain.Counters.Weighted.{weighted_bytes-ok, add_counter-ok}
use guangyue_panel.Metering.{
  Counter, Direction, up, down, unknown_direction, Protocol, vless, hy2, unknown_protocol, Books,
  Policies, is_valid, delta_of, node_of, charge_up, charge_down, charge_protocol, charge_direction,
  charge_with, charge_user, usage_row, add_usage, step_counter, account,
}

-- What one counter does to the state, on its three ways.
stepped :
    (policies : Policies) (period : String) (now : ℕ) (c : Counter) (b b' : Books)
    → step_counter policies period now c b ≡ ok b'
    → (is_valid c ≡ true)
      × (b'.checkpoints ≡ insert c.key (c.generation, c.value) b.checkpoints)
      × ((b'.users ≡ b.users)
          ⊎ ((row : User) × (v : User) × (lookup c.user_id b.users ≡ some row)
              × (charge_user c
                    (delta_of c b)
                    (policies (init_meter period now row) (node_of c)).0
                    (init_meter period now row)
                  ≡ ok v)
              × (b'.users ≡ insert c.user_id v b.users)))
unfolding step_counter
stepped policies period now c b b' h =
    let g = guard-eq-ok (is_valid c) invalid_counter _ h in
    elim (Option-cases (lookup c.user_id b.users)) [
      | inl gone ↦ (g.0, ground (arith, g.1, gone), inl (ground (arith, g.1, gone)))
      | inr (row, there) ↦ elim (Bool-cases (delta_of c b == 0)) [
        | inl still ↦
            (g.0, ground (arith, g.1, there, still), inl (ground (arith, g.1, there, still)))
        | inr grown ↦
            let u = init_meter period now row in
            let k : (do
              v ← charge_user c (delta_of c b) (policies u (node_of c)).0 u
              ok (record b {
                users = insert c.user_id v b.users;
                checkpoints = insert c.key (c.generation, c.value) b.checkpoints;
                node_usage =
                    add_usage c (delta_of c b) (usage_row c (policies u (node_of c)) u)
                      b.node_usage;
              }))
                ≡ ok b' =
              ground (arith, g.1, there, grown) in
            let p = >>=-eq-ok (charge_user c (delta_of c b) (policies u (node_of c)).0 u) _ k in
            (g.0, ground (arith, p.2), inr (row, p.0, there, p.1, ground (arith, p.2)))
      ]
    ]

same_checkpoints :
    (b : Books) (m : Map String (String × ℕ)) → m ≡ b.checkpoints → record b { checkpoints = m } ≡ b
same_checkpoints b m h = rw h refl

-- A counter that has been taken and is reported again, before any other report of its key, is
-- taken and changes nothing more.
pub step_counter_twice :
    (policies : Policies) (period period' : String) (now now' : ℕ) (c : Counter) (b b' : Books)
    → step_counter policies period now c b ≡ ok b'
    → step_counter policies period' now' c b' ≡ ok b'
unfolding step_counter delta_of
step_counter_twice policies period period' now now' c b b' h =
    let s = stepped policies period now c b b' h in
    let there : lookup c.key b'.checkpoints ≡ some (c.generation, c.value) = rw s.1 (
      ground (
        arith,
        lookup-insert c.key c.key (c.generation, c.value) b.checkpoints,
        string_eq.beq_iff c.key c.key,
      )) in
    let same =
      same_checkpoints b' _ (insert-same c.key (c.generation, c.value) b'.checkpoints there) in
    ground (arith, s.0, there, string_eq.beq_iff c.generation c.generation, same)

-- The traffic of an account by direction is its traffic by protocol.
abbrev pub IsSplit : User → Type 0
IsSplit u = u.upload + u.download ≡ u.vless_traffic + u.hy2_traffic

-- What is charged for traffic in thousandths of a byte, the residues included.
abbrev pub charged : QuotaMeter → ℕ
charged m = (m.upload + m.download) * 1000 + m.upload_remainder + m.download_remainder

-- How much of some traffic is sent, received, and carried by each protocol.
abbrev pub sent : Direction → ℕ → ℕ
sent up n = n
sent down n = 0
sent unknown_direction n = 0

abbrev pub received : Direction → ℕ → ℕ
received up n = 0
received down n = n
received unknown_direction n = 0

abbrev pub over_vless : Protocol → ℕ → ℕ
over_vless vless n = n
over_vless hy2 n = 0
over_vless unknown_protocol n = 0

abbrev pub over_hy2 : Protocol → ℕ → ℕ
over_hy2 vless n = 0
over_hy2 hy2 n = n
over_hy2 unknown_protocol n = 0

-- What a charge does to an account that has a meter: each counter by itself, and the sums.
pub record IsCharged (c : Counter) (delta rate : ℕ) (u v : User) (m : QuotaMeter) : Type 0 where
  pub meter : QuotaMeter
  pub has : v.meter ≡ some meter
  pub upload : v.upload ≡ u.upload + sent c.direction delta
  pub download : v.download ≡ u.download + received c.direction delta
  pub vless_traffic : v.vless_traffic ≡ u.vless_traffic + over_vless c.protocol delta
  pub hy2_traffic : v.hy2_traffic ≡ u.hy2_traffic + over_hy2 c.protocol delta
  pub sent_cost :
      meter.upload * 1000 + meter.upload_remainder
      ≡ m.upload * 1000 + m.upload_remainder + sent c.direction delta * rate
  pub received_cost :
      meter.download * 1000 + meter.download_remainder
      ≡ m.download * 1000 + m.download_remainder + received c.direction delta * rate
  pub raw : v.upload + v.download ≡ u.upload + u.download + delta
  pub split : v.vless_traffic + v.hy2_traffic ≡ u.vless_traffic + u.hy2_traffic + delta
  pub exact : charged meter ≡ charged m + delta * rate

direction_charged :
    (d : Direction) (delta rate : ℕ) (u v : User) (m : QuotaMeter)
    → charge_direction d delta rate u m ≡ ok v
    → (n : QuotaMeter) × (v.meter ≡ some n)
      × (v.upload ≡ u.upload + sent d delta)
      × (v.download ≡ u.download + received d delta)
      × (sent d delta + received d delta ≡ delta)
      × (v.vless_traffic ≡ u.vless_traffic)
      × (v.hy2_traffic ≡ u.hy2_traffic)
      × (n.upload * 1000 + n.upload_remainder
          ≡ m.upload * 1000 + m.upload_remainder + sent d delta * rate)
      × (n.download * 1000 + n.download_remainder
          ≡ m.download * 1000 + m.download_remainder + received d delta * rate)
unfolding charge_direction charge_up charge_down
direction_charged up delta rate u v m h =
    let w = >>=-eq-ok (weighted_bytes (pos delta) (pos rate) (pos m.upload_remainder)) _ h in
    let r = >>=-eq-ok (add_counter (pos u.upload) (pos delta)) _ w.2 in
    let t = >>=-eq-ok (add_counter (pos m.upload) (pos w.0.0)) _ r.2 in
    let x = weighted_bytes-ok delta rate m.upload_remainder w.0.0 w.0.1 w.1 in
    let y = add_counter-ok (pos u.upload) (pos delta) r.0 r.1 in
    let z = add_counter-ok (pos m.upload) (pos w.0.0) t.0 t.1 in
    (
      record m { upload = t.0; upload_remainder = w.0.1 },
      ground (arith, t.2),
      ground (arith, t.2, y),
      ground (arith, t.2),
      omega arith,
      ground (arith, t.2),
      ground (arith, t.2),
      ground (arith, x, z),
      omega arith,
    )
direction_charged down delta rate u v m h =
    let w = >>=-eq-ok (weighted_bytes (pos delta) (pos rate) (pos m.download_remainder)) _ h in
    let r = >>=-eq-ok (add_counter (pos u.download) (pos delta)) _ w.2 in
    let t = >>=-eq-ok (add_counter (pos m.download) (pos w.0.0)) _ r.2 in
    let x = weighted_bytes-ok delta rate m.download_remainder w.0.0 w.0.1 w.1 in
    let y = add_counter-ok (pos u.download) (pos delta) r.0 r.1 in
    let z = add_counter-ok (pos m.download) (pos w.0.0) t.0 t.1 in
    (
      record m { download = t.0; download_remainder = w.0.1 },
      ground (arith, t.2),
      ground (arith, t.2),
      ground (arith, t.2, y),
      omega arith,
      ground (arith, t.2),
      ground (arith, t.2),
      omega arith,
      ground (arith, x, z),
    )
direction_charged unknown_direction delta rate u v m h = cc

protocol_charged :
    (q : Protocol) (delta : ℕ) (u v : User)
    → charge_protocol q delta u ≡ ok v
    → (v.meter ≡ u.meter)
      × (v.upload ≡ u.upload)
      × (v.download ≡ u.download)
      × (v.vless_traffic ≡ u.vless_traffic + over_vless q delta)
      × (v.hy2_traffic ≡ u.hy2_traffic + over_hy2 q delta)
      × (over_vless q delta + over_hy2 q delta ≡ delta)
unfolding charge_protocol
protocol_charged vless delta u v h =
    let r = >>=-eq-ok (add_counter (pos u.vless_traffic) (pos delta)) _ h in
    let y = add_counter-ok (pos u.vless_traffic) (pos delta) r.0 r.1 in
    (
      ground (arith, r.2),
      ground (arith, r.2),
      ground (arith, r.2),
      ground (arith, r.2, y),
      ground (arith, r.2),
      omega arith,
    )
protocol_charged hy2 delta u v h =
    let r = >>=-eq-ok (add_counter (pos u.hy2_traffic) (pos delta)) _ h in
    let y = add_counter-ok (pos u.hy2_traffic) (pos delta) r.0 r.1 in
    (
      ground (arith, r.2),
      ground (arith, r.2),
      ground (arith, r.2),
      ground (arith, r.2),
      ground (arith, r.2, y),
      omega arith,
    )
protocol_charged unknown_protocol delta u v h = cc

exact_cost :
    (d : Direction) (delta rate : ℕ) (m n : QuotaMeter)
    → sent d delta + received d delta ≡ delta
    → (n.upload * 1000 + n.upload_remainder
        ≡ m.upload * 1000 + m.upload_remainder + sent d delta * rate)
    → (n.download * 1000 + n.download_remainder
        ≡ m.download * 1000 + m.download_remainder + received d delta * rate)
    → charged n ≡ charged m + delta * rate
exact_cost up delta rate m n whole s r = omega arith
exact_cost down delta rate m n whole s r = omega arith
exact_cost unknown_direction delta rate m n whole s r =
    let nothing : delta ≡ 0 = omega arith in rw nothing (omega arith)

-- A charge that goes through on an account with a meter raises the traffic of the counter's
-- direction and that of its protocol by the bytes that the counter has grown by, and the cost of
-- its direction, residue included, by those bytes times the rate; the traffic and the cost of the
-- other direction and the traffic of the other protocol stay.
pub charge_user_exact :
    (c : Counter) (delta rate : ℕ) (u v : User) (m : QuotaMeter)
    → u.meter ≡ some m
    → charge_user c delta rate u ≡ ok v
    → IsCharged c delta rate u v m
unfolding charge_user charge_with
charge_user_exact c delta rate u v m has h =
    let k : (charge_direction c.direction delta rate u m >>= charge_protocol c.protocol delta)
        ≡ ok v =
      subst (λ x. charge_with c delta rate u x ≡ ok v) has h in
    let p =
      >>=-eq-ok (charge_direction c.direction delta rate u m) (charge_protocol c.protocol delta)
        k in
    let (n, has_n, sends, receives, whole, vless_same, hy2_same, sent_is, received_is) =
      direction_charged c.direction delta rate u p.0 m p.1 in
    let q = protocol_charged c.protocol delta p.0 v p.2 in
    record {
      meter = n;
      has = cc (q.0, has_n);
      upload = cc (q.1, sends);
      download = cc (q.2, receives);
      vless_traffic = cc (q.3, vless_same);
      hy2_traffic = cc (q.4, hy2_same);
      sent_cost = sent_is;
      received_cost = received_is;
      raw = ground (arith, q, sends, receives, whole);
      split = ground (arith, q, vless_same, hy2_same);
      exact = exact_cost c.direction delta rate m n whole sent_is received_is;
    }

init_meter-has :
    (period : String) (now : ℕ) (u : User)
    → (m : QuotaMeter) × ((init_meter period now u).meter ≡ some m)
      × ((init_meter period now u).upload + (init_meter period now u).download
          ≡ u.upload + u.download)
      × ((init_meter period now u).vless_traffic + (init_meter period now u).hy2_traffic
          ≡ u.vless_traffic + u.hy2_traffic)
unfolding init_meter
init_meter-has period now u = elim (Option-cases (init_meter period now u).meter) [
  | inr (m, has) ↦ (m, has, ground arith, ground arith)
  | inl without ↦ absurd (ground (arith, without))
]

-- Every account's traffic by direction is its traffic by protocol.
abbrev pub AllSplit : Books → Type 0
AllSplit b = (id : ℕ) (u : User) → lookup id b.users ≡ some u → IsSplit u

step-AllSplit :
    (policies : Policies) (period : String) (now : ℕ) (c : Counter) (b b' : Books)
    → step_counter policies period now c b ≡ ok b'
    → AllSplit b
    → AllSplit b'
step-AllSplit policies period now c b b' h split = elim (stepped policies period now c b b' h).2 [
  | inl same ↦ λ id u there. split id u (rw⁻¹ same there)
  | inr (row, v, row_there, done, same) ↦
      let w = init_meter period now row in
      let i = init_meter-has period now row in
      let x = charge_user_exact c (delta_of c b) (policies w (node_of c)).0 w v i.0 i.1 done in
      λ id u there. ground (
        arith,
        rw same at there,
        lookup-insert c.user_id id v b.users,
        split id u,
        split c.user_id row row_there,
        i.2,
        x.raw,
        x.split,
      )
]

-- However many counters are reported, if each account's traffic by direction was its traffic by
-- protocol, so it is afterwards.
pub account-AllSplit :
    (policies : Policies) (period : String) (now : ℕ) (cs : List Counter) (b b' : Books)
    → account policies period now cs b ≡ ok b'
    → AllSplit b
    → AllSplit b'
unfolding account
account-AllSplit policies period now [] b b' h split =
    let same : b ≡ b' = ground (arith, h) in subst AllSplit same split
account-AllSplit policies period now (c ∷ cs) b b' h split =
    let p = >>=-eq-ok (step_counter policies period now c b) _ h in
    account-AllSplit policies period now cs p.0 b' p.2
      (step-AllSplit policies period now c b p.0 p.1 split)
