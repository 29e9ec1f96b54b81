-- ===== src/Ingress/Parse.antt =====
-- `parseHelloBody` of ingressgateway/clienthello.go on what a client may offer.
use guangyue_panel.Prelude.{
  ℕ, zero, suc, ◌%◌, ◌≤◌, ◌<◌, ◌≡◌, ◌∙◌, refl, sym, true, not, ◌&&◌, List, [], ◌∷◌, ◌++◌, leb, ◌==◌,
  nat_eq, arith, All, length, length-append, ok,
}
use guangyue_panel.Ingress.{Bytes, Offered, extension, extensions, parse_hello_body}
use guangyue_panel.Ingress.Offers.{
  put16, put_extension, put_name, put_list, Item, server_name, alpn, other, kind_of, value_of,
  put_items, name_in, protocols_in, HelloOffer, put_offer, IsUnseen, AreFresh, IsItem, IsOffer,
  take_bytes-append, u8-cons, u16-put16, extension_step, name_read, list_read,
}

list_size : (ps : List Bytes) → length ps ≤ length (put_list ps)
list_size [] = omega arith
list_size (p ∷ ps) = omega (arith, list_size ps, length-append p (put_list ps))

protocols_read :
    (lower : Bytes → Bytes) (ps : List Bytes) (o : Offered)
    → o.protocols ≡ []
    → 0 < length ps
    → All (λ x. 0 < length x) ps
    → extension lower 16 (put16 (length (put_list ps)) ++ put_list ps) o
      ≡ ok (record o { protocols = ps })
unfolding extension
protocols_read lower ps o first some' full =
    let e = put_list ps in
    let e1 = u16-put16 (length e) e in
    let size : (length e == length e && not (length e == 0)) ≡ true =
      ground (arith, list_size ps) in
    rw (first, e1, size, list_read ps (length e) [] full (list_size ps)) refl

-- The loop over extensions reads them all, whatever was read before, where no kind comes twice.
items_read :
    (lower : Bytes → Bytes) (xs : List Item) (rounds : ℕ) (seen : List ℕ) (o : Offered)
    → All (IsItem lower) xs
    → AreFresh seen xs
    → (IsUnseen 0 seen → o.name ≡ [])
    → (IsUnseen 16 seen → o.protocols ≡ [])
    → length xs ≤ rounds
    → extensions lower rounds seen o (put_items xs)
      ≡ ok (record { name = name_in lower o.name xs; protocols = protocols_in o.protocols xs })
unfolding extensions extension
items_read lower [] rounds seen o good fresh no_name no_alpn enough = refl
items_read lower (x ∷ xs) zero seen o good fresh no_name no_alpn enough =
    absurd (omega (arith, enough))
items_read lower (server_name n ∷ xs) (suc rounds) seen o good fresh no_name no_alpn enough =
    extension_step lower rounds seen o 0 (put_name n) (put_items xs) fresh.0
    ∙ rw (name_read lower n o (no_name fresh.0) good.0) (
        items_read lower xs rounds (0 ∷ seen) (record o { name = lower n }) good.1 fresh.1
          (λ new. cc new) no_alpn (omega (arith, enough)))
items_read lower (alpn ps ∷ xs) (suc rounds) seen o good fresh no_name no_alpn enough =
    extension_step lower rounds seen o 16 (value_of (alpn ps)) (put_items xs) fresh.0
    ∙ rw (protocols_read lower ps o (no_alpn fresh.0) good.0.0 good.0.1) (
        items_read lower xs rounds (16 ∷ seen) (record o { protocols = ps }) good.1 fresh.1 no_name
          (λ new. cc new) (omega (arith, enough)))
items_read lower (other k v ∷ xs) (suc rounds) seen o good fresh no_name no_alpn enough =
    extension_step lower rounds seen o k v (put_items xs) fresh.0
    ∙ rw (good.0.0, good.0.1)
        (items_read lower xs rounds (k ∷ seen) o good.1 fresh.1
          (λ new. no_name (let old = rw good.0.0 at new in old))
          (λ new. no_alpn (let old = rw good.0.1 at new in old)) (omega (arith, enough)))

items_size : (xs : List Item) → length xs ≤ length (put_items xs)
items_size [] = omega arith
items_size (x ∷ xs) =
    omega
      (arith, items_size xs, length-append (put_extension (kind_of x) (value_of x)) (put_items xs))

-- The bytes of an offer parse to its server name in lower case and its protocols, wherever these
-- two extensions stand among the others, if its random part has 34 bytes, its session at most 32,
-- its ciphers an even number of bytes and at least two, there is a compression, no kind of
-- extension comes twice, the name is there and in lower case a valid domain, the extension of
-- protocols, if there is one, has a protocol and none that is empty, and ACME stands alone.
pub parse-put_offer :
    (lower : Bytes → Bytes) (o : HelloOffer)
    → IsOffer lower o
    → parse_hello_body lower (put_offer o)
      ≡ ok (record { name = name_in lower [] o.items; protocols = protocols_in [] o.items })
unfolding parse_hello_body
parse-put_offer lower o h =
    let block = put_items o.items in
    let t6 = put16 (length block) ++ block in
    let t5 = o.compressions ++ t6 in
    let t4 = o.ciphers ++ (length o.compressions ∷ t5) in
    let t3 = o.session ++ (put16 (length o.ciphers) ++ t4) in
    let e1 = take_bytes-append o.random (length o.session ∷ t3) 34 (sym h.random) in
    let e2 = u8-cons (length o.session) t3 in
    let g1 : leb (length o.session) 32 ≡ true = ground (arith, h.session) in
    let e3 = take_bytes-append o.session (put16 (length o.ciphers) ++ t4) (length o.session) refl in
    let e4 = u16-put16 (length o.ciphers) t4 in
    let g2 : (leb 2 (length o.ciphers) && length o.ciphers % 2 == 0) ≡ true =
      ground (arith, h.ciphers.0, h.ciphers.1) in
    let e5 = take_bytes-append o.ciphers (length o.compressions ∷ t5) (length o.ciphers) refl in
    let e6 = u8-cons (length o.compressions) t5 in
    let g3 : not (length o.compressions == 0) ≡ true = ground (arith, h.compressions) in
    let e7 = take_bytes-append o.compressions t6 (length o.compressions) refl in
    let e8 = u16-put16 (length block) block in
    let g4 : (length block == length block) ≡ true = ground arith in
    let e9 =
      items_read lower o.items (length block) [] (record { name = []; protocols = [] }) h.items
        h.kinds (λ new. refl) (λ new. refl) (items_size o.items) in
    rw (e1, e2, g1, e3, e4, g2, e5, e6, g3, e7, e8, g4, e9) (rw (h.named, h.one_acme) refl)
