-- ===== src/Tests/Ingress.antt =====
-- A ClientHello for "a.io" in two records, with one byte of the next record behind it.
use guangyue_panel.Prelude.{◌≤◌, ◌≡◌, ◌++◌, refl, [], ◌∷◌, ok, take, drop, length, arith}
use guangyue_panel.Ingress.{
  Bytes, Offered, ClientHello, parse_hello_body, read_client_hello, read_records, take_bytes, u8,
  u16, extensions, extension, server_names, valid_domain, domain_from, finish_hello,
}
use guangyue_panel.Ingress.Replay.{read_client_hello-Replays}
use guangyue_panel.Ingress.Fragments.{
  Fragment, Message, bytes_of, wire, record_of, read_client_hello-fragments,
}
use guangyue_panel.Ingress.Parse.{parse-put_offer}
use guangyue_panel.Ingress.Offers.{server_name, alpn, other, HelloOffer, IsOffer, put_offer}

abbrev same : Bytes → Bytes
same b = b

abbrev body : Bytes
body =
    0 ∷ 0 ∷ 0 ∷ 0 ∷ 0 ∷ 0 ∷ 0 ∷ 0 ∷ 0 ∷ 0 ∷ 0 ∷ 0 ∷ 0 ∷ 0 ∷ 0 ∷ 0 ∷ 0 ∷ 0 ∷ 0 ∷ 0 ∷ 0 ∷ 0 ∷ 0 ∷ 0
    ∷ 0 ∷ 0 ∷ 0 ∷ 0 ∷ 0 ∷ 0 ∷ 0 ∷ 0 ∷ 0 ∷ 0 ∷ 0 ∷ 0 ∷ 2 ∷ 19 ∷ 1 ∷ 1 ∷ 0 ∷ 0 ∷ 13 ∷ 0 ∷ 0 ∷ 0 ∷ 9
    ∷ 0 ∷ 7 ∷ 0 ∷ 0 ∷ 4 ∷ 97 ∷ 46 ∷ 105 ∷ 111 ∷ []

abbrev message : Message
message = record { high = 0; middle = 0; low = 56; body = body }

abbrev first : Fragment
first = record { version = 1; bytes = take 10 (bytes_of message) }

abbrev second : Fragment
second = record { version = 3; bytes = drop 10 (bytes_of message) }

abbrev sent : Bytes
sent = wire (first ∷ []) ++ record_of second

abbrev offered : Offered
offered = record { name = 97 ∷ 46 ∷ 105 ∷ 111 ∷ []; protocols = [] }

abbrev hello : ClientHello
hello = record { offered = offered; raw = sent }

reading :
    read_client_hello same (wire (first ∷ []) ++ (record_of second ++ 22 ∷ []))
    ≡ ok (hello, 22 ∷ [])
unfolding read_client_hello read_records parse_hello_body take_bytes u8 u16 extensions extension
    server_names valid_domain domain_from
reading = refl

read_client_hello-Replays_example :
    (sent ++ 22 ∷ [] ≡ wire (first ∷ []) ++ (record_of second ++ 22 ∷ [])) × (length sent ≤ 65536)
read_client_hello-Replays_example =
    read_client_hello-Replays same (wire (first ∷ []) ++ (record_of second ++ 22 ∷ []))
      (hello, 22 ∷ []) reading

read_client_hello-fragments_example :
    read_client_hello same (wire (first ∷ []) ++ (record_of second ++ 22 ∷ []))
    ≡ finish_hello same (wire (first ∷ []) ++ record_of second) body (22 ∷ [])
read_client_hello-fragments_example =
    read_client_hello-fragments same message (first ∷ []) second [] (22 ∷ [])
      (refl, omega arith, omega arith) ((omega arith, omega arith, omega arith), tt)
      (omega arith, omega arith, omega arith) (omega arith) (omega arith) refl (omega arith)

abbrev offer : HelloOffer
offer = record {
  random = take 34 body;
  session = 5 ∷ [];
  ciphers = 19 ∷ 1 ∷ 19 ∷ 2 ∷ [];
  compressions = 0 ∷ [];
  items =
      alpn ((104 ∷ 50 ∷ []) ∷ [])
      ∷ other 43 (2 ∷ 3 ∷ 4 ∷ [])
      ∷ server_name (97 ∷ 46 ∷ 105 ∷ 111 ∷ [])
      ∷ other 51 (5 ∷ [])
      ∷ [];
}

offer-IsOffer : IsOffer same offer
unfolding valid_domain domain_from
offer-IsOffer = record {
  random = refl;
  session = omega arith;
  ciphers = (omega arith, refl);
  compressions = omega arith;
  items = ((omega arith, (omega arith, tt)), ((refl, refl), (refl, ((refl, refl), tt))));
  kinds = (refl, (refl, (refl, (refl, tt))));
  named = refl;
  one_acme = refl;
}

parse-put_offer_example :
    parse_hello_body same (put_offer offer)
    ≡ ok (record { name = 97 ∷ 46 ∷ 105 ∷ 111 ∷ []; protocols = (104 ∷ 50 ∷ []) ∷ [] })
parse-put_offer_example = parse-put_offer same offer offer-IsOffer
