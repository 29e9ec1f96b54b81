-- ===== src/Ingress/Offers.antt =====
-- The bytes of an offer, and how the fields of it are read (ingressgateway/clienthello.go).
use guangyue_panel.Prelude.{
  ℕ, zero, suc, ◌+◌, ◌*◌, ◌/◌, ◌%◌, ◌≤◌, ◌<◌, ◌≡◌, ◌∙◌, refl, sym, subst, ap, true, false, List, [],
  ◌∷◌, ◌++◌, leb, ◌==◌, nat_eq, arith, any, All, length, length-append, ok, ◌>>=◌,
}
use mathlib.Core.List.{append_assoc, append-nil}
use guangyue_panel.Ingress.{
  Bytes, Offered, good_protocols, valid_domain, take_bytes, u8, u16, server_names, protocol_names,
  extension, extensions, is_empty,
}
use guangyue_panel.Ingress.Fragments.{take-length, drop-length}

-- Two bytes of a number.
abbrev pub put16 : ℕ → Bytes
put16 n = n / 256 ∷ n % 256 ∷ []

abbrev pub put_extension : ℕ → Bytes → Bytes
put_extension kind value = put16 kind ++ (put16 (length value) ++ value)

abbrev pub put_name : Bytes → Bytes
put_name name = put16 (3 + length name) ++ (0 ∷ (put16 (length name) ++ name))

abbrev pub put_list : List Bytes → Bytes
put_list [] = []
put_list (p ∷ ps) = length p ∷ (p ++ put_list ps)

-- An extension: the server name, the protocols, or one that is not looked into.
pub data Item : Type 0 where
  server_name : Bytes → Item
  alpn : List Bytes → Item
  other : ℕ → Bytes → Item

abbrev pub kind_of : Item → ℕ
kind_of (server_name name) = 0
kind_of (alpn protocols) = 16
kind_of (other kind value) = kind

abbrev pub value_of : Item → Bytes
value_of (server_name name) = put_name name
value_of (alpn protocols) = put16 (length (put_list protocols)) ++ put_list protocols
value_of (other kind value) = value

abbrev pub put_items : List Item → Bytes
put_items [] = []
put_items (x ∷ xs) = put_extension (kind_of x) (value_of x) ++ put_items xs

-- The name and the protocols that some extensions offer, wherever they stand among them; `before`
-- if they offer none.
abbrev pub name_in : (Bytes → Bytes) → Bytes → List Item → Bytes
name_in lower before [] = before
name_in lower before (server_name name ∷ xs) = name_in lower (lower name) xs
name_in lower before (alpn protocols ∷ xs) = name_in lower before xs
name_in lower before (other kind value ∷ xs) = name_in lower before xs

abbrev pub protocols_in : List Bytes → List Item → List Bytes
protocols_in before [] = before
protocols_in before (server_name name ∷ xs) = protocols_in before xs
protocols_in before (alpn protocols ∷ xs) = protocols_in protocols xs
protocols_in before (other kind value ∷ xs) = protocols_in before xs

pub record HelloOffer : Type 0 where
  pub random : Bytes
  pub session : Bytes
  pub ciphers : Bytes
  pub compressions : Bytes
  pub items : List Item

abbrev pub put_offer : HelloOffer → Bytes
put_offer o =
    o.random
    ++ (length o.session
        ∷ (o.session
            ++ (put16 (length o.ciphers)
                ++ (o.ciphers
                    ++ (length o.compressions
                        ∷ (o.compressions
                            ++ (put16 (length (put_items o.items)) ++ put_items o.items)))))))

abbrev pub IsUnseen : ℕ → List ℕ → Type 0
IsUnseen kind seen = any (λ k. k == kind) seen ≡ false

-- No kind twice.
abbrev pub AreFresh : List ℕ → List Item → Type 0
AreFresh seen [] = Unit
AreFresh seen (x ∷ xs) = IsUnseen (kind_of x) seen × AreFresh (kind_of x ∷ seen) xs

-- A domain, one protocol or more that are not empty, or anything of another kind.
abbrev pub IsItem : (Bytes → Bytes) → Item → Type 0
IsItem lower (server_name name) = valid_domain (lower name) ≡ true
IsItem lower (alpn protocols) = (0 < length protocols) × All (λ p. 0 < length p) protocols
IsItem lower (other kind value) = ((kind == 0) ≡ false) × ((kind == 16) ≡ false)

pub record IsOffer (lower : Bytes → Bytes) (o : HelloOffer) : Type 0 where
  pub random : length o.random ≡ 34
  pub session : length o.session ≤ 32
  pub ciphers : (2 ≤ length o.ciphers) × (length o.ciphers % 2 ≡ 0)
  pub compressions : 0 < length o.compressions
  pub items : All (IsItem lower) o.items
  pub kinds : AreFresh [] o.items
  pub named : is_empty (name_in lower [] o.items) ≡ false
  pub one_acme : good_protocols (protocols_in [] o.items) ≡ true

pub take_bytes-append :
    (xs ys : Bytes) (n : ℕ) → n ≡ length xs → take_bytes n (xs ++ ys) ≡ ok (xs, ys)
unfolding take_bytes
take_bytes-append xs ys n e =
    let enough : leb (length xs) (length (xs ++ ys)) ≡ true = ground (arith, length-append xs ys) in
    rw e (rw (enough, take-length xs ys, drop-length xs ys) refl)

take_bytes-all : (xs : Bytes) → take_bytes (length xs) xs ≡ ok (xs, [])
take_bytes-all xs =
    subst (λ x. take_bytes (length xs) x ≡ ok (xs, [])) (append-nil xs)
      (take_bytes-append xs [] (length xs) refl)

pub u8-cons : (b : ℕ) (c : Bytes) → u8 (b ∷ c) ≡ ok (b, c)
unfolding u8
u8-cons b c = rw (take_bytes-append (b ∷ []) c 1 refl) refl

pub u16-put16 : (n : ℕ) (c : Bytes) → u16 (put16 n ++ c) ≡ ok (n, c)
unfolding u16
u16-put16 n c =
    let same : n / 256 * 256 + n % 256 ≡ n = omega arith in
    rw (take_bytes-append (put16 n) c 2 refl) (ap (λ x. ok (x, c)) same)

-- A round of the loop over extensions.
pub extension_step :
    (lower : Bytes → Bytes) (rounds : ℕ) (seen : List ℕ) (o : Offered) (kind : ℕ) (value c : Bytes)
    → IsUnseen kind seen
    → extensions lower (suc rounds) seen o (put_extension kind value ++ c)
      ≡ (extension lower kind value o >>= λ x. extensions lower rounds (kind ∷ seen) x c)
unfolding extensions
extension_step lower rounds seen o kind value c new =
    let e1 = u16-put16 kind (put16 (length value) ++ (value ++ c)) in
    let e2 = u16-put16 (length value) (value ++ c) in
    let e3 = take_bytes-append value c (length value) refl in rw (e1, e2, e3, new) refl

pub name_read :
    (lower : Bytes → Bytes) (name : Bytes) (o : Offered)
    → o.name ≡ []
    → valid_domain (lower name) ≡ true
    → extension lower 0 (put_name name) o ≡ ok (record o { name = lower name })
unfolding extension server_names
name_read lower name o first good =
    let e = 0 ∷ (put16 (length name) ++ name) in
    let e1 = u16-put16 (3 + length name) e in
    let size : ((3 + length name) == length e) ≡ true = ground arith in
    let e2 = u8-cons 0 (put16 (length name) ++ name) in
    let e3 = u16-put16 (length name) name in
    rw (first, e1, size, e2, e3, take_bytes-all name, good) refl

pub list_read :
    (ps : List Bytes) (rounds : ℕ) (before : List Bytes)
    → All (λ p. 0 < length p) ps
    → length ps ≤ rounds
    → protocol_names rounds before (put_list ps) ≡ ok (before ++ ps)
unfolding protocol_names
list_read [] rounds before full enough = ap ok (sym (append-nil before))
list_read (p ∷ ps) zero before full enough = absurd (omega (arith, enough))
list_read (p ∷ ps) (suc rounds) before full enough =
    let e1 = u8-cons (length p) (p ++ put_list ps) in
    let some' : (length p == 0) ≡ false = ground (arith, full.0) in
    let e2 = take_bytes-append p (put_list ps) (length p) refl in
    rw (e1, some', e2)
      (list_read ps rounds (before ++ p ∷ []) full.1 (omega (arith, enough))
        ∙ ap ok (append_assoc before (p ∷ []) ps))
