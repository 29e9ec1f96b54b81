-- ===== src/Support/Images.antt =====
-- What binding images to a reply does: `bindTicketImages` of controlplane/support.go.
use guangyue_panel.Prelude.{
  ℕ, ◌+◌, ◌≤◌, ◌≡◌, ◌≢◌, refl, ◌∙◌, String, Bool, true, false, not, ◌&&◌, some, Map, List, [], ◌∷◌,
  leb, leb→le, ◌==◌, nat_eq, string_eq, lookup, insert, lookup-insert, arith, Bool-cases, inl, inr,
  sum_rows-insert, length, ok, or_fail, >>=-eq-ok, guard-eq-ok, image_twice, image_missing,
  image_capacity, too_many_images,
}
use guangyue_panel.Support.{
  TicketImage, contains_text, free_image, bound_image, bytes_of, image_bytes, bind_images,
  bind_ticket_images,
}

abbrev room_for : ℕ → ℕ → TicketImage → Bool
room_for total added image =
    leb (added + image.size) 6291456 && leb (total + (added + image.size)) 20971520

fits_bound :
    (total added : ℕ) (image : TicketImage)
    → room_for total added image ≡ true
    → total + (added + image.size) ≤ 20971520
fits_bound total added image h = ground arith

-- A free image is no ticket's.
free_bytes :
    (actor now : ℕ) (image : TicketImage) (other : String)
    → free_image actor now image ≡ true
    → other ≢ ""
    → bytes_of other image ≡ 0
free_bytes actor now image other h named =
    ground (arith, string_eq.beq_iff image.ticket_id "", string_eq.beq_iff image.ticket_id other)

own_bytes :
    (ticket reply : String) (internal : Bool) (image : TicketImage)
    → bytes_of ticket (bound_image ticket reply internal image) ≡ image.size
own_bytes ticket reply internal image = ground (arith, string_eq.beq_iff ticket ticket)

others_bytes :
    (other ticket reply : String) (internal : Bool) (image : TicketImage)
    → other ≢ ticket
    → bytes_of other (bound_image ticket reply internal image) ≡ 0
others_bytes other ticket reply internal image away = ground (arith, string_eq.beq_iff ticket other)

module _ (ticket reply : String) (internal : Bool) (actor now : ℕ) where
  -- One round of the loop that has gone through.
  record Round (total added : ℕ) (seen : List String) (id : String) (ids : List String)
      (images images' : Map String TicketImage) : Type 0 where
    image : TicketImage
    unseen : contains_text id seen ≡ false
    there : lookup id images ≡ some image
    free : free_image actor now image ≡ true
    fit : room_for total added image ≡ true
    rest :
        bind_images ticket reply internal actor now total
          (added + image.size)
          (id ∷ seen)
          ids
          (insert id (bound_image ticket reply internal image) images)
        ≡ ok images'

  round :
      (total added : ℕ) (seen : List String) (id : String) (ids : List String)
      (images images' : Map String TicketImage)
      → bind_images ticket reply internal actor now total added seen (id ∷ ids) images ≡ ok images'
      → Round total added seen id ids images images'
  unfolding bind_images
  round total added seen id ids images images' h =
      let s = guard-eq-ok (not (contains_text id seen)) image_twice _ h in
      let i = >>=-eq-ok (or_fail (lookup id images) image_missing) _ s.1 in
      let f = guard-eq-ok (free_image actor now i.0) image_missing _ i.2 in
      let c = guard-eq-ok (room_for total added i.0) image_capacity _ f.1 in
      record {
        image = i.0;
        unseen = ground (arith, s.0);
        there = ground (arith, i.1);
        free = f.0;
        fit = c.0;
        rest = c.1;
      }

  -- No image is bound that the loop has bound before.
  unseen :
      (total added : ℕ) (seen ids : List String) (images images' : Map String TicketImage)
      (k : String)
      → bind_images ticket reply internal actor now total added seen ids images ≡ ok images'
      → contains_text k seen ≡ true
      → contains_text k ids ≡ false
  unseen total added seen [] images images' k h s = refl
  unseen total added seen (id ∷ ids) images images' k h s =
      let r = round total added seen id ids images images' h in
      ground (
        arith,
        r.unseen,
        string_eq.beq_iff id k,
        unseen total (added + r.image.size) (id ∷ seen) ids
            (insert id (bound_image ticket reply internal r.image) images) images' k r.rest,
      )

  bind_others :
      (total added : ℕ) (seen ids : List String) (images images' : Map String TicketImage)
      (k : String)
      → bind_images ticket reply internal actor now total added seen ids images ≡ ok images'
      → contains_text k ids ≡ false
      → lookup k images' ≡ lookup k images
  unfolding bind_images
  bind_others total added seen [] images images' k h away = ground arith
  bind_others total added seen (id ∷ ids) images images' k h away =
      let r = round total added seen id ids images images' h in
      let bound = bound_image ticket reply internal r.image in
      ground (
        arith,
        bind_others total (added + r.image.size) (id ∷ seen) ids (insert id bound images) images' k
            r.rest,
        lookup-insert id k bound images,
      )

  bind_each :
      (total added : ℕ) (seen ids : List String) (images images' : Map String TicketImage)
      (k : String)
      → bind_images ticket reply internal actor now total added seen ids images ≡ ok images'
      → contains_text k ids ≡ true
      → (image : TicketImage) × (lookup k images ≡ some image)
        × (free_image actor now image ≡ true)
        × (lookup k images' ≡ some (bound_image ticket reply internal image))
  bind_each total added seen [] images images' k h among = cc
  bind_each total added seen (id ∷ ids) images images' k h among =
      let r = round total added seen id ids images images' h in
      let bound = bound_image ticket reply internal r.image in
      let written = insert id bound images in
      elim (Bool-cases (id == k)) [
        | inl hit ↦
            let same = (string_eq.beq_iff id k).0 hit in
            let later =
              unseen total (added + r.image.size) (id ∷ seen) ids written images' k r.rest
                (rw hit) in
            (
              r.image,
              rw (← same) r.there,
              r.free,
              bind_others total (added + r.image.size) (id ∷ seen) ids written images' k r.rest
                    later
                  ∙ ground (arith, lookup-insert id k bound images, hit),
            )
        | inr miss ↦
            let e =
              bind_each total (added + r.image.size) (id ∷ seen) ids written images' k r.rest
                (ground (arith, miss, among)) in
            (e.0, ground (arith, e.1, miss, lookup-insert id k bound images), e.2, e.3)
      ]

  -- A free image belongs to no ticket; after the round it belongs to this one.
  bind_bytes :
      (total added : ℕ) (seen ids : List String) (images images' : Map String TicketImage)
      → bind_images ticket reply internal actor now total added seen ids images ≡ ok images'
      → ticket ≢ ""
      → image_bytes ticket images ≡ total + added
      → total + added ≤ 20971520
      → image_bytes ticket images' ≤ 20971520
  unfolding bind_images image_bytes
  bind_bytes total added seen [] images images' h named count below = ground (arith, h)
  bind_bytes total added seen (id ∷ ids) images images' h named count below =
      let r = round total added seen id ids images images' h in
      let bound = bound_image ticket reply internal r.image in
      let moved = sum_rows-insert (bytes_of ticket) id bound r.image images r.there in
      bind_bytes total (added + r.image.size) (id ∷ seen) ids (insert id bound images) images'
        r.rest named
        (omega (
          arith,
          moved,
          count,
          free_bytes actor now r.image ticket r.free named,
          own_bytes ticket reply internal r.image,
        ))
        (fits_bound total added r.image r.fit)

  bind_elsewhere :
      (total added : ℕ) (seen ids : List String) (images images' : Map String TicketImage)
      (other : String)
      → bind_images ticket reply internal actor now total added seen ids images ≡ ok images'
      → other ≢ ""
      → other ≢ ticket
      → image_bytes other images' ≡ image_bytes other images
  unfolding bind_images image_bytes
  bind_elsewhere total added seen [] images images' other h named away = ground arith
  bind_elsewhere total added seen (id ∷ ids) images images' other h named away =
      let r = round total added seen id ids images images' h in
      let bound = bound_image ticket reply internal r.image in
      let moved = sum_rows-insert (bytes_of other) id bound r.image images r.there in
      bind_elsewhere total (added + r.image.size) (id ∷ seen) ids (insert id bound images) images'
        other r.rest named away
      ∙ omega (
        arith,
        moved,
        free_bytes actor now r.image other r.free named,
        others_bytes other ticket reply internal r.image away,
      )

-- What binding images to a reply promises.
pub record Binds (ids : List String) (actor now : ℕ) (ticket reply : String) (internal : Bool)
    (images images' : Map String TicketImage) : Type 0 where
  pub few : length ids ≤ 3
  pub each :
      (k : String)
      → contains_text k ids ≡ true
      → (image : TicketImage) × (lookup k images ≡ some image)
        × (free_image actor now image ≡ true)
        × (lookup k images' ≡ some (bound_image ticket reply internal image))
  pub others : (k : String) → contains_text k ids ≡ false → lookup k images' ≡ lookup k images
  pub within : image_bytes ticket images ≤ 20971520 → image_bytes ticket images' ≤ 20971520
  pub elsewhere :
      (other : String)
      → other ≢ ""
      → other ≢ ticket
      → image_bytes other images' ≡ image_bytes other images

-- A binding of images to a ticket with a name, if it goes through, is of at most three; each of
-- them was there, free and of the actor, and is bound now; all other images are as they were; the
-- images of the ticket stay within 20 MB if they were, and those of other tickets are the same.
pub bind_ticket_images-Binds :
    (ids : List String) (actor now : ℕ) (ticket reply : String) (internal : Bool)
    (images images' : Map String TicketImage)
    → bind_ticket_images ids actor now ticket reply internal images ≡ ok images'
    → ticket ≢ ""
    → Binds ids actor now ticket reply internal images images'
unfolding bind_ticket_images
bind_ticket_images-Binds ids actor now ticket reply internal images images' h named =
    let g = guard-eq-ok (leb (length ids) 3) too_many_images _ h in
    let total = image_bytes ticket images in
    record {
      few = leb→le (length ids) 3 g.0;
      each = λ k. bind_each ticket reply internal actor now total 0 [] ids images images' k g.1;
      others = λ k. bind_others ticket reply internal actor now total 0 [] ids images images' k g.1;
      within = λ small.
          bind_bytes ticket reply internal actor now total 0 [] ids images images' g.1 named
            (omega arith) (omega (arith, small));
      elsewhere = λ other.
          bind_elsewhere ticket reply internal actor now total 0 [] ids images images' other g.1;
    }
