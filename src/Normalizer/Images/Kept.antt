-- ===== src/Normalizer/Images/Kept.antt =====
-- normalizer.py: which images a sanitized gallery keeps.
use marketer.Prelude.{
  ℕ, zero, suc, String, Bool, true, false, not, Option, none, some, List, [], ◌∷◌, ◌≡◌, refl, sym,
  subst, ap, ◌∙◌, arith, ltb, length, take, map, contains, if◌then◌else◌,
}
use marketer.Value.{Fields, Result, ok, err, ◌>>=◌}
use marketer.Context.{GalleryItem}
use marketer.Reasoner.Resources.{without, first_seen, unseen, unseen-known, unseen_none}
use marketer.Normalizer.Images.{
  PathParser, max_gallery_items, sanitize_gallery_item, accept_image, seen_after, scan_gallery,
  Sanitized, sanitize_gallery,
}

unseen-cons :
    (x : String) (seen ys : List String) → unseen (x ∷ seen) ys ≡ unseen seen (without x ys)
unseen-cons x seen [] = refl
unseen-cons x seen (y ∷ ys) = ground (arith, unseen-cons x seen ys)

abbrev pub urls_of : List (Option GalleryItem) → List String
urls_of [] = []
urls_of (none ∷ cs) = urls_of cs
urls_of (some i ∷ cs) = i.url ∷ urls_of cs

abbrev pub refused_in : List (Option GalleryItem) → ℕ
refused_in [] = 0
refused_in (none ∷ cs) = suc (refused_in cs)
refused_in (some i ∷ cs) = refused_in cs

abbrev pub urls : List GalleryItem → List String
urls items = map (λ i. i.url) items

module _ (lower : String → String) (urlparse : PathParser) where
  -- Each raw image on its own.
  abbrev pub candidates : List (Fields × String) → Result (List (Option GalleryItem))
  candidates [] = ok []
  candidates ((raw, default) ∷ rest) =
      sanitize_gallery_item lower urlparse raw default
      >>= (λ o. candidates rest >>= (λ cs. ok (o ∷ cs)))

  abbrev Agrees : List String → List (Option GalleryItem) → List GalleryItem × ℕ → Type 0
  Agrees seen cs r = (urls r.0 ≡ unseen seen (first_seen (urls_of cs))) × (r.1 ≡ refused_in cs)

  accept_image-Agrees :
      (seen : List String) (o : Option GalleryItem) (cs : List (Option GalleryItem))
      (r : List GalleryItem × ℕ)
      → Agrees (seen_after lower urlparse seen o) cs r
      → Agrees seen (o ∷ cs) (accept_image lower urlparse seen o r)
  unfolding first_seen
  accept_image-Agrees seen none cs (items, rejected) (u, n) = (u, ap suc n)
  accept_image-Agrees seen (some i) cs (items, rejected) (u, n) =
      (placed (contains i.url seen) refl u, n)
    where
      placed :
          (b : Bool)
          → contains i.url seen ≡ b
          → urls items ≡ unseen (if b then seen else i.url ∷ seen) (first_seen (urls_of cs))
          → urls (if b then items else i ∷ items) ≡ (
              if not b
              then i.url ∷ unseen seen (without i.url (first_seen (urls_of cs)))
              else unseen seen (without i.url (first_seen (urls_of cs))))
      placed true h v = v ∙ sym (unseen-known i.url seen (first_seen (urls_of cs)) h)
      placed false h v = ap (λ l. i.url ∷ l) (v ∙ unseen-cons i.url seen (first_seen (urls_of cs)))

  -- What a scan has to do with the candidates.
  abbrev Scanned :
      List String → Result (List (Option GalleryItem)) → Result (List GalleryItem × ℕ) → Type 0
  Scanned seen c (err e) = Unit
  Scanned seen c (ok r) = (cs : List (Option GalleryItem)) × (c ≡ ok cs) × Agrees seen cs r

  step-Scanned :
      (seen : List String) (o : Option GalleryItem) (c : Result (List (Option GalleryItem)))
      (q : Result (List GalleryItem × ℕ))
      → Scanned (seen_after lower urlparse seen o) c q
      → Scanned seen
          (c >>= (λ cs. ok (o ∷ cs)))
          (q >>= (λ r. ok (accept_image lower urlparse seen o r)))
  step-Scanned seen o c (err e) s = tt
  step-Scanned seen o c (ok r) (cs, e, a) =
      (o ∷ cs, ap (λ x. x >>= (λ ys. ok (o ∷ ys))) e, accept_image-Agrees seen o cs r a)

  first-Scanned :
      (seen : List String) (w : Result (Option GalleryItem))
      (c : Result (List (Option GalleryItem)))
      (k : Option GalleryItem → Result (List GalleryItem × ℕ))
      → ((o : Option GalleryItem) → Scanned (seen_after lower urlparse seen o) c (k o))
      → Scanned seen
          (w >>= (λ o. c >>= (λ cs. ok (o ∷ cs))))
          (w >>= (λ o. k o >>= (λ r. ok (accept_image lower urlparse seen o r))))
  first-Scanned seen (err e) c k f = tt
  first-Scanned seen (ok o) c k f = step-Scanned seen o c (k o) (f o)

  scan_gallery-Scanned :
      (seen : List String) (raw : List (Fields × String))
      → Scanned seen (candidates raw) (scan_gallery lower urlparse seen raw)
  unfolding scan_gallery first_seen
  scan_gallery-Scanned seen [] = ([], refl, (refl, refl))
  scan_gallery-Scanned seen ((raw, default) ∷ rest) =
      first-Scanned seen _ (candidates rest)
        (λ o. scan_gallery lower urlparse (seen_after lower urlparse seen o) rest)
        (λ o. scan_gallery-Scanned (seen_after lower urlparse seen o) rest)

  -- What a sanitized gallery has to do with its raw images.
  pub record IsGallery (raw : List (Fields × String)) (g : Sanitized) : Type 0 where
    pub each : List (Option GalleryItem)
    pub each_lem : candidates raw ≡ ok each
    pub accepted_lem : urls g.accepted ≡ take max_gallery_items (first_seen (urls_of each))
    pub rejected_lem : g.rejected ≡ refused_in each
    pub truncated_lem : g.truncated ≡ ltb max_gallery_items (length (first_seen (urls_of each)))
    pub raw_lem : g.raw_count ≡ length raw

  abbrev Judged : List (Fields × String) → Result Sanitized → Type 0
  Judged raw (err e) = Unit
  Judged raw (ok g) = IsGallery raw g

  urls-take : (n : ℕ) (items : List GalleryItem) → urls (take n items) ≡ take n (urls items)
  urls-take zero items = refl
  urls-take (suc n) [] = refl
  urls-take (suc n) (i ∷ items) = ap (λ l. i.url ∷ l) (urls-take n items)

  length-urls : (items : List GalleryItem) → length (urls items) ≡ length items
  length-urls [] = refl
  length-urls (i ∷ items) = ap suc (length-urls items)

  Scanned-Judged :
      (raw : List (Fields × String)) (q : Result (List GalleryItem × ℕ))
      → Scanned [] (candidates raw) q
      → Judged raw (
          q >>= (λ (items, rejected). ok (record {
            accepted = take max_gallery_items items;
            raw_count = length raw;
            rejected = rejected;
            truncated = ltb max_gallery_items (length items);
          })))
  Scanned-Judged raw (err e) s = tt
  Scanned-Judged raw (ok (items, rejected)) (cs, e, (u, n)) =
      let all : urls items ≡ first_seen (urls_of cs) = u ∙ unseen_none (first_seen (urls_of cs)) in
      record {
        each = cs;
        each_lem = e;
        accepted_lem = urls-take max_gallery_items items ∙ ap (take max_gallery_items) all;
        rejected_lem = n;
        truncated_lem = ap (ltb max_gallery_items) (sym (length-urls items) ∙ ap length all);
        raw_lem = refl;
      }

  -- A sanitized gallery holds the first 20 URLs of the images that are accepted on their own, each at
  -- its first place; it counts the images that are refused on their own, says that it is truncated
  -- exactly if there are more than 20 different URLs, and counts all raw images.
  pub sanitize_gallery-IsGallery :
      (raw : List (Fields × String)) (g : Sanitized)
      → sanitize_gallery lower urlparse raw ≡ ok g
      → IsGallery raw g
  unfolding sanitize_gallery
  sanitize_gallery-IsGallery raw g h =
      subst (Judged raw) h (Scanned-Judged raw _ (scan_gallery-Scanned [] raw))
