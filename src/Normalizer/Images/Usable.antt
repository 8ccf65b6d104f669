-- ===== src/Normalizer/Images/Usable.antt =====
-- normalizer.py: what each image of a sanitized gallery is fit for.
use marketer.Prelude.{
  ℕ, zero, suc, String, Bool, true, false, ◌&&◌, not, Option, none, some, List, [], ◌∷◌, ◌≡◌, refl,
  arith, eqb, ltb, take, contains, if◌then◌else◌, All,
}
use marketer.Value.{
  ℤ, pos, negsuc, Value, null, str, bool, int, float, obj, arr, Fields, ok, get, as_str, ◌>>=◌,
}
use marketer.Context.{GalleryItem}
use marketer.Normalizer.Images.Allowed.{
  Answers, OfOption, bind-Answers, anything-Answers, IsAllowed, is_allowed_image-IsAllowed,
}
use marketer.Normalizer.Images.{
  PathParser, max_size_bytes, max_gallery_items, is_allowed_image, bad_size, int_option, role_of,
  image_of, either, sized_image, is_web, parsed_image, url_image, sanitize_gallery_item,
  accept_image, seen_after, scan_gallery, sanitize_gallery,
}

abbrev pub known_roles : List String
known_roles = "brand_asset" ∷ "content" ∷ "reference" ∷ "unknown" ∷ []

abbrev pub IsKnown : String → Type 0
IsKnown role = contains role known_roles ≡ true

abbrev fits : Option ℤ → Bool
fits (some (pos n)) = not (eqb n 0) && not (ltb max_size_bytes n)
fits _ = true

-- The role is one of the four, the extension is there and allowed, and the size is neither 0 nor above
-- 20 MB.
pub record IsUsable (i : GalleryItem) : Type 0 where
  pub role_lem : IsKnown i.role
  pub extension_lem : (e : String) × (i.extension ≡ some e) × IsAllowed e
  pub size_lem : fits i.size_bytes ≡ true

module _ (lower : String → String) (urlparse : PathParser) where
  fits_lem :
      (v : Value) → bad_size lower urlparse v ≡ false → fits (int_option lower urlparse v) ≡ true
  fits_lem (int (pos n)) h = ground (arith, h)
  fits_lem (int (negsuc n)) h = refl
  fits_lem (bool true) h = refl
  fits_lem (bool false) h = ground (arith, h)
  fits_lem (str s) h = refl
  fits_lem (float b r) h = refl
  fits_lem (obj fs) h = refl
  fits_lem (arr vs) h = refl
  fits_lem null h = refl

  role_of-IsKnown :
      (v : Value) (default : String) → IsKnown default → IsKnown (role_of lower urlparse v default)
  role_of-IsKnown (str s) default h = by_test (contains s known_roles) refl
    where
      by_test : (b : Bool) → contains s known_roles ≡ b → IsKnown (if b then s else default)
      by_test true q = q
      by_test false q = h
  role_of-IsKnown (bool b) default h = h
  role_of-IsKnown (int z) default h = h
  role_of-IsKnown (float b r) default h = h
  role_of-IsKnown (obj fs) default h = h
  role_of-IsKnown (arr vs) default h = h
  role_of-IsKnown null default h = h

  sized_image-IsUsable :
      (raw : Fields) (default url : String) (o : Option String)
      → IsKnown default
      → OfOption IsAllowed o
      → OfOption IsUsable (sized_image lower urlparse raw default url o)
  sized_image-IsUsable raw default url none known h = tt
  sized_image-IsUsable raw default url (some e) known h =
      by_size (bad_size lower urlparse size) refl
    where
      size : Value
      size = either lower urlparse (get "size" raw) (get "size_bytes" raw)

      item : GalleryItem
      item = image_of lower urlparse raw default url e

      by_size :
          (b : Bool)
          → bad_size lower urlparse size ≡ b
          → OfOption IsUsable (if b then none else some item)
      by_size true q = tt
      by_size false q = record {
        role_lem = role_of-IsKnown (get "role" raw) default known;
        extension_lem = (e, refl, h);
        size_lem = fits_lem size q;
      }

  parsed_image-IsUsable :
      (raw : Fields) (default url scheme netloc path : String)
      → IsKnown default
      → Answers
          (OfOption IsUsable)
          (parsed_image lower urlparse raw default url (scheme, netloc, path))
  parsed_image-IsUsable raw default url scheme netloc path known =
      by_scheme (is_web lower urlparse scheme netloc)
    where
      mime : Value
      mime = either lower urlparse (get "mime_type" raw) (get "mimetype" raw)

      by_scheme :
          (b : Bool)
          → Answers (OfOption IsUsable) (
              if b
              then is_allowed_image lower urlparse (get "extension" raw) mime url
                >>= (λ e. ok (sized_image lower urlparse raw default url e))
              else ok none)
      by_scheme false = tt
      by_scheme true =
          bind-Answers (OfOption IsAllowed) (OfOption IsUsable)
            (is_allowed_image lower urlparse (get "extension" raw) mime url) _
            (is_allowed_image-IsAllowed lower urlparse (get "extension" raw) mime url)
            (λ e q. sized_image-IsUsable raw default url e known q)

  url_image-IsUsable :
      (raw : Fields) (default : String) (o : Option String)
      → IsKnown default
      → Answers (OfOption IsUsable) (url_image lower urlparse raw default o)
  url_image-IsUsable raw default none known = tt
  url_image-IsUsable raw default (some url) known =
      bind-Answers (λ p. Unit) (OfOption IsUsable) (urlparse url) _ (anything-Answers _)
        (λ (scheme, netloc, path) q. parsed_image-IsUsable raw default url scheme netloc path known)

  accept_image-IsUsable :
      (seen : List String) (o : Option GalleryItem) (r : List GalleryItem × ℕ)
      → OfOption IsUsable o
      → All IsUsable r.0
      → All IsUsable (accept_image lower urlparse seen o r).0
  accept_image-IsUsable seen none r h hs = hs
  accept_image-IsUsable seen (some i) r h hs = by_seen (contains i.url seen)
    where
      by_seen : (b : Bool) → All IsUsable (if b then r.0 else i ∷ r.0)
      by_seen true = hs
      by_seen false = (h, hs)

  scan_gallery-IsUsable :
      (seen : List String) (raw : List (Fields × String))
      → All (λ x. IsKnown x.1) raw
      → Answers (λ r. All IsUsable r.0) (scan_gallery lower urlparse seen raw)
  unfolding scan_gallery sanitize_gallery_item
  scan_gallery-IsUsable seen [] known = tt
  scan_gallery-IsUsable seen ((raw, default) ∷ rest) (known, knowns) =
      bind-Answers (OfOption IsUsable) (λ r. All IsUsable r.0)
        (url_image lower urlparse raw default (as_str (get "url" raw))) _
        (url_image-IsUsable raw default (as_str (get "url" raw)) known)
        (λ o h.
          bind-Answers (λ r. All IsUsable r.0) (λ r. All IsUsable r.0)
            (scan_gallery lower urlparse (seen_after lower urlparse seen o) rest) _
            (scan_gallery-IsUsable (seen_after lower urlparse seen o) rest knowns)
            (λ r hs. accept_image-IsUsable seen o r h hs))

  take-IsUsable :
      (n : ℕ) (items : List GalleryItem) → All IsUsable items → All IsUsable (take n items)
  take-IsUsable zero items hs = tt
  take-IsUsable (suc n) [] hs = tt
  take-IsUsable (suc n) (i ∷ items) (h, hs) = (h, take-IsUsable n items hs)

  pub sanitize_gallery-IsUsable :
      (raw : List (Fields × String))
      → All (λ x. IsKnown x.1) raw
      → Answers (λ g. All IsUsable g.accepted) (sanitize_gallery lower urlparse raw)
  unfolding sanitize_gallery
  sanitize_gallery-IsUsable raw known =
      bind-Answers (λ r. All IsUsable r.0) (λ g. All IsUsable g.accepted)
        (scan_gallery lower urlparse [] raw) _ (scan_gallery-IsUsable [] raw known)
        (λ (items, rejected) hs. take-IsUsable max_gallery_items items hs)
