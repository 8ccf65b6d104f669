-- ===== src/Normalizer/Images.antt =====
-- normalizer.py: one image of the envelope, and the gallery that is made of all of them. `lower` is
-- `str.lower`, and `urlparse` gives the scheme, the network location and the path of a URL.
pub mod Kept
pub mod Allowed
pub mod Usable
use marketer.Prelude.{
  ℕ, zero, suc, ◌+◌, String, Bool, true, false, ◌&&◌, ◌||◌, not, Option, none, some, List, [], ◌∷◌,
  ◌==◌, eqb, ltb, length, take, contains, is_some, if◌then◌else◌,
}
use marketer.Value.{
  ℤ, pos, negsuc, Value, null, str, bool, int, float, obj, arr, Fields, Result, ok, err,
  attribute_error, type_error, truthy, get, as_str, ◌>>=◌,
}
use marketer.Context.{GalleryItem}
use marketer.Text.{has_substring}
use marketer.Normalizer.Clean.{clean_string, clean_list}

abbrev pub PathParser : Type 0
PathParser = String → Result (String × String × String)

abbrev pub allowed_extensions : List String
allowed_extensions = "jpg" ∷ "jpeg" ∷ "png" ∷ []

abbrev pub max_size_bytes : ℕ
max_size_bytes = 20971520

abbrev pub max_gallery_items : ℕ
max_gallery_items = 20

-- `path.rsplit(".", 1)[-1]`
unfoldable pub after_last_dot : String → String
unfolding has_substring
after_last_dot String.[] = ""
after_last_dot (String.◌∷◌ c s) =
    let rest = after_last_dot s in
    if has_substring "." s then rest else if String.◌∷◌ c "" == "." then s else String.◌∷◌ c s

abbrev text_option : String → Option String
text_option s = if s == "" then none else some s

-- `(accepted, raw_count, rejected, truncated)`
pub record Sanitized : Type 0 where
  pub accepted : List GalleryItem
  pub raw_count : ℕ
  pub rejected : ℕ
  pub truncated : Bool

module _ (lower : String → String) (urlparse : PathParser) where
  abbrev suffix_of : Result (String × String × String) → Option String
  suffix_of (err e) = none
  suffix_of (ok (scheme, netloc, path)) =
      if has_substring "." path then text_option (lower (after_last_dot path)) else none

  -- `_extension_from_url`
  unfoldable pub extension_from_url : String → Option String
  unfolding after_last_dot has_substring
  extension_from_url url = suffix_of (urlparse url)

  abbrev allowed_option : Option String → Option String
  allowed_option none = none
  allowed_option (some s) = if contains s allowed_extensions then some s else none

  -- `(extension or "").lower() or None`
  abbrev lowered_extension : Value → Result (Option String)
  lowered_extension (str s) = ok (text_option (lower s))
  lowered_extension v = if truthy v then err attribute_error else ok none

  -- the extension of an allowed mime type; a list or a dictionary cannot be looked up
  abbrev mime_extension : Value → Result (Option String)
  mime_extension (str s) =
      ok (if s == "image/jpeg" then some "jpeg" else if s == "image/png" then some "png" else none)
  mime_extension (arr vs) = err type_error
  mime_extension (obj fs) = err type_error
  mime_extension v = ok none

  abbrev or_else_suffix : Option String → String → Option String
  or_else_suffix (some e) url = some e
  or_else_suffix none url = allowed_option (extension_from_url url)

  abbrev or_else_mime : Option String → Value → String → Result (Option String)
  or_else_mime (some e) mime url = ok (some e)
  or_else_mime none mime url = mime_extension mime >>= (λ m. ok (or_else_suffix m url))

  -- `_is_allowed_image`: the extension that it ends with, if the image is allowed
  unfoldable pub is_allowed_image : Value → Value → String → Result (Option String)
  unfolding extension_from_url
  is_allowed_image extension mime url =
      lowered_extension extension >>= (λ e. or_else_mime (allowed_option e) mime url)

  -- `a or b`
  abbrev either : Value → Value → Value
  either a b = if truthy a then a else b

  -- whether a size forbids the image; True is the number 1
  abbrev bad_size : Value → Bool
  bad_size (int (pos n)) = eqb n 0 || ltb max_size_bytes n
  bad_size (bool b) = not b
  bad_size _ = false

  abbrev int_option : Value → Option ℤ
  int_option (int z) = some z
  int_option (bool true) = some (pos 1)
  int_option (bool false) = some (pos 0)
  int_option _ = none

  abbrev bool_option : Value → Option Bool
  bool_option (bool b) = some b
  bool_option _ = none

  abbrev role_of : Value → String → String
  role_of (str s) default =
      if contains s ("brand_asset" ∷ "content" ∷ "reference" ∷ "unknown" ∷ []) then s else default
  role_of _ default = default

  abbrev image_of : Fields → String → String → String → GalleryItem
  image_of raw default url extension =
      let mime = either (get "mime_type" raw) (get "mimetype" raw) in
      record {
        url = url;
        name = clean_string lower (get "name" raw);
        extension = some extension;
        mime_type = as_str mime;
        size_bytes = int_option (either (get "size" raw) (get "size_bytes" raw));
        width = int_option (get "width" raw);
        height = int_option (get "height" raw);
        tags = clean_list lower (get "tags" raw);
        description = clean_string lower (get "description" raw);
        category = clean_string lower (get "category" raw);
        role = role_of (get "role" raw) default;
        used_previously = bool_option (get "used_previously" raw);
      }

  abbrev sized_image : Fields → String → String → Option String → Option GalleryItem
  sized_image raw default url none = none
  sized_image raw default url (some e) =
      if bad_size (either (get "size" raw) (get "size_bytes" raw))
      then none
      else some (image_of raw default url e)

  abbrev is_web : String → String → Bool
  is_web scheme netloc = (scheme == "http" || scheme == "https") && not (netloc == "")

  abbrev parsed_image :
      Fields → String → String → String × String × String → Result (Option GalleryItem)
  parsed_image raw default url (scheme, netloc, path) =
      if is_web scheme netloc
      then is_allowed_image (get "extension" raw)
          (either (get "mime_type" raw) (get "mimetype" raw)) url
        >>= (λ e. ok (sized_image raw default url e))
      else ok none

  abbrev url_image : Fields → String → Option String → Result (Option GalleryItem)
  url_image raw default none = ok none
  url_image raw default (some url) = urlparse url >>= (λ p. parsed_image raw default url p)

  -- `_sanitize_gallery_item`
  unfoldable pub sanitize_gallery_item : Fields → String → Result (Option GalleryItem)
  unfolding is_allowed_image
  sanitize_gallery_item raw default = url_image raw default (as_str (get "url" raw))

  -- The loop of `_sanitize_gallery`, after the URLs that were seen: what is accepted, and the count of
  -- what is rejected.
  abbrev pub accept_image :
      List String → Option GalleryItem → List GalleryItem × ℕ → List GalleryItem × ℕ
  accept_image seen none (items, rejected) = (items, suc rejected)
  accept_image seen (some i) (items, rejected) =
      (if contains i.url seen then items else i ∷ items, rejected)

  abbrev pub seen_after : List String → Option GalleryItem → List String
  seen_after seen none = seen
  seen_after seen (some i) = if contains i.url seen then seen else i.url ∷ seen

  unfoldable pub scan_gallery : List String → List (Fields × String) → Result (List GalleryItem × ℕ)
  scan_gallery seen [] = ok ([], 0)
  scan_gallery seen ((raw, default) ∷ rest) =
      sanitize_gallery_item raw default
      >>= (λ o. scan_gallery (seen_after seen o) rest >>= (λ r. ok (accept_image seen o r)))

  -- `_sanitize_gallery`
  unfoldable pub sanitize_gallery : List (Fields × String) → Result Sanitized
  sanitize_gallery raw = scan_gallery [] raw >>= (λ (items, rejected). ok (record {
    accepted = take max_gallery_items items;
    raw_count = length raw;
    rejected = rejected;
    truncated = ltb max_gallery_items (length items);
  }))
