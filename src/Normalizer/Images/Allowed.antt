-- ===== src/Normalizer/Images/Allowed.antt =====
-- normalizer.py: the extension that `_is_allowed_image` answers, and rules on answers.
use marketer.Prelude.{
  String, Bool, true, false, Option, none, some, ◌≡◌, refl, ◌==◌, contains, if◌then◌else◌,
}
use marketer.Value.{Value, null, str, bool, int, float, obj, arr, Result, ok, err, ◌>>=◌}
use marketer.Normalizer.Images.{
  PathParser, allowed_extensions, allowed_option, lowered_extension, extension_from_url,
  mime_extension, or_else_suffix, or_else_mime, is_allowed_image,
}

-- What holds of an answer, if there is one.
abbrev pub Answers : {A : Type 0} → (A → Type 0) → Result A → Type 0
Answers P (ok a) = P a
Answers P (err e) = Unit

abbrev pub OfOption : {A : Type 0} → (A → Type 0) → Option A → Type 0
OfOption P none = Unit
OfOption P (some a) = P a

pub bind-Answers :
    {A B : Type 0} (P : A → Type 0) (Q : B → Type 0) (r : Result A) (k : A → Result B)
    → Answers P r
    → ((a : A) → P a → Answers Q (k a))
    → Answers Q (r >>= k)
bind-Answers P Q (ok a) k h f = f a h
bind-Answers P Q (err e) k h f = tt

pub anything-Answers : {A : Type 0} (r : Result A) → Answers (λ a. Unit) r
anything-Answers (ok a) = tt
anything-Answers (err e) = tt

abbrev pub IsAllowed : String → Type 0
IsAllowed e = contains e allowed_extensions ≡ true

module _ (lower : String → String) (urlparse : PathParser) where
  allowed_option-IsAllowed :
      (o : Option String) → OfOption IsAllowed (allowed_option lower urlparse o)
  allowed_option-IsAllowed none = tt
  allowed_option-IsAllowed (some s) = by_test (contains s allowed_extensions) refl
    where
      by_test :
          (b : Bool)
          → contains s allowed_extensions ≡ b
          → OfOption IsAllowed (if b then some s else none)
      by_test true h = h
      by_test false h = tt

  mime_extension-IsAllowed :
      (v : Value) → Answers (OfOption IsAllowed) (mime_extension lower urlparse v)
  mime_extension-IsAllowed (str s) = by_type (s == "image/jpeg") (s == "image/png")
    where
      by_type :
          (b c : Bool)
          → OfOption IsAllowed (if b then some "jpeg" else if c then some "png" else none)
      by_type true c = refl
      by_type false true = refl
      by_type false false = tt
  mime_extension-IsAllowed (bool b) = tt
  mime_extension-IsAllowed (int z) = tt
  mime_extension-IsAllowed (float b r) = tt
  mime_extension-IsAllowed (obj fs) = tt
  mime_extension-IsAllowed (arr vs) = tt
  mime_extension-IsAllowed null = tt

  or_else_suffix-IsAllowed :
      (o : Option String) (url : String)
      → OfOption IsAllowed o
      → OfOption IsAllowed (or_else_suffix lower urlparse o url)
  or_else_suffix-IsAllowed none url h =
      allowed_option-IsAllowed (extension_from_url lower urlparse url)
  or_else_suffix-IsAllowed (some e) url h = h

  or_else_mime-IsAllowed :
      (o : Option String) (mime : Value) (url : String)
      → OfOption IsAllowed o
      → Answers (OfOption IsAllowed) (or_else_mime lower urlparse o mime url)
  or_else_mime-IsAllowed none mime url h =
      bind-Answers (OfOption IsAllowed) (OfOption IsAllowed) (mime_extension lower urlparse mime) _
        (mime_extension-IsAllowed mime) (λ m q. or_else_suffix-IsAllowed m url q)
  or_else_mime-IsAllowed (some e) mime url h = h

  pub is_allowed_image-IsAllowed :
      (extension mime : Value) (url : String)
      → Answers (OfOption IsAllowed) (is_allowed_image lower urlparse extension mime url)
  unfolding is_allowed_image
  is_allowed_image-IsAllowed extension mime url =
      bind-Answers (λ e. Unit) (OfOption IsAllowed) (lowered_extension lower urlparse extension) _
        (anything-Answers _) (λ e q. or_else_mime-IsAllowed _ mime url (allowed_option-IsAllowed e))
