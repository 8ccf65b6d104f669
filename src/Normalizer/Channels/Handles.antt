-- ===== src/Normalizer/Channels/Handles.antt =====
-- normalizer.py: lemmas on lists of channels and on the steps of the merge.
use marketer.Prelude.{
  String, Bool, true, false, ◌&&◌, ◌||◌, not, Option, none, some, List, [], ◌∷◌, ◌++◌, ◌≡◌, refl,
  ap, ◌∙◌, arith, ◌==◌, eq_iff, eq_refl, map, any, any-append, filter, All, if_keeps, Bool-cases,
  inl, inr, if◌then◌else◌,
}
use marketer.Context.{AvailableChannel}
use marketer.Normalizer.Channels.{
  same_option, has_handle, profile_handle, has_kind, overridden, new_kinds, always_channel,
}

-- A channel of a kind with a handle.
abbrev pub is_with : String → String → AvailableChannel → Bool
is_with kind url c = c.channel == kind && same_option c.url_or_handle (some url)

pub All-filter :
    (p : AvailableChannel → Bool) (xs : List AvailableChannel) → All (λ c. p c ≡ true) (filter p xs)
All-filter p [] = tt
All-filter p (x ∷ xs) = kept (p x) refl (All-filter p xs)
  where
    kept :
        (b : Bool)
        → p x ≡ b
        → All (λ c. p c ≡ true) (filter p xs)
        → All (λ c. p c ≡ true) (if b then x ∷ filter p xs else filter p xs)
    kept true h a = (h, a)
    kept false h a = a

pub any-filter :
    (p q : AvailableChannel → Bool) (xs : List AvailableChannel)
    → ((c : AvailableChannel) → p c ≡ true → q c ≡ true)
    → any p xs ≡ true
    → any p (filter q xs) ≡ true
any-filter p q [] f h = h
any-filter p q (x ∷ xs) f h = ground (arith, any-filter p q xs f, f x)

pub any-left :
    (p : AvailableChannel → Bool) (xs ys : List AvailableChannel)
    → any p xs ≡ true
    → any p (xs ++ ys) ≡ true
any-left p xs ys h = ground (arith, any-append p xs ys)

pub any-right :
    (p : AvailableChannel → Bool) (xs ys : List AvailableChannel)
    → any p ys ≡ true
    → any p (xs ++ ys) ≡ true
any-right p xs ys h = ground (arith, any-append p xs ys)

pub always_channel-any :
    (p : AvailableChannel → Bool) (kind hint : String) (xs : List AvailableChannel)
    → any p xs ≡ true
    → any p (always_channel kind hint xs) ≡ true
always_channel-any p kind hint xs h =
    if_keeps (λ r. any p r ≡ true) (has_kind kind xs) h (any-left p xs _ h)

pub has_kind-always_channel :
    (kind hint : String) (xs : List AvailableChannel)
    → has_kind kind (always_channel kind hint xs) ≡ true
has_kind-always_channel kind hint xs = elim (Bool-cases (has_kind kind xs)) [
  | inl e ↦ rw e e
  | inr e ↦ rw e (any-right (λ c. c.channel == kind) xs _ (ground (arith, eq_refl kind)))
]

overridden_with :
    (kind url : String) (ups : List (String × Option String)) (c : AvailableChannel)
    → profile_handle kind ups ≡ some url
    → (url == "") ≡ false
    → (c.channel == kind) ≡ true
    → is_with kind url (overridden ups c) ≡ true
overridden_with kind url ups c h n e =
    let same : profile_handle c.channel ups ≡ some url =
      ap (λ k. profile_handle k ups) ((eq_iff c.channel kind).0 e) ∙ h in
    rw e (rw same (rw n (ground (arith, eq_refl url))))

pub any-overridden :
    (kind url : String) (ups : List (String × Option String)) (xs : List AvailableChannel)
    → profile_handle kind ups ≡ some url
    → (url == "") ≡ false
    → has_kind kind xs ≡ true
    → any (is_with kind url) (map (overridden ups) xs) ≡ true
any-overridden kind url ups [] h n k = k
any-overridden kind url ups (c ∷ xs) h n k =
    ground (arith, any-overridden kind url ups xs h n, overridden_with kind url ups c h n)

pub any-new_kinds :
    (kind url : String) (ups : List (String × Option String)) (xs : List AvailableChannel)
    → profile_handle kind ups ≡ some url
    → (url == "") ≡ false
    → has_kind kind xs ≡ false
    → any (is_with kind url) (new_kinds xs ups) ≡ true
unfolding new_kinds profile_handle
any-new_kinds kind url [] xs h n k = cc
any-new_kinds kind url ((j, o) ∷ ups) xs h n k =
    placed (j == kind) refl h (λ g. any-new_kinds kind url ups xs g n k)
  where
    added : AvailableChannel
    added = record { channel = j; url_or_handle = o; label_hint = none }

    placed :
        (b : Bool)
        → (j == kind) ≡ b
        → (if b then o else profile_handle kind ups) ≡ some url
        → (profile_handle kind ups ≡ some url → any (is_with kind url) (new_kinds xs ups) ≡ true)
        → any (is_with kind url) (
            if has_handle o && not (has_kind j xs)
            then added ∷ new_kinds xs ups
            else new_kinds xs ups)
          ≡ true
    placed false e g ih =
        if_keeps (λ r. any (is_with kind url) r ≡ true) (has_handle o && not (has_kind j xs))
          {x = added ∷ new_kinds xs ups}
          (any-right (is_with kind url) (added ∷ []) (new_kinds xs ups) (ih g)) (ih g)
    placed true e g ih =
        let hk : has_kind j xs ≡ false = ap (λ i. has_kind i xs) ((eq_iff j kind).0 e) ∙ k in
        rw hk (rw (g, has_handle) (rw n (ground (arith, eq_refl url))))

pub same_option_refl : (o : Option String) → same_option o o ≡ true
same_option_refl none = refl
same_option_refl (some s) = eq_refl s

pub has_handle-same_option :
    (o q : Option String) → same_option o q ≡ true → has_handle o ≡ has_handle q
has_handle-same_option none none h = refl
has_handle-same_option none (some q) h = cc
has_handle-same_option (some o) none h = cc
has_handle-same_option (some o) (some q) h = ap (λ s. not (s == "")) ((eq_iff o q).0 h)

pub or_right : (a b : Bool) → b ≡ true → (a || b) ≡ true
or_right a b h = ground arith

pub same_handle :
    (url : String)
    → (url == "") ≡ false
    → (o : Option String) → same_option o (some url) ≡ true
    → has_handle o ≡ true
same_handle url n none h = cc
same_handle url n (some s) h =
    let e : (s == "") ≡ false = ap (λ x. x == "") ((eq_iff s url).0 h) ∙ n in ground arith
