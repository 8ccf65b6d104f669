-- ===== src/Db/Address/Ssl.antt =====
-- pg_url.py: the SSL keys of a query after its coercion.
use marketer.Prelude.{
  String, Bool, true, false, ◌&&◌, ◌||◌, not, Option, none, some, [], ◌∷◌, ◌≡◌, refl, ap, ◌∙◌,
  arith, ◌==◌, eq_iff, Bool-cases, inl, inr, any-append, filter, is_some, if◌then◌else◌,
}
use marketer.Db.Address.{
  Pairs, has_key, libpq_pairs, libpq_query, first_sslmode, add_ssl, asyncpg_query,
}

apart : (s : String) → (s == "sslmode" && s == "ssl") ≡ false
apart s = elim (Bool-cases (s == "sslmode")) [
  | inl e ↦ rw ((eq_iff s "sslmode").0 e) refl
  | inr e ↦ rw e refl
]

module _ (lower : String → String) (mode_lem : lower "sslmode" ≡ "sslmode")
    (ssl_lem : lower "ssl" ≡ "ssl") where
  made_no_ssl : (lower "sslmode" == "ssl") ≡ false
  made_no_ssl = rw mode_lem refl

  made_mode : (lower "sslmode" == "sslmode") ≡ true
  made_mode = rw mode_lem refl

  added_ssl : (lower "ssl" == "ssl") ≡ true
  added_ssl = rw ssl_lem refl

  added_no_mode : (lower "ssl" == "sslmode") ≡ false
  added_no_mode = rw ssl_lem refl

  abbrev is_ssl : String → Bool
  is_ssl k = lower k == "ssl"

  libpq_pairs_no_ssl :
      (has consumed : Bool) (pairs : Pairs)
      → has_key lower "ssl" (libpq_pairs lower has consumed pairs) ≡ false
  unfolding libpq_pairs
  libpq_pairs_no_ssl has consumed [] = refl
  libpq_pairs_no_ssl has consumed ((k, v) ∷ rest) =
      let ih = libpq_pairs_no_ssl (has || (is_ssl k && not consumed)) (consumed || is_ssl k) rest in
      ground (arith, ih, made_no_ssl, apart (lower k))

  -- A mode is there at the end, unless there was neither a mode nor an `ssl` that counts.
  libpq_pairs_mode :
      (has consumed : Bool) (pairs : Pairs)
      → (has || has_key lower "sslmode" (libpq_pairs lower has consumed pairs))
        ≡ (has || (has_key lower "sslmode" pairs || (has_key lower "ssl" pairs && not consumed)))
  unfolding libpq_pairs
  libpq_pairs_mode has consumed [] = refl
  libpq_pairs_mode has consumed ((k, v) ∷ rest) =
      let ih = libpq_pairs_mode (has || (is_ssl k && not consumed)) (consumed || is_ssl k) rest in
      ground (arith, ih, made_mode)

  -- Where a mode is known, the modes stay and none is made.
  libpq_pairs_had :
      (consumed : Bool) (pairs : Pairs)
      → has_key lower "sslmode" (libpq_pairs lower true consumed pairs)
        ≡ has_key lower "sslmode" pairs
  unfolding libpq_pairs
  libpq_pairs_had consumed [] = refl
  libpq_pairs_had consumed ((k, v) ∷ rest) =
      let ih = libpq_pairs_had (consumed || is_ssl k) rest in ground (arith, ih)

  -- Without an `ssl` the loop keeps every pair.
  libpq_pairs_keep :
      (has consumed : Bool) (pairs : Pairs)
      → has_key lower "ssl" pairs ≡ false
      → libpq_pairs lower has consumed pairs ≡ pairs
  unfolding libpq_pairs
  libpq_pairs_keep has consumed [] h = refl
  libpq_pairs_keep has consumed ((k, v) ∷ rest) h =
      let e : is_ssl k ≡ false = ground arith in
      let r : has_key lower "ssl" rest ≡ false = ground arith in
      rw e
        (kept (lower k == "sslmode") (libpq_pairs_keep (has || false) (consumed || false) rest r))
    where
      kept :
          (b : Bool) {xs : Pairs}
          → xs ≡ rest
          → (if b then (k, v) ∷ xs else (k, v) ∷ xs) ≡ (k, v) ∷ rest
      kept true q = ap (λ r. (k, v) ∷ r) q
      kept false q = ap (λ r. (k, v) ∷ r) q

  has_key-filter :
      (pairs : Pairs)
      → has_key lower "sslmode" (filter (λ p. not (lower p.0 == "sslmode")) pairs) ≡ false
  has_key-filter [] = refl
  has_key-filter ((k, v) ∷ rest) = ground (arith, has_key-filter rest)

  ssl-filter :
      (pairs : Pairs)
      → has_key lower "ssl" (filter (λ p. not (lower p.0 == "sslmode")) pairs)
        ≡ has_key lower "ssl" pairs
  ssl-filter [] = refl
  ssl-filter ((k, v) ∷ rest) = ground (arith, ssl-filter rest, apart (lower k))

  is_some-first_sslmode :
      (pairs : Pairs) → is_some (first_sslmode lower pairs) ≡ has_key lower "sslmode" pairs
  unfolding first_sslmode
  is_some-first_sslmode [] = refl
  is_some-first_sslmode ((k, v) ∷ rest) = ground (arith, is_some-first_sslmode rest)

  add_ssl_keys :
      (b : Bool) (o : Option String) (out : Pairs)
      → has_key lower "ssl" out ≡ b
      → (has_key lower "ssl" (add_ssl lower b o out) ≡ (b || is_some o))
        × (has_key lower "sslmode" (add_ssl lower b o out) ≡ has_key lower "sslmode" out)
  add_ssl_keys true o out h = (h, refl)
  add_ssl_keys false none out h = (h, refl)
  add_ssl_keys false (some v) out h = (
    ground (arith, any-append (λ p. lower p.0 == "ssl") out (("ssl", v) ∷ []), added_ssl),
    ground (arith, any-append (λ p. lower p.0 == "sslmode") out (("ssl", v) ∷ []), added_no_mode),
  )

  libpq_query_mode :
      (pairs : Pairs)
      → has_key lower "sslmode" (libpq_query lower pairs)
        ≡ (has_key lower "sslmode" pairs || has_key lower "ssl" pairs)
  libpq_query_mode pairs =
      by_had (has_key lower "sslmode" pairs) (has_key lower "ssl" pairs)
        (libpq_pairs_mode _ false pairs) (λ h. rw h (libpq_pairs_had false pairs ∙ h))
    where
      by_had :
          (b s : Bool) {x : Bool}
          → (b || x) ≡ (b || (b || (s && true)))
          → (b ≡ true → x ≡ true)
          → x ≡ (b || s)
      by_had true s e f = f refl
      by_had false true e f = e
      by_had false false e f = e

  asyncpg_query_keys :
      (pairs : Pairs)
      → (has_key lower "sslmode" (asyncpg_query lower pairs) ≡ false)
        × (has_key lower "ssl" (asyncpg_query lower pairs)
            ≡ (has_key lower "ssl" pairs || has_key lower "sslmode" pairs))
  asyncpg_query_keys pairs =
      let keys =
        add_ssl_keys (has_key lower "ssl" pairs) (first_sslmode lower pairs)
          (filter (λ p. not (lower p.0 == "sslmode")) pairs) (ssl-filter pairs) in
      (
        keys.1 ∙ has_key-filter pairs,
        keys.0 ∙ ap (λ b. has_key lower "ssl" pairs || b) (is_some-first_sslmode pairs),
      )

  -- For psycopg a query has no `ssl` left, it has an `sslmode` exactly if it had either key, and a
  -- second coercion changes nothing. For asyncpg it has no `sslmode` left and an `ssl` exactly if it
  -- had either key. Keys are compared in lower case; `lower` keeps the two names.
  pub query_keys :
      (pairs : Pairs)
      → (has_key lower "ssl" (libpq_query lower pairs) ≡ false)
        × (has_key lower "sslmode" (libpq_query lower pairs)
            ≡ (has_key lower "sslmode" pairs || has_key lower "ssl" pairs))
        × (libpq_query lower (libpq_query lower pairs) ≡ libpq_query lower pairs)
        × (has_key lower "sslmode" (asyncpg_query lower pairs) ≡ false)
        × (has_key lower "ssl" (asyncpg_query lower pairs)
            ≡ (has_key lower "ssl" pairs || has_key lower "sslmode" pairs))
  query_keys pairs =
      let clean = libpq_pairs_no_ssl (has_key lower "sslmode" pairs) false pairs in
      let kept =
        libpq_pairs_keep (has_key lower "sslmode" (libpq_query lower pairs)) false
          (libpq_query lower pairs) clean in
      (
        clean,
        libpq_query_mode pairs,
        kept,
        (asyncpg_query_keys pairs).0,
        (asyncpg_query_keys pairs).1,
      )
