-- ===== src/Core/Cookies/RoundTrip.antt =====
-- core/cookies.hpp: a well-formed header is read back, pair by pair.
use boost_taar.Common.{
  test-ne, ◌==◌, ◌>>=◌, >>=-eq-some, ℕ, ◌≡◌, ◌≢◌, refl, ◌∙◌, true, false, Option, some, List, [],
  ◌∷◌, ◌++◌, arith, Bytes, All, append-nil, append_assoc,
}
use boost_taar.Core.Cookies.{
  token_char, unquoted_char, Items, name_start, in_name, value_start, value_unquoted, separator,
  Parser, success, store, store_empty, step_in, finish, run, parse_into,
}

abbrev pub IsToken : Bytes → Type 0
IsToken = All (λ c. token_char c ≡ true)

abbrev pub IsUnquoted : Bytes → Type 0
IsUnquoted = All (λ c. unquoted_char c ≡ true)

abbrev pub IsPair : Bytes × Bytes → Type 0
IsPair (name, value) = (name ≢ []) × IsToken name × IsUnquoted value

token-ne-equals : (c : ℕ) → token_char c ≡ true → (c == b'=') ≡ false
unfolding token_char
token-ne-equals c h = test-ne token_char b'=' c refl h

unquoted-ne : (c : ℕ) → unquoted_char c ≡ true → ((c == b';') ≡ false) × ((c == b'"') ≡ false)
unfolding unquoted_char
unquoted-ne c h = (test-ne unquoted_char b';' c refl h, test-ne unquoted_char b'"' c refl h)

-- `name=value; name=value`, as a client sends it.
abbrev pub cookie_header : List (Bytes × Bytes) → Bytes
cookie_header [] = []
cookie_header ((name, value) ∷ []) = name ++ (b'=' ∷ value)
cookie_header ((name, value) ∷ p ∷ ps) =
    name ++ (b'=' ∷ (value ++ (b';' ∷ b' ' ∷ cookie_header (p ∷ ps))))

module _ (decode : Bytes → Option Bytes) where
  -- The pairs are decoded and stored one after the other.
  abbrev pub store_all : List (Bytes × Bytes) → Items → Option Items
  store_all [] items = some items
  store_all ((name, value) ∷ ps) items =
      store decode name value items >>= λ later. store_all ps later

  run-in_name :
      (cs rest : Bytes) (p : Parser)
      → p.state ≡ in_name
      → IsToken cs
      → run decode p (cs ++ (b'=' ∷ rest))
        ≡ run decode (record p { name = p.name ++ cs; value = []; state = value_start }) rest
  unfolding run step_in
  run-in_name [] rest p m h = rw append-nil (ground arith)
  run-in_name (c ∷ cs) rest p m (h, hs) = ground (
    arith,
    token-ne-equals c h,
    run-in_name cs rest (record p { name = p.name ++ c ∷ [] }) m hs,
    append_assoc p.name (c ∷ []) cs,
  )

  run-name_start :
      (name rest : Bytes) (p : Parser)
      → p.state ≡ name_start
      → name ≢ []
      → IsToken name
      → run decode p (name ++ (b'=' ∷ rest))
        ≡ run decode (record p { name = name; value = []; state = value_start }) rest
  unfolding run step_in
  run-name_start [] rest p m ne h = absurd (ne refl)
  run-name_start (c ∷ cs) rest p m ne (h, hs) =
      ground (arith, run-in_name cs rest (record p { name = c ∷ []; state = in_name }) refl hs)

  run-value_unquoted :
      (cs rest : Bytes) (p : Parser)
      → p.state ≡ value_unquoted
      → IsUnquoted cs
      → run decode p (cs ++ rest) ≡ run decode (record p { value = p.value ++ cs }) rest
  unfolding run step_in
  run-value_unquoted [] rest p m h = rw append-nil
  run-value_unquoted (c ∷ cs) rest p m (h, hs) = ground (
    arith,
    unquoted-ne c h,
    run-value_unquoted cs rest (record p { value = p.value ++ c ∷ [] }) m hs,
    append_assoc p.value (c ∷ []) cs,
  )

  -- The value of a pair, up to the semicolon.
  run-value :
      (value rest : Bytes) (p : Parser) {items : Items}
      → p.state ≡ value_start
      → p.value ≡ []
      → decode [] ≡ some []
      → IsUnquoted value
      → store decode p.name value p.items ≡ some items
      → run decode p (value ++ (b';' ∷ rest))
        ≡ run decode (record p { value = value; items = items; state = separator }) rest
  unfolding run step_in store store_empty
  run-value [] rest p {items} m v d h e = ground arith
  run-value (c ∷ cs) rest p {items} m v d (h, hs) e = ground (
    arith,
    unquoted-ne c h,
    run-value_unquoted cs (b';' ∷ rest) (record p { state = value_unquoted; value = c ∷ [] }) refl
        hs,
  )

  run_last :
      (value : Bytes) (p : Parser) {items : Items}
      → p.state ≡ value_start
      → p.value ≡ []
      → IsUnquoted value
      → store decode p.name value p.items ≡ some items
      → run decode p value ≡ (items, success)
  unfolding run step_in finish
  run_last [] p {items} m v h e = ground arith
  run_last (c ∷ cs) p {items} m v (h, hs) e = ground (
    arith,
    unquoted-ne c h,
    append-nil cs,
    run-value_unquoted cs [] (record p { state = value_unquoted; value = c ∷ [] }) refl hs,
  )

  run_separator :
      (rest : Bytes) (p : Parser)
      → p.state ≡ separator
      → run decode p (b' ' ∷ rest) ≡ run decode (record p { state = name_start }) rest
  unfolding run step_in
  run_separator rest p m = ground arith

  run-cookie_header :
      (ps : List (Bytes × Bytes)) (p : Parser) {items : Items}
      → p.state ≡ name_start
      → decode [] ≡ some []
      → All IsPair ps
      → store_all ps p.items ≡ some items
      → run decode p (cookie_header ps) ≡ (items, success)
  run-cookie_header [] p {items} m d h e = unfold run finish in ground arith
  run-cookie_header ((name, value) ∷ []) p {items} m d ((ne, hn, hv), _) e =
      let (mid, good, last) = >>=-eq-some (store decode name value p.items) _ e in
      run-name_start name value p m ne hn
      ∙ run_last value (record p { name = name; value = []; state = value_start }) refl refl hv (cc)
  run-cookie_header ((name, value) ∷ q ∷ ps) p {items} m d ((ne, hn, hv), hs) e =
      let (mid, good, later) = >>=-eq-some (store decode name value p.items) _ e in
      run-name_start name _ p m ne hn
      ∙ run-value value _ (record p { name = name; value = []; state = value_start }) refl refl d hv
          good
      ∙ run_separator _ _ refl
      ∙ run-cookie_header (q ∷ ps) _ refl d hs later

  -- A header of well-formed pairs is accepted, and stores exactly the decoded pairs, in order: the
  -- first of two equal names wins (`emplace`). The hypotheses on `decode` say that it accepts the
  -- empty text and these pairs.
  pub parse_into-cookie_header :
      (ps : List (Bytes × Bytes)) (items : Items) {out : Items}
      → decode [] ≡ some []
      → All IsPair ps
      → store_all ps items ≡ some out
      → parse_into decode (cookie_header ps) items ≡ (out, success)
  unfolding parse_into
  parse_into-cookie_header ps items {out} d h e = run-cookie_header ps _ refl d h e
