-- ===== src/Canonical/Encoder/Prefix.antt =====
-- The texts that protocol/canonical.py writes for tagged trees, compared with one another.
use defined_quant_components.Common.{
  ℕ, ◌+◌, ◌-◌, ◌*◌, ◌≡◌, ◌≢◌, refl, sym, ap, ◌∙◌, Bool, true, false, not, ◌||◌, Option, none, some,
  List, [], ◌∷◌, ◌++◌, ok, ltb, ◌==◌, if◌then◌else◌, arith, append_assoc, >>=-eq-ok,
}
use defined_quant_components.Utf8.{Text}
use defined_quant_components.Canonical.Number.{hex}
use defined_quant_components.Canonical.Encoder.{
  Tree, Trees, null, truth, str, list, nil, cons, escape_char, escape, quoted, join,
  encode_tagged_json, encode_parts,
}

abbrev hex_value : ℕ → ℕ
hex_value d = if ltb d 58 then d - 48 else d - 87

abbrev unescape_short : ℕ → Option ℕ
unescape_short y =
    if y == b'b'
    then some 8
    else if y == b't'
    then some 9
    else if y == b'n'
    then some 10
    else if y == b'f'
    then some 12
    else if y == b'r'
    then some 13
    else if y == b'u'
    then none
    else some y

abbrev unescape_hex : Text → Option (ℕ × Text)
unescape_hex (a ∷ b ∷ c ∷ d ∷ s) = some (hex_value c * 16 + hex_value d, s)
unescape_hex _ = none

abbrev unescape_pair : Text → Option (ℕ × Text)
unescape_pair [] = none
unescape_pair (y ∷ s) = elim (unescape_short y) [ some c ↦ some (c, s) | none ↦ unescape_hex s ]

-- Reads back one character that `escape_char` wrote.
unescape_char : Text → Option (ℕ × Text)
unescape_char [] = none
unescape_char (x ∷ s) = if x == 92 then unescape_pair s else some (x, s)

unescape_char-escape_char : (c : ℕ) (r : Text) → unescape_char (escape_char c ++ r) ≡ some (c, r)
unfolding unescape_char escape_char hex
unescape_char-escape_char c r = ground arith

-- No escaped character begins with the quotation mark.
escape_char-ne-quote : (c : ℕ) (r s : Text) → escape_char c ++ r ≢ 34 ∷ s
unfolding escape_char
escape_char-ne-quote c r s = ground arith

escape-prefix : (s t r q : Text) → escape s ++ 34 ∷ r ≡ escape t ++ 34 ∷ q → (s ≡ t) × (r ≡ q)
unfolding escape
escape-prefix [] [] r q h = (refl, cc)
escape-prefix [] (d ∷ t) r q h = absurd (
    escape_char-ne-quote d (escape t ++ 34 ∷ q) r
      (sym (h ∙ append_assoc (escape_char d) (escape t) (34 ∷ q))))
escape-prefix (c ∷ s) [] r q h = absurd (
    escape_char-ne-quote c (escape s ++ 34 ∷ r) q
      (sym (append_assoc (escape_char c) (escape s) (34 ∷ r)) ∙ h))
escape-prefix (c ∷ s) (d ∷ t) r q h =
    let both : escape_char c ++ (escape s ++ 34 ∷ r) ≡ escape_char d ++ (escape t ++ 34 ∷ q) =
      sym (append_assoc (escape_char c) (escape s) (34 ∷ r))
      ∙ h
      ∙ append_assoc (escape_char d) (escape t) (34 ∷ q) in
    let read = ap unescape_char both in
    let same : ◌≡◌ {A = Option (ℕ × Text)} (some (c, escape s ++ 34 ∷ r))
        (some (d, escape t ++ 34 ∷ q)) =
      sym (unescape_char-escape_char c (escape s ++ 34 ∷ r))
      ∙ read
      ∙ unescape_char-escape_char d (escape t ++ 34 ∷ q) in
    let (st, rq) = escape-prefix s t r q (cc same) in (cc (same, st), rq)

-- The text of a tree with no join and no error.
mutual
  render : Tree → Text
  render null = b'n' ∷ b'u' ∷ b'l' ∷ b'l' ∷ []
  render (truth true) = b't' ∷ b'r' ∷ b'u' ∷ b'e' ∷ []
  render (truth false) = b'f' ∷ b'a' ∷ b'l' ∷ b's' ∷ b'e' ∷ []
  render (str s) = quoted s
  render (list ts) = b'[' ∷ render_list ts

  -- What follows the opening bracket.
  render_list : Trees → Text
  render_list nil = b']' ∷ []
  render_list (cons t ts) = render t ++ render_rest ts

  -- What follows an item.
  render_rest : Trees → Text
  render_rest nil = b']' ∷ []
  render_rest (cons t ts) = b',' ∷ (render t ++ render_rest ts)

-- How a text may begin where an item stands, or `]`.
starts_item : Text → Bool
starts_item [] = false
starts_item (c ∷ s) = not (c == b']' || c == b',')

starts_item-render : (t : Tree) (r : Text) → starts_item (render t ++ r) ≡ true
unfolding starts_item render
starts_item-render null r = refl
starts_item-render (truth true) r = refl
starts_item-render (truth false) r = refl
starts_item-render (str s) r = refl
starts_item-render (list ts) r = refl

regroup :
    (t u : Tree) (x y r q : Text)
    → (render t ++ x) ++ r ≡ (render u ++ y) ++ q
    → render t ++ (x ++ r) ≡ render u ++ (y ++ q)
regroup t u x y r q h = sym (append_assoc (render t) x r) ∙ h ∙ append_assoc (render u) y q

not_item : (t : Tree) (c : ℕ) (r s : Text) → starts_item (c ∷ s) ≡ false → render t ++ r ≢ c ∷ s
not_item t c r s e h = cc (starts_item-render t r, ap starts_item h, e)

quoted-tail :
    (s t r q : Text) → quoted s ++ r ≡ quoted t ++ q → escape s ++ 34 ∷ r ≡ escape t ++ 34 ∷ q
quoted-tail s t r q h =
    cc (h, append_assoc (escape s) (34 ∷ []) r, append_assoc (escape t) (34 ∷ []) q)

mutual
  unfolding render starts_item

  render-prefix : (t u : Tree) (r q : Text) → render t ++ r ≡ render u ++ q → (t ≡ u) × (r ≡ q)
  render-prefix null null r q h = (refl, cc)
  render-prefix (truth true) (truth true) r q h = (refl, cc)
  render-prefix (truth false) (truth false) r q h = (refl, cc)
  render-prefix (str s) (str s') r q h =
      let (e, rest) = escape-prefix s s' r q (quoted-tail s s' r q h) in (ap str e, rest)
  render-prefix (list ts) (list us) r q h =
      let (e, rest) = render_list-prefix ts us r q (cc) in (ap list e, rest)
  render-prefix _ _ r q h = ground arith

  render_list-prefix :
      (ts us : Trees) (r q : Text) → render_list ts ++ r ≡ render_list us ++ q → (ts ≡ us) × (r ≡ q)
  render_list-prefix nil nil r q h = (refl, cc)
  render_list-prefix nil (cons u us) r q h = absurd (
      not_item u b']' (render_rest us ++ q) r refl
        (sym (h ∙ append_assoc (render u) (render_rest us) q)))
  render_list-prefix (cons t ts) nil r q h = absurd (
      not_item t b']' (render_rest ts ++ r) q refl
        (sym (append_assoc (render t) (render_rest ts) r) ∙ h))
  render_list-prefix (cons t ts) (cons u us) r q h =
      let (e, rest) =
        render-prefix t u (render_rest ts ++ r) (render_rest us ++ q)
          (regroup t u (render_rest ts) (render_rest us) r q h) in
      let (es, end) = render_rest-prefix ts us r q rest in (cc (e, es), end)

  render_rest-prefix :
      (ts us : Trees) (r q : Text) → render_rest ts ++ r ≡ render_rest us ++ q → (ts ≡ us) × (r ≡ q)
  render_rest-prefix nil nil r q h = (refl, cc)
  render_rest-prefix nil (cons u us) r q h = ground arith
  render_rest-prefix (cons t ts) nil r q h = ground arith
  render_rest-prefix (cons t ts) (cons u us) r q h =
      let (e, rest) =
        render-prefix t u (render_rest ts ++ r) (render_rest us ++ q)
          (regroup t u (render_rest ts) (render_rest us) r q (cc)) in
      let (es, end) = render_rest-prefix ts us r q rest in (cc (e, es), end)

encode_parts-cons :
    (t : Tree) (ts : Trees) (ps : List Text)
    → encode_parts (cons t ts) ≡ ok ps
    → (q : Text) × (qs : List Text) × (encode_tagged_json t ≡ ok q)
      × (encode_parts ts ≡ ok qs)
      × (ps ≡ q ∷ qs)
unfolding encode_tagged_json
encode_parts-cons t ts ps h =
    let (q, eq, more) = >>=-eq-ok (encode_tagged_json t) _ h in
    let (qs, eqs, last) = >>=-eq-ok (encode_parts ts) _ more in (q, qs, eq, eqs, cc last)

mutual
  unfolding encode_tagged_json render

  encode_tagged_json-render : (t : Tree) (s : Text) → encode_tagged_json t ≡ ok s → s ≡ render t
  encode_tagged_json-render null s h = cc
  encode_tagged_json-render (truth true) s h = cc
  encode_tagged_json-render (truth false) s h = cc
  encode_tagged_json-render (str x) s h = ground arith
  encode_tagged_json-render (list nil) s h = cc
  encode_tagged_json-render (list (cons t ts)) s h =
      let (ps, e, f) = >>=-eq-ok (encode_parts (cons t ts)) _ h in
      let (q, qs, eq, eqs, eps) = encode_parts-cons t ts ps e in
      cc (f, eps, encode_tagged_json-render t q eq, encode_parts-rest ts qs q eqs)

  encode_parts-rest :
      (ts : Trees) (ps : List Text) (p : Text)
      → encode_parts ts ≡ ok ps
      → join (p ∷ ps) ++ b']' ∷ [] ≡ p ++ render_rest ts
  encode_parts-rest nil [] p h = refl
  encode_parts-rest nil (q ∷ ps) p h = cc
  encode_parts-rest (cons t ts) ps p h =
      let (q, qs, eq, eqs, eps) = encode_parts-cons t ts ps h in
      rw eps (
        cc (
          append_assoc p (b',' ∷ join (q ∷ qs)) (b']' ∷ []),
          encode_tagged_json-render t q eq,
          encode_parts-rest ts qs q eqs,
        ))

-- No two trees are written as the same text.
pub encode_tagged_json_injective :
    (t u : Tree) (s : Text) → encode_tagged_json t ≡ ok s → encode_tagged_json u ≡ ok s → t ≡ u
encode_tagged_json_injective t u s h k =
    let same : render t ++ [] ≡ render u ++ [] =
      ap (λ (l : Text). l ++ [])
        (sym (encode_tagged_json-render t s h) ∙ encode_tagged_json-render u s k) in
    (render-prefix t u [] [] same).0
