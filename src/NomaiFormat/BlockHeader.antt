-- ===== src/NomaiFormat/BlockHeader.antt =====
-- The attributes in the header of a block are read back from what the renderer writes.
use nomai.Base.{
  ℕ, ◌≡◌, refl, sym, ap, ◌∙◌, Bool, false, some, inl, inr, List, [], ◌∷◌, ◌++◌, map, append-nil,
  append_assoc, arith, ◌==◌, is_empty, All, Bool-cases, ok,
}
use nomai.NomaiFormat.Attributes.{
  IsKeyChar, IsAttrValue, IsAttrValue-IsValue, at, pair, key_no_equals, token_loop-pair,
  token_loop_space,
}
use nomai.NomaiFormat.Document.{render_attrs}
use nomai.NomaiFormat.Escaping.{unescape-escape_iff}
use nomai.NomaiFormat.Maps.{Ascends, insert_above}
use nomai.NomaiFormat.Model.{Externals, Value, string, other, JsonMap}
use nomai.NomaiFormat.Values.{
  needs_quote, escape_quotes, escape_header_value, render_attr_value, bare, flush, token_loop,
  split_attr_tokens, split_pair, attr_loop, parse_block_attrs,
}
use nomai.Text.Trim.{
  trim_end-append, trim_end_solid, trim_end-concat, trim_start_lem, before-append, from-append,
  is_empty-append,
}
use nomai.Text.{Text, is_whitespace, trim, trim_start, trim_end}

abbrev pub IsAttr : {x : Externals} → Text × Value x → Type 0
IsAttr (k, string s) = All IsKeyChar k × IsAttrValue s
IsAttr (k, other o) = ⊥

abbrev pub token : {x : Externals} → Text × Value x → Text
token (k, v) = k ++ (b'=' ∷ render_attr_value v)

pub token_ne : {x : Externals} (e : Text × Value x) → is_empty (token e) ≡ false
token_ne (k, v) = is_empty-append k _ refl

equals_solid : is_whitespace b'=' ≡ false
unfolding is_whitespace
equals_solid = refl

quote_solid : is_whitespace b'"' ≡ false
unfolding is_whitespace
quote_solid = refl

trim_start_space : (s : Text) → trim_start (b' ' ∷ s) ≡ trim_start s
unfolding trim_start
trim_start_space s = refl

trim_end-value :
    (s : Text)
    → IsAttrValue s
    → trim_end (b'=' ∷ escape_header_value s) ≡ b'=' ∷ escape_header_value s
unfolding escape_header_value
trim_end-value s v = elim (Bool-cases (needs_quote s)) [
  | inl q ↦ rw q (trim_end-concat (b'=' ∷ b'"' ∷ escape_quotes s) b'"' quote_solid)
  | inr q ↦ rw q (trim_end_solid (b'=' ∷ s) (equals_solid, v.when_bare q))
]

flush_lem :
    (tokens : List Text) (current : Text)
    → is_empty current ≡ false
    → (flush (at tokens current bare)).tokens ≡ tokens ++ current ∷ []
flush_lem tokens current h = ground arith

token_loop_end :
    (tokens : List Text) (current : Text)
    → token_loop (at tokens current bare) [] ≡ at tokens current bare
unfolding token_loop
token_loop_end tokens current = refl

split_pair_lem : (k v : Text) → All IsKeyChar k → split_pair (k ++ (b'=' ∷ v)) ≡ some (k, v)
unfolding split_pair
split_pair_lem k v h =
    let p : ℕ → Bool = λ c. c == b'=' in
    rw (from-append p k b'=' v (key_no_equals k h) refl, split_pair)
      (rw (before-append p k b'=' v (key_no_equals k h) refl))

pub is_empty-left : (s t : Text) → is_empty s ≡ false → is_empty (s ++ t) ≡ false
is_empty-left [] t h = cc
is_empty-left (c ∷ s) t h = refl

module _ {x : Externals} where
  trim_end-token : (e : Text × Value x) → IsAttr e → trim_end (token e) ≡ token e
  unfolding render_attr_value
  trim_end-token (k, string s) h =
      trim_end-append k (b'=' ∷ escape_header_value s) refl (trim_end-value s h.1)
  trim_end-token (k, other o) h = absurd h

  pub trim_end-attrs :
      (e : Text × Value x) (m : JsonMap x)
      → All IsAttr (e ∷ m)
      → trim_end (token e ++ render_attrs m) ≡ token e ++ render_attrs m
  unfolding render_attrs
  trim_end-attrs e [] h = rw append-nil (trim_end-token e h.0)
  trim_end-attrs e (f ∷ m) h = trim_end-append (token e) (render_attrs (f ∷ m)) refl (
      trim_end-append (b' ' ∷ []) (token f ++ render_attrs m)
        (is_empty-left (token f) _ (token_ne f)) (trim_end-attrs f m h.1))

  trim-attrs :
      (e : Text × Value x) (m : JsonMap x)
      → All IsAttr (e ∷ m)
      → trim (token e ++ render_attrs m) ≡ token e ++ render_attrs m
  trim-attrs ([], string s) m h =
      trim_start_lem b'=' _ equals_solid ∙ trim_end-attrs ([], string s) m h
  trim-attrs (c ∷ k, string s) m h =
      trim_start_lem _ _ ((h.0).0.0).solid ∙ trim_end-attrs (c ∷ k, string s) m h
  trim-attrs (k, other o) m h = absurd h.0

  token_loop-attrs :
      (tokens : List Text) (e : Text × Value x) (m : JsonMap x)
      → All IsAttr (e ∷ m)
      → (flush (token_loop (at tokens [] bare) (token e ++ render_attrs m))).tokens
        ≡ tokens ++ map token (e ∷ m)
  unfolding render_attrs render_attr_value
  token_loop-attrs tokens (k, string s) [] h =
      ap (λ r. (flush r).tokens)
        (token_loop-pair tokens k s [] (h.0).0 (h.0).1 ∙ token_loop_end tokens (pair k s))
      ∙ flush_lem tokens (pair k s) (token_ne {x = x} (k, string s))
  token_loop-attrs tokens (k, string s) (f ∷ m) h =
      ap (λ r. (flush r).tokens)
        (token_loop-pair tokens k s _ (h.0).0 (h.0).1
          ∙ token_loop_space tokens (pair k s) _ (token_ne {x = x} (k, string s)))
      ∙ token_loop-attrs (tokens ++ pair k s ∷ []) f m h.1
      ∙ append_assoc tokens (pair k s ∷ []) (map token (f ∷ m))
  token_loop-attrs tokens (k, other o) _ h = absurd h.0

  attr_loop-attrs :
      (n : ℕ) (out m : JsonMap x)
      → All IsAttr m
      → Ascends out m
      → attr_loop n out (map token m) ≡ ok (out ++ m)
  unfolding attr_loop render_attr_value
  attr_loop-attrs n out [] h a = ap ok (sym (append-nil out))
  attr_loop-attrs n out ((k, other o) ∷ m) h a = absurd h.0
  attr_loop-attrs n out ((k, string s) ∷ m) h a =
      rw (split_pair_lem k (escape_header_value s) h.0.0) (
        rw ((unescape-escape_iff s).1 (IsAttrValue-IsValue s h.0.1)) (
          rw (insert_above k (string s) out a.0) (
            attr_loop-attrs n (out ++ (k, string s) ∷ []) m h.1 a.1
            ∙ ap ok (append_assoc out ((k, string s) ∷ []) m))))

  parse_block_attrs_trimmed :
      (n : ℕ) (s : Text)
      → is_empty s ≡ false
      → trim s ≡ s
      → parse_block_attrs {x = x} n s ≡ attr_loop n [] (split_attr_tokens s)
  unfolding parse_block_attrs
  parse_block_attrs_trimmed n [] ne tr = cc
  parse_block_attrs_trimmed n (c ∷ s) ne tr = rw tr

  split_attr_tokens-attrs :
      (e : Text × Value x) (m : JsonMap x)
      → All IsAttr (e ∷ m)
      → split_attr_tokens (token e ++ render_attrs m) ≡ map token (e ∷ m)
  unfolding split_attr_tokens
  split_attr_tokens-attrs e m h = token_loop-attrs [] e m h

  parse_block_attrs-token :
      (n : ℕ) (e : Text × Value x) (m : JsonMap x)
      → All IsAttr (e ∷ m)
      → Ascends [] (e ∷ m)
      → parse_block_attrs n (token e ++ render_attrs m) ≡ ok (e ∷ m)
  parse_block_attrs-token n e m h a =
      parse_block_attrs_trimmed n (token e ++ render_attrs m)
        (is_empty-left (token e) (render_attrs m) (token_ne e)) (trim-attrs e m h)
      ∙ ap (attr_loop n []) (split_attr_tokens-attrs e m h)
      ∙ attr_loop-attrs n [] (e ∷ m) h a

  trim_start-token :
      (e : Text × Value x) (r : Text) → IsAttr e → trim_start (token e ++ r) ≡ token e ++ r
  unfolding trim_start
  trim_start-token ([], string s) r h = refl
  trim_start-token (c ∷ k, string s) r h = rw (h.0.0).solid
  trim_start-token (k, other o) r h = absurd h

  -- The attribute part of a rendered block header is read back.
  pub parse_block_attrs-render_attrs :
      (n : ℕ) (m : JsonMap x)
      → All IsAttr m
      → Ascends [] m
      → parse_block_attrs n (trim_start (render_attrs m)) ≡ ok m
  unfolding render_attrs
  parse_block_attrs-render_attrs n [] h a = unfold parse_block_attrs in refl
  parse_block_attrs-render_attrs n (e ∷ m) h a =
      ap (parse_block_attrs n)
        (trim_start_space (token e ++ render_attrs m) ∙ trim_start-token e (render_attrs m) h.0)
      ∙ parse_block_attrs-token n e m h a
