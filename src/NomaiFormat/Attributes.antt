-- ===== src/NomaiFormat/Attributes.antt =====
-- Writing the attributes of a block and reading them back: `parse_block_attrs`.
use nomai.Base.{
  ℕ, ◌≡◌, refl, ◌∙◌, Bool, true, false, not, ◌&&◌, inl, inr, List, [], ◌∷◌, ◌++◌, append-nil,
  append_assoc, arith, ◌==◌, if◌then◌else◌, is_empty, All, Bool-cases,
}
use nomai.NomaiFormat.Escaping.{is_escapable, IsValue, needs_quote-quote}
use nomai.NomaiFormat.Values.{
  escape_quotes, needs_quote, escape_header_value, Mode, bare, in_quote, escaped, TokenState,
  token_loop,
}
use nomai.Text.Trim.{trim_solid}
use nomai.Text.{Text, contains, is_whitespace}

-- As `is_escapable`, and the text does not end in an odd number of `\`.
unfoldable pub is_closed : Bool → Text → Bool
is_closed odd [] = not odd
is_closed odd (c ∷ s) = not (odd && c == b'"') && is_closed (not odd && c == b'\\') s

is_closed-is_escapable :
    (odd : Bool) (s : Text) → is_closed odd s ≡ true → is_escapable odd s ≡ true
unfolding is_closed is_escapable
is_closed-is_escapable odd [] h = refl
is_closed-is_escapable odd (c ∷ s) h =
    ground (arith, is_closed-is_escapable (not odd && c == b'\\') s)

-- A key has no white space, no `=` and no quote.
pub record IsKeyChar (c : ℕ) : Type 0 where
  pub solid : is_whitespace c ≡ false
  pub no_equals : (c == b'=') ≡ false
  pub no_quote : (c == b'"') ≡ false

-- A value on one line. If it needs no quotes, it has no white space; else every backslash has its
-- partner.
pub record IsAttrValue (s : Text) : Type 0 where
  pub no_newline : contains b'\n' s ≡ false
  pub when_quoted : needs_quote s ≡ true → is_closed false s ≡ true
  pub when_bare : needs_quote s ≡ false → All (λ c. is_whitespace c ≡ false) s

pub IsAttrValue-IsValue : (s : Text) → IsAttrValue s → IsValue s
IsAttrValue-IsValue s v = record {
  when_quoted = λ q. is_closed-is_escapable false s (v.when_quoted q);
  when_bare = λ q. trim_solid s (v.when_bare q);
}

abbrev pub at : List Text → Text → Mode → TokenState
at tokens current mode = record { tokens = tokens; current = current; mode = mode }

token_loop_solid :
    (tokens : List Text) (current t rest : Text)
    → All (λ c. is_whitespace c ≡ false) t
    → contains b'"' t ≡ false
    → token_loop (at tokens current bare) (t ++ rest)
      ≡ token_loop (at tokens (current ++ t) bare) rest
unfolding token_loop contains
token_loop_solid tokens current [] rest h k = rw append-nil
token_loop_solid tokens current (c ∷ t) rest h k =
    step ∙ token_loop_solid tokens (current ++ c ∷ []) t rest h.1 (ground arith) ∙ rw append_assoc
  where
    step :
        token_loop (at tokens current bare) (c ∷ (t ++ rest))
        ≡ token_loop (at tokens (current ++ c ∷ []) bare) (t ++ rest)
    step = ground arith

abbrev mode_of : Bool → Mode
mode_of odd = if odd then escaped else in_quote

abbrev escape_char : ℕ → Text
escape_char c = if c == b'"' then b'\\' ∷ b'"' ∷ [] else c ∷ []

escape_quotes-cons : (c : ℕ) (t : Text) → escape_quotes (c ∷ t) ≡ escape_char c ++ escape_quotes t
unfolding escape_quotes
escape_quotes-cons c t = ground arith

token_loop_char :
    (odd : Bool) (tokens : List Text) (current : Text) (c : ℕ) (rest : Text)
    → not (odd && c == b'"') ≡ true
    → token_loop (at tokens current (mode_of odd)) (escape_char c ++ rest)
      ≡ token_loop (at tokens (current ++ escape_char c) (mode_of (not odd && c == b'\\'))) rest
unfolding token_loop
token_loop_char false tokens current c rest h = elim (Bool-cases (c == b'"')) [
  | inl q ↦ let e : c ≡ b'"' = ground arith in rw e (rw append_assoc)
  | inr q ↦ ground arith
]
token_loop_char true tokens current c rest h = ground arith

token_loop_in_quote :
    (odd : Bool) (tokens : List Text) (current t rest : Text)
    → is_closed odd t ≡ true
    → token_loop (at tokens current (mode_of odd)) (escape_quotes t ++ (b'"' ∷ rest))
      ≡ token_loop (at tokens (current ++ (escape_quotes t ++ b'"' ∷ [])) bare) rest
unfolding is_closed
token_loop_in_quote false tokens current [] rest h = unfold token_loop escape_quotes in refl
token_loop_in_quote true tokens current [] rest h = cc
token_loop_in_quote odd tokens current (c ∷ t) rest h = rw escape_quotes-cons (
    rw append_assoc (
      token_loop_char odd tokens current c (escape_quotes t ++ (b'"' ∷ rest)) (ground arith)
      ∙ token_loop_in_quote (not odd && c == b'\\') tokens (current ++ escape_char c) t rest
          (ground arith)
      ∙ rw (append_assoc, append_assoc)))

pub token_loop_space :
    (tokens : List Text) (current rest : Text)
    → is_empty current ≡ false
    → token_loop (at tokens current bare) (b' ' ∷ rest)
      ≡ token_loop (at (tokens ++ current ∷ []) [] bare) rest
unfolding token_loop
token_loop_space tokens current rest h = ground arith

-- A `key=value` token, as the renderer writes it.
abbrev pub pair : Text → Text → Text
pair k s = k ++ (b'=' ∷ escape_header_value s)

pub key_solid : (k : Text) → All IsKeyChar k → All (λ c. is_whitespace c ≡ false) k
key_solid [] h = tt
key_solid (c ∷ k) h = ((h.0).solid, key_solid k h.1)

pub key_no_equals : (k : Text) → All IsKeyChar k → All (λ c. (c == b'=') ≡ false) k
key_no_equals [] h = tt
key_no_equals (c ∷ k) h = ((h.0).no_equals, key_no_equals k h.1)

key_no_quote : (k : Text) → All IsKeyChar k → contains b'"' k ≡ false
unfolding contains
key_no_quote [] h = refl
key_no_quote (c ∷ k) h = rw (h.0).no_quote (key_no_quote k h.1)

token_loop_value :
    (tokens : List Text) (current s rest : Text)
    → IsAttrValue s
    → token_loop (at tokens current bare) (escape_header_value s ++ rest)
      ≡ token_loop (at tokens (current ++ escape_header_value s) bare) rest
unfolding escape_header_value
token_loop_value tokens current s rest v = elim (Bool-cases (needs_quote s)) [
  | inl q ↦ rw q (
      rw append_assoc (
        open_quote
        ∙ token_loop_in_quote false tokens (current ++ b'"' ∷ []) s rest (v.when_quoted q)
        ∙ rw append_assoc))
  | inr q ↦ rw q (token_loop_solid tokens current s rest (v.when_bare q) (needs_quote-quote s q))
]
  where
    open_quote :
        token_loop (at tokens current bare) (b'"' ∷ (escape_quotes s ++ (b'"' ∷ rest)))
        ≡ token_loop (at tokens (current ++ b'"' ∷ []) in_quote) (escape_quotes s ++ (b'"' ∷ rest))
    open_quote = unfold token_loop in refl

pub token_loop-pair :
    (tokens : List Text) (k s rest : Text)
    → All IsKeyChar k
    → IsAttrValue s
    → token_loop (at tokens [] bare) (pair k s ++ rest)
      ≡ token_loop (at tokens (pair k s) bare) rest
token_loop-pair tokens k s rest h v = rw append_assoc (
    token_loop_solid tokens [] k _ (key_solid k h) (key_no_quote k h)
    ∙ equals
    ∙ token_loop_value tokens (k ++ b'=' ∷ []) s rest v
    ∙ rw append_assoc)
  where
    equals :
        token_loop (at tokens k bare) (b'=' ∷ (escape_header_value s ++ rest))
        ≡ token_loop (at tokens (k ++ b'=' ∷ []) bare) (escape_header_value s ++ rest)
    equals = unfold token_loop in refl
