-- ===== src/NomaiFormat/Escaping.antt =====
-- Quoting a header value and reading it back: `escape_header_value` and `unescape_value`.
use nomai.Base.{
  ℕ, ◌≡◌, ◌↔◌, refl, sym, ◌∙◌, ap, Bool, true, false, not, ◌&&◌, some, inl, inr, [], ◌∷◌, ◌++◌,
  arith, ◌==◌, if◌then◌else◌, Bool-cases,
}
use nomai.NomaiFormat.Values.{
  escape_quotes, quoted, needs_quote, escape_header_value, unescape_from, without_last,
  unescape_value,
}
use nomai.Text.Trim.{
  trim_end-concat, ends_with-concat, len-pos, contains-trim, starts_with_of_contains,
}
use nomai.Text.{Text, contains, trim}

-- No `"` stands behind an odd number of `\`; the flag says that one more `\` stands in front.
unfoldable pub is_escapable : Bool → Text → Bool
is_escapable odd [] = true
is_escapable odd (c ∷ s) = not (odd && c == b'"') && is_escapable (not odd && c == b'\\') s

abbrev pub pending : Bool → Text → Text
pending odd s = if odd then b'\\' ∷ s else s

pub unescape-escape_quotes :
    (odd : Bool) (s : Text)
    → is_escapable odd s ≡ true
    → unescape_from odd (escape_quotes s) ≡ pending odd s
unfolding is_escapable unescape_from escape_quotes
unescape-escape_quotes false [] h = refl
unescape-escape_quotes true [] h = refl
unescape-escape_quotes false (c ∷ s) h = elim (Bool-cases (c == b'"')) [
  | inl q ↦
      let e : c ≡ b'"' = ground arith in
      rw e (ap (◌∷◌ b'"') (unescape-escape_quotes false s (rw e at h)))
  | inr q ↦ elim (Bool-cases (c == b'\\')) [
    | inl b ↦ let e : c ≡ b'\\' = ground arith in rw e (unescape-escape_quotes true s (rw e at h))
    | inr b ↦ ground (arith, unescape-escape_quotes false s)
  ]
]
unescape-escape_quotes true (c ∷ s) h = ground (arith, unescape-escape_quotes false s)

is_escapable_of_unescape :
    (odd : Bool) (s : Text)
    → unescape_from odd (escape_quotes s) ≡ pending odd s
    → is_escapable odd s ≡ true
unfolding is_escapable unescape_from escape_quotes
is_escapable_of_unescape false [] h = refl
is_escapable_of_unescape true [] h = refl
is_escapable_of_unescape false (c ∷ s) h =
    ground (arith, is_escapable_of_unescape false s, is_escapable_of_unescape true s)
is_escapable_of_unescape true (c ∷ s) h = ground (arith, is_escapable_of_unescape false s)

without_last-concat : (s : Text) (x : ℕ) → without_last (s ++ x ∷ []) ≡ s
without_last-concat [] x = refl
without_last-concat (c ∷ []) x = refl
without_last-concat (c ∷ d ∷ s) x = ap (◌∷◌ c) (without_last-concat (d ∷ s) x)

unescape_value-quoted :
    (s : Text) → unescape_value (quoted s) ≡ some (unescape_from false (escape_quotes s))
unfolding unescape_value
unescape_value-quoted s = rw (trim_end-concat (escape_quotes s) b'"' refl) (
    ground (
      arith,
      ends_with-concat b'"' (b'"' ∷ escape_quotes s),
      len-pos (escape_quotes s) b'"',
      without_last-concat (escape_quotes s) b'"',
    ))

unescape_value_bare : (s : Text) → contains b'"' s ≡ false → unescape_value s ≡ some (trim s)
unfolding unescape_value
unescape_value_bare s h = rw (starts_with_of_contains b'"' (trim s) (contains-trim b'"' s h))

-- What the renderer writes for a value is read back as the value, whatever its characters.
pub record IsValue (s : Text) : Type 0 where
  pub when_quoted : needs_quote s ≡ true → is_escapable false s ≡ true
  pub when_bare : needs_quote s ≡ false → trim s ≡ s

pub needs_quote-quote : (s : Text) → needs_quote s ≡ false → contains b'"' s ≡ false
unfolding needs_quote
needs_quote-quote s h = ground arith

unescape-escape : (s : Text) → IsValue s → unescape_value (escape_header_value s) ≡ some s
unfolding escape_header_value
unescape-escape s v = elim (Bool-cases (needs_quote s)) [
  | inl q ↦
      rw q (unescape_value-quoted s ∙ ap some (unescape-escape_quotes false s (v.when_quoted q)))
  | inr q ↦ rw q (unescape_value_bare s (needs_quote-quote s q) ∙ ap some (v.when_bare q))
]

some_path : {s t : Text} → some s ≡ some t → s ≡ t
some_path h = cc

IsValue-unescape : (s : Text) → unescape_value (escape_header_value s) ≡ some s → IsValue s
unfolding escape_header_value
IsValue-unescape s h = record {
  when_quoted =
      λ q. is_escapable_of_unescape false s (some_path (sym (unescape_value-quoted s) ∙ rw q at h));
  when_bare = λ q. some_path (sym (unescape_value_bare s (needs_quote-quote s q)) ∙ rw q at h);
}

-- A title, source or attribute is read back from its written form exactly when it is an
-- `IsValue`: if it is quoted, no quote in it stands behind an odd number of backslashes, and if
-- it is not, it has no white space at its ends.
pub unescape-escape_iff : (s : Text) → (unescape_value (escape_header_value s) ≡ some s) ↔ IsValue s
unescape-escape_iff s = (IsValue-unescape s, unescape-escape s)
