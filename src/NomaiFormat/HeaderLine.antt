-- ===== src/NomaiFormat/HeaderLine.antt =====
-- One header line, written and read back.
use nomai.Base.{
  ℕ, ◌+◌, ◌≡◌, refl, ◌∙◌, true, false, some, inl, inr, List, [], ◌∷◌, ◌++◌, append_assoc, arith,
  ◌==◌, All, Bool-cases, ok,
}
use nomai.NomaiFormat.Document.{read_headers}
use nomai.NomaiFormat.Escaping.{IsValue}
use nomai.NomaiFormat.Model.{Externals}
use nomai.NomaiFormat.Parse.{
  Header, split_header_kv, header_key, set_header, read_header_line, read_header,
}
use nomai.NomaiFormat.Values.{needs_quote, quoted, escape_quotes, escape_header_value}
use nomai.Text.Order.{contains-append}
use nomai.Text.Trim.{before-append, from-append, trim_start_matches_lem, starts_with_of_contains}
use nomai.Text.Trimmed.{trim_end_of_trim, ends_with_of_trim_end}
use nomai.Text.{Text, is_whitespace, contains, starts_with, ends_with}

-- What a header line may hold behind its key: one line, with no space in front and no `\r` behind.
pub record IsHeaderText (v : Text) : Type 0 where
  pub no_newline : contains b'\n' v ≡ false
  pub no_return : ends_with b'\r' v ≡ false
  pub no_space : starts_with b' ' v ≡ false

pub return_is : is_whitespace b'\r' ≡ true
unfolding is_whitespace
return_is = refl

space_is : is_whitespace b' ' ≡ true
unfolding is_whitespace
space_is = refl

pub contains-escape_quotes :
    (s : Text) → contains b'\n' s ≡ false → contains b'\n' (escape_quotes s) ≡ false
unfolding contains escape_quotes
contains-escape_quotes [] h = refl
contains-escape_quotes (c ∷ s) h = ground (arith, contains-escape_quotes s)

ends_with-concat_ne : (x y : ℕ) (s : Text) → (y == x) ≡ false → ends_with x (s ++ y ∷ []) ≡ false
ends_with-concat_ne x y [] h = h
ends_with-concat_ne x y (c ∷ []) h = h
ends_with-concat_ne x y (c ∷ d ∷ s) h = ends_with-concat_ne x y (d ∷ s) h

IsHeaderText-quoted : (s : Text) → contains b'\n' s ≡ false → IsHeaderText (quoted s)
unfolding contains
IsHeaderText-quoted s h = record {
  no_newline =
      contains-append b'\n' (escape_quotes s) (b'"' ∷ []) ∙ rw (contains-escape_quotes s h);
  no_return = ends_with-concat_ne b'\r' b'"' (b'"' ∷ escape_quotes s) refl;
  no_space = refl;
}

needs_quote-space : (s : Text) → needs_quote s ≡ false → contains b' ' s ≡ false
unfolding needs_quote
needs_quote-space s h = ground arith

pub escape_header_value-IsHeaderText :
    (s : Text) → IsValue s → contains b'\n' s ≡ false → IsHeaderText (escape_header_value s)
unfolding escape_header_value
escape_header_value-IsHeaderText s v h = elim (Bool-cases (needs_quote s)) [
  | inl q ↦ rw q (IsHeaderText-quoted s h)
  | inr q ↦ rw q (record {
    no_newline = h;
    no_return = ends_with_of_trim_end b'\r' s return_is (trim_end_of_trim s (v.when_bare q));
    no_space = starts_with_of_contains b' ' s (needs_quote-space s q);
  })
]

split_header_kv_lem :
    (k v : Text)
    → All (λ c. is_whitespace c ≡ false) k
    → starts_with b' ' v ≡ false
    → split_header_kv (k ++ (b' ' ∷ v)) ≡ some (k, v)
unfolding split_header_kv
split_header_kv_lem k v h e =
    rw (from-append is_whitespace k b' ' v h space_is, split_header_kv)
      (rw (before-append is_whitespace k b' ' v h space_is, trim_start_matches_lem b' ' v e))

module _ {x : Externals} where
  -- Reading these lines takes the header from the first state to the second.
  abbrev pub Leads : List Text → Header x → Header x → Type 0
  Leads ls h h' =
      (n : ℕ) (rest : List Text)
      → (m : ℕ) × (read_headers n (ls ++ rest) h ≡ read_headers m rest h')

  pub Leads-nil : (h : Header x) → Leads [] h h
  Leads-nil h n rest = (n, refl)

  pub Leads-append :
      (ls ms : List Text) (h h' h'' : Header x)
      → Leads ls h h'
      → Leads ms h' h''
      → Leads (ls ++ ms) h h''
  Leads-append ls ms h h' h'' p q n rest =
      let (m, e) = p n (ms ++ rest) in let (k, f) = q m rest in (k, rw append_assoc (e ∙ f))

  pub Leads-line :
      (k v : Text) (h h' : Header x)
      → All (λ c. is_whitespace c ≡ false) k
      → IsHeaderText v
      → ((n : ℕ) → set_header (header_key k) n k v h ≡ ok h')
      → Leads ((b'#' ∷ (k ++ (b' ' ∷ v))) ∷ []) h h'
  unfolding read_headers read_header read_header_line
  Leads-line k v h h' ks vs set n rest =
      (n + 1, rw (split_header_kv_lem k v ks vs.no_space) (rw (set n)))
