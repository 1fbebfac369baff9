-- ===== src/NomaiFormat/DocLines.antt =====
-- The lines of a rendered document are lines that `str::lines` gives back.
use nomai.Base.{
  ℕ, ◌≡◌, refl, ◌∙◌, true, false, Option, none, some, List, [], ◌∷◌, ◌++◌, ◌==◌, All, All-append,
}
use nomai.NomaiFormat.Blocks.{IsBlock, all_lines, lines_of}
use nomai.NomaiFormat.Document.{decimal}
use nomai.NomaiFormat.Documents.{
  IsHeaderAttr, IsTagList, IsSource, IsDoc, key_line, tags_lines, source_lines, attr_lines,
  doc_lines,
}
use nomai.NomaiFormat.HeaderLine.{IsHeaderText, escape_header_value-IsHeaderText}
use nomai.NomaiFormat.HeaderLines.{IsHeaderText-solid, IsHeaderText-tags}
use nomai.NomaiFormat.Model.{Externals, Laws, string, other, JsonMap, Block, NomaiDoc}
use nomai.NomaiFormat.Values.{escape_header_value, render_attr_value, render_tags}
use nomai.NomaiFormat.Written.{contains_solid, lines_of-IsLine}
use nomai.Text.Lines.{IsLine}
use nomai.Text.Order.{contains-append}
use nomai.Text.Trim.{is_solid, is_solid-All}
use nomai.Text.{Text, codes, is_whitespace, contains, ends_with}

ends_with-append :
    (x : ℕ) (s : Text) (c : ℕ) (t : Text) → ends_with x (s ++ (c ∷ t)) ≡ ends_with x (c ∷ t)
ends_with-append x [] c t = refl
ends_with-append x (a ∷ []) c t = refl
ends_with-append x (a ∷ b ∷ s) c t = ends_with-append x (b ∷ s) c t

ends_with-cons :
    (x c : ℕ) (t : Text) → (c == x) ≡ false → ends_with x t ≡ false → ends_with x (c ∷ t) ≡ false
ends_with-cons x c [] h k = h
ends_with-cons x c (d ∷ t) h k = k

key_line-IsLine :
    (k v : Text) → All (λ c. is_whitespace c ≡ false) k → IsHeaderText v → IsLine (key_line k v)
unfolding contains
key_line-IsLine k v ks vs = record {
  no_newline = contains-append b'\n' k (b' ' ∷ v) ∙ rw (contains_solid k ks, vs.no_newline);
  no_return =
      ends_with-append b'\r' (b'#' ∷ k) b' ' v ∙ ends_with-cons b'\r' b' ' v refl vs.no_return;
}

known_key : (k v : Text) → is_solid k ≡ true → IsHeaderText v → IsLine (key_line k v)
known_key k v h vs = key_line-IsLine k v (is_solid-All k h) vs

tags_lines-IsLine : (tags : List Text) → IsTagList tags → All IsLine (tags_lines tags)
unfolding is_solid is_whitespace
tags_lines-IsLine [] h = tt
tags_lines-IsLine (t ∷ ts) h =
    (known_key (codes "tags") (render_tags (t ∷ ts)) refl (IsHeaderText-tags (t ∷ ts) h), tt)

source_lines-IsLine : (s : Option Text) → IsSource s → All IsLine (source_lines s)
unfolding is_solid is_whitespace
source_lines-IsLine none h = tt
source_lines-IsLine (some s) h = (
  known_key (codes "source") (escape_header_value s) refl
      (escape_header_value-IsHeaderText s h.value h.no_newline),
  tt,
)

module _ {x : Externals} where
  attr_lines-IsLine : (m : JsonMap x) → All IsHeaderAttr m → All IsLine (attr_lines m)
  unfolding render_attr_value
  attr_lines-IsLine [] h = tt
  attr_lines-IsLine ((k, other o) ∷ m) h = absurd h.0
  attr_lines-IsLine ((k, string s) ∷ m) h = (
    key_line-IsLine k (escape_header_value s) h.0.0
        (escape_header_value-IsHeaderText s h.0.2.value h.0.2.no_newline),
    attr_lines-IsLine m h.1,
  )

  all_lines-IsLine : (bs : List (Block x)) (h : All IsBlock bs) → All IsLine (all_lines bs h)
  all_lines-IsLine [] h = tt
  all_lines-IsLine (b ∷ bs) h =
      All-append IsLine (lines_of b h.0) (all_lines bs h.1) (lines_of-IsLine b h.0)
        (all_lines-IsLine bs h.1)

  pub doc_lines-IsLine :
      (laws : Laws x) (doc : NomaiDoc x) (d : IsDoc doc) → All IsLine (doc_lines doc d)
  unfolding is_solid is_whitespace
  doc_lines-IsLine laws doc d = (
    rw d.version (
        known_key (codes "format_version") (decimal 10 1) refl
          (IsHeaderText-solid (decimal 10 1) (unfold decimal in is_solid-All (decimal 10 1) refl))),
    (
      known_key (codes "id") (x.ulid_to_string doc.id) refl
          (IsHeaderText-solid (x.ulid_to_string doc.id) (laws.ulid_no_space doc.id)),
      (
        known_key (codes "title") (escape_header_value doc.title) refl
            (escape_header_value-IsHeaderText doc.title d.title.value d.title.no_newline),
        All-append IsLine (tags_lines doc.tags) _ (tags_lines-IsLine doc.tags d.tags) (
            All-append IsLine (attr_lines doc.attrs) _ (attr_lines-IsLine doc.attrs d.attrs) (
              All-append IsLine (source_lines doc.source) _
                (source_lines-IsLine doc.source d.source)
                (
                  time (codes "created_at") doc.created_at refl,
                  (
                    time (codes "updated_at") doc.updated_at refl,
                    all_lines-IsLine doc.blocks d.blocks,
                  ),
                ))),
      ),
    ),
  )
    where
      time : (k : Text) (t : x.DateTime) → is_solid k ≡ true → IsLine (key_line k (x.to_rfc3339 t))
      time k t h =
          known_key k (x.to_rfc3339 t) h
            (IsHeaderText-solid (x.to_rfc3339 t) (laws.date_time_no_space t))
