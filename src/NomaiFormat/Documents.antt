-- ===== src/NomaiFormat/Documents.antt =====
-- The documents that survive being written and read, and the lines that they are written in.
use nomai.Base.{
  ◌≡◌, ◌≢◌, refl, sym, ap, ◌∙◌, false, Option, none, some, List, [], ◌∷◌, ◌++◌, append_assoc,
  if◌then◌else◌, is_empty, All,
}
use nomai.NomaiFormat.Blocks.{IsBlock, all_lines, lines_of}
use nomai.NomaiFormat.Document.{
  header_line, concat_map, decimal, render_block, render_source, render,
}
use nomai.NomaiFormat.Escaping.{IsValue}
use nomai.NomaiFormat.Maps.{Ascends}
use nomai.NomaiFormat.Model.{Externals, Value, string, other, JsonMap, Block, NomaiDoc}
use nomai.NomaiFormat.Parse.{header_key}
use nomai.NomaiFormat.Parse
use nomai.NomaiFormat.TagList.{IsTag}
use nomai.NomaiFormat.Values.{escape_header_value, render_attr_value, render_tags}
use nomai.NomaiFormat.Written.{render_block-unlines}
use nomai.Text.{Text, codes, is_whitespace, contains, trim, unlines}

-- A title, source or attribute that survives.
pub record IsHeaderValue (s : Text) : Type 0 where
  pub value : IsValue s
  pub no_newline : contains b'\n' s ≡ false

-- A key that is none of the known ones.
abbrev pub IsHeaderAttr : {x : Externals} → Text × Value x → Type 0
IsHeaderAttr (k, string s) =
    All (λ c. is_whitespace c ≡ false) k × (header_key k ≡ Parse.HeaderKey.attr) × IsHeaderValue s
IsHeaderAttr (k, other o) = ⊥

-- A tag list that survives. An empty one is not written.
pub record IsTagList (tags : List Text) : Type 0 where
  pub each : All IsTag tags
  pub trimmed : trim (render_tags tags) ≡ render_tags tags
  pub visible : is_empty tags ≡ false → render_tags tags ≢ []
  pub no_newline : contains b'\n' (render_tags tags) ≡ false

abbrev pub IsSource : Option Text → Type 0
IsSource none = Unit
IsSource (some s) = IsHeaderValue s

pub record IsDoc {x : Externals} (doc : NomaiDoc x) : Type 0 where
  pub version : doc.format_version ≡ 1
  pub title : IsHeaderValue doc.title
  pub tags : IsTagList doc.tags
  pub attrs : All IsHeaderAttr doc.attrs
  pub ascends : Ascends [] doc.attrs
  pub source : IsSource doc.source
  pub blocks : All IsBlock doc.blocks

abbrev pub key_line : Text → Text → Text
key_line k v = b'#' ∷ (k ++ (b' ' ∷ v))

abbrev pub tags_lines : List Text → List Text
tags_lines [] = []
tags_lines (t ∷ ts) = key_line (codes "tags") (render_tags (t ∷ ts)) ∷ []

abbrev pub source_lines : Option Text → List Text
source_lines none = []
source_lines (some s) = key_line (codes "source") (escape_header_value s) ∷ []

unlines-append : (ls ms : List Text) → unlines (ls ++ ms) ≡ unlines ls ++ unlines ms
unlines-append [] ms = refl
unlines-append (l ∷ ls) ms =
    ap (λ t. l ++ (b'\n' ∷ t)) (unlines-append ls ms)
    ∙ sym (append_assoc l (b'\n' ∷ unlines ls) (unlines ms))

header_line-unlines : (k v : Text) → header_line k v ≡ unlines (key_line k v ∷ [])
header_line-unlines k v = ap (λ t. b'#' ∷ t) (sym (append_assoc k (b' ' ∷ v) (b'\n' ∷ [])))

-- The text `p` is written as the lines `ls`.
record Written (p : Text) (ls : List Text) : Type 0 where
  is : p ≡ unlines ls

written :
    {ls ms : List Text} {p r : Text} → Written p ls → Written r ms → Written (p ++ r) (ls ++ ms)
written {ls} {ms} e f = record { is = (λ i. e.is i ++ f.is i) ∙ sym (unlines-append ls ms) }

as-Written : (ls : List Text) {p : Text} → p ≡ unlines ls → Written p ls
as-Written ls e = record { is = e }

header-Written : (k v : Text) → Written (header_line k v) (key_line k v ∷ [])
header-Written k v = record { is = header_line-unlines k v }

tags-Written :
    (tags : List Text)
    → (if is_empty tags then [] else header_line (codes "tags") (render_tags tags))
      ≡ unlines (tags_lines tags)
tags-Written [] = refl
tags-Written (t ∷ ts) = header_line-unlines (codes "tags") (render_tags (t ∷ ts))

source_written : (s : Option Text) → render_source s ≡ unlines (source_lines s)
source_written none = refl
source_written (some s) = header_line-unlines (codes "source") (escape_header_value s)

module _ {x : Externals} where
  abbrev pub attr_lines : JsonMap x → List Text
  attr_lines [] = []
  attr_lines (e ∷ m) = key_line e.0 (render_attr_value e.1) ∷ attr_lines m

  abbrev pub later_lines : (doc : NomaiDoc x) → IsDoc doc → List Text
  later_lines doc h =
      ((key_line (codes "id") (x.ulid_to_string doc.id) ∷ [])
        ++ ((key_line (codes "title") (escape_header_value doc.title) ∷ [])
            ++ (tags_lines doc.tags
                ++ (attr_lines doc.attrs
                    ++ (source_lines doc.source
                        ++ ((key_line (codes "created_at") (x.to_rfc3339 doc.created_at) ∷ [])
                            ++ ((key_line (codes "updated_at") (x.to_rfc3339 doc.updated_at) ∷ [])
                                ++ all_lines doc.blocks h.blocks)))))))

  abbrev pub doc_lines : (doc : NomaiDoc x) → IsDoc doc → List Text
  doc_lines doc h =
      key_line (codes "format_version") (decimal 10 doc.format_version) ∷ later_lines doc h

  attrs_written :
      (m : JsonMap x)
      → concat_map (λ e. header_line e.0 (render_attr_value e.1)) m ≡ unlines (attr_lines m)
  attrs_written [] = refl
  attrs_written (e ∷ m) =
      (written (header-Written e.0 (render_attr_value e.1))
        (as-Written (attr_lines m) (attrs_written m))).is

  blocks_written :
      (bs : List (Block x)) (h : All IsBlock bs)
      → concat_map render_block bs ≡ unlines (all_lines bs h)
  blocks_written [] h = refl
  blocks_written (b ∷ bs) h =
      (written (as-Written (lines_of b h.0) (render_block-unlines b h.0))
        (as-Written (all_lines bs h.1) (blocks_written bs h.1))).is

  -- The renderer writes these lines.
  pub render-unlines : (doc : NomaiDoc x) (h : IsDoc doc) → render doc ≡ unlines (doc_lines doc h)
  unfolding render
  render-unlines doc h =
      (written (header-Written (codes "format_version") (decimal 10 doc.format_version)) (
        written (header-Written (codes "id") (x.ulid_to_string doc.id)) (
          written (header-Written (codes "title") (escape_header_value doc.title)) (
            written (as-Written (tags_lines doc.tags) (tags-Written doc.tags)) (
              written (as-Written (attr_lines doc.attrs) (attrs_written doc.attrs)) (
                written (as-Written (source_lines doc.source) (source_written doc.source)) (
                  written (header-Written (codes "created_at") (x.to_rfc3339 doc.created_at)) (
                    written (header-Written (codes "updated_at") (x.to_rfc3339 doc.updated_at)) (
                      as-Written (all_lines doc.blocks h.blocks)
                        (blocks_written doc.blocks h.blocks)))))))))).is
