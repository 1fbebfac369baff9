-- ===== src/NomaiFormat/RoundTrip.antt =====
-- `parse` after `render`.
use nomai.Base.{ℕ, ◌+◌, ◌≡◌, refl, sym, ap, ◌∙◌, none, some, List, [], ◌∷◌, All, ok}
use nomai.NomaiFormat.Blocks.{IsBlock, all_lines, header_of, read_blocks-cons, read_blocks-some}
use nomai.NomaiFormat.Document.{
  decimal, read_headers, read_blocks, check_header, parse_lines, parse, render,
}
use nomai.NomaiFormat.Documents.{IsDoc, key_line, later_lines, doc_lines, render-unlines}
use nomai.NomaiFormat.DocLines.{doc_lines-IsLine}
use nomai.NomaiFormat.HeaderLines.{
  Leads-version, Leads-id, Leads-title, Leads-tags, Leads-attrs, Leads-source, Leads-created,
  Leads-updated,
}
use nomai.NomaiFormat.Model.{Externals, Laws, Block, NomaiDoc}
use nomai.NomaiFormat.Parse.{Header, no_header, read_header}
use nomai.Text.Lines.{lines-unlines}
use nomai.Text.{Text, codes, unlines}

module _ {x : Externals} where
  -- Phase 1 ends at the blocks, and phase 2 reads them.
  read-all_lines :
      (bs : List (Block x)) (hs : All IsBlock bs) (n : ℕ) (h : Header x)
      → (m : ℕ) × (rest : List Text) × (read_headers n (all_lines bs hs) h ≡ ok (h, m, rest))
        × (read_blocks none m rest ≡ ok bs)
  unfolding read_headers read_header
  read-all_lines [] hs n h = (n, [], refl, unfold read_blocks in refl)
  read-all_lines (b ∷ bs) hs n h = (
    n + 1,
    header_of b ∷ _,
    refl,
    read_blocks-cons none (n + 1) b hs.0 (all_lines bs hs.1) bs (read_blocks-some bs hs.1),
  )

  filled : NomaiDoc x → Header x
  filled doc = record {
    format_version = some 1;
    id = some doc.id;
    title = some doc.title;
    tags = doc.tags;
    attrs = doc.attrs;
    source = doc.source;
    created_at = some doc.created_at;
    updated_at = some doc.updated_at;
  }

  check_header-filled :
      (doc : NomaiDoc x)
      → doc.format_version ≡ 1
      → check_header (filled doc) ≡ ok (record doc { blocks = [] })
  unfolding check_header filled
  check_header-filled doc e = ap (λ v. ok (record doc { format_version = v; blocks = [] })) (sym e)

  module _ (laws : Laws x) (doc : NomaiDoc x) (d : IsDoc doc) where
    -- The header lines fill the header with the document's values.
    Leads-header :
        (m : ℕ) × (read_headers 1 (doc_lines doc d) no_header
          ≡ read_headers m (all_lines doc.blocks d.blocks) (filled doc))
    unfolding filled
    Leads-header =
        let h0 : Header x = no_header in
        let h1 : Header x = record h0 { format_version = some 1 } in
        let h2 : Header x = record h1 { id = some doc.id } in
        let h3 : Header x = record h2 { title = some doc.title } in
        let h4 : Header x = record h3 { tags = doc.tags } in
        let h5 : Header x = record h4 { attrs = doc.attrs } in
        let h6 : Header x = record h5 { source = doc.source } in
        let h7 : Header x = record h6 { created_at = some doc.created_at } in
        let (m1, e1) = Leads-version laws h0 1 _ in
        let (m2, e2) = Leads-id laws h1 doc.id m1 _ in
        let (m3, e3) = Leads-title laws h2 doc.title d.title m2 _ in
        let (m4, e4) = Leads-tags laws h3 doc.tags d.tags refl m3 _ in
        let (m5, e5) = Leads-attrs doc.attrs h4 d.attrs d.ascends m4 _ in
        let (m6, e6) = Leads-source laws h5 doc.source d.source refl m5 _ in
        let (m7, e7) = Leads-created laws h6 doc.created_at m6 _ in
        let (m8, e8) = Leads-updated laws h7 doc.updated_at m7 (all_lines doc.blocks d.blocks) in
        (
          m8,
          ap
                (λ v.
                  read_headers 1
                    (key_line (codes "format_version") (decimal 10 v) ∷ later_lines doc d) h0)
                d.version
              ∙ e1
              ∙ e2
              ∙ e3
              ∙ e4
              ∙ e5
              ∙ e6
              ∙ e7
              ∙ e8,
        )

    parse_lines-doc : parse_lines (doc_lines doc d) ≡ ok doc
    unfolding parse_lines
    parse_lines-doc =
        let (m, e) = Leads-header in
        let (k, rest, f, g) = read-all_lines doc.blocks d.blocks m (filled doc) in
        rw (e, parse_lines) (rw f (rw (check_header-filled doc d.version) (rw g)))

    parse-unlines : parse (unlines (doc_lines doc d)) ≡ ok doc
    unfolding parse
    parse-unlines =
        ap parse_lines (lines-unlines (doc_lines doc d) (doc_lines-IsLine laws doc d))
        ∙ parse_lines-doc

    -- A well-formed document is read back, exactly as it was, from what the renderer writes. It has
    -- format version 1; its title, source and attributes are values and keys that survive the
    -- escaping, each on a line of its own, and no attribute has a known key; its tags survive, and
    -- its blocks have attributes in the order of their keys, bodies of whole lines with none that
    -- begins with an escaped `@`, no blank line at the end, and a target and a relation if they are
    -- connections. Printed ids and times are read back by the libraries that print them.
    pub parse-render : parse (render doc) ≡ ok doc
    parse-render = ap parse (render-unlines doc d) ∙ parse-unlines
