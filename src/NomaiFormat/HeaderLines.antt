-- ===== src/NomaiFormat/HeaderLines.antt =====
-- The header lines of a document, read one after the other.
use Prim.Native.Nat.{Ordering}
use nomai.Base.{
  ◌≡◌, refl, ap, subst, true, Option, none, some, List, [], ◌∷◌, ◌++◌, append-nil, append_assoc,
  All, ok,
}
use nomai.NomaiFormat.Document.{decimal, read_headers}
use nomai.NomaiFormat.Documents.{
  IsHeaderValue, IsHeaderAttr, IsTagList, IsSource, key_line, tags_lines, source_lines, attr_lines,
}
use nomai.NomaiFormat.Escaping.{unescape-escape_iff}
use nomai.NomaiFormat.HeaderLine.{
  IsHeaderText, escape_header_value-IsHeaderText, Leads, Leads-append, Leads-line,
}
use nomai.NomaiFormat.Maps.{Ascends, insert_above}
use nomai.NomaiFormat.Model.{Externals, Laws, HasNoSpace, string, other, JsonMap}
use nomai.NomaiFormat.Parse.{Header, parse_u32, header_key, set_header}
use nomai.NomaiFormat.TagList.{parse-render_tags}
use nomai.NomaiFormat.Values.{escape_header_value, render_attr_value, render_tags}
use nomai.NomaiFormat.Written.{contains_solid}
use nomai.Text.Trim.{is_solid, is_solid-All, trim_end_solid, trim_solid}
use nomai.Text.Trimmed.{trim_end_of_trim, starts_with_of_trim, ends_with_of_trim_end}
use nomai.Text.{Text, codes, is_whitespace, compare_text}

space_is : is_whitespace b' ' ≡ true
unfolding is_whitespace
space_is = refl

return_is : is_whitespace b'\r' ≡ true
unfolding is_whitespace
return_is = refl

pub IsHeaderText-solid : (s : Text) → HasNoSpace s → IsHeaderText s
IsHeaderText-solid s h = record {
  no_newline = contains_solid s h;
  no_return = ends_with_of_trim_end b'\r' s return_is (trim_end_solid s h);
  no_space = starts_with_of_trim b' ' s space_is (trim_solid s h);
}

pub IsHeaderText-tags : (tags : List Text) → IsTagList tags → IsHeaderText (render_tags tags)
IsHeaderText-tags tags h = record {
  no_newline = h.no_newline;
  no_return = ends_with_of_trim_end b'\r' _ return_is (trim_end_of_trim _ h.trimmed);
  no_space = starts_with_of_trim b' ' _ space_is h.trimmed;
}

module _ {x : Externals} (laws : Laws x) (h : Header x) where
  pub Leads-version :
      Leads
        (key_line (codes "format_version") (decimal 10 1) ∷ [])
        h
        (record h { format_version = some 1 })
  unfolding decimal parse_u32 is_solid is_whitespace header_key set_header
  Leads-version =
      Leads-line (codes "format_version") (decimal 10 1) h (record h { format_version = some 1 })
        (is_solid-All (codes "format_version") refl)
        (IsHeaderText-solid (decimal 10 1) (is_solid-All (decimal 10 1) refl)) (λ n. refl)

  pub Leads-id :
      (u : x.Ulid)
      → Leads (key_line (codes "id") (x.ulid_to_string u) ∷ []) h (record h { id = some u })
  unfolding is_solid is_whitespace header_key set_header
  Leads-id u =
      Leads-line (codes "id") (x.ulid_to_string u) h (record h { id = some u })
        (is_solid-All (codes "id") refl)
        (IsHeaderText-solid (x.ulid_to_string u) (laws.ulid_no_space u))
        (λ n. rw (laws.parse-print_ulid u))

  pub Leads-title :
      (s : Text)
      → IsHeaderValue s
      → Leads
          (key_line (codes "title") (escape_header_value s) ∷ [])
          h
          (record h { title = some s })
  unfolding is_solid is_whitespace header_key set_header
  Leads-title s v =
      Leads-line (codes "title") (escape_header_value s) h (record h { title = some s })
        (is_solid-All (codes "title") refl)
        (escape_header_value-IsHeaderText s v.value v.no_newline)
        (λ n. rw ((unescape-escape_iff s).1 v.value))

  pub Leads-created :
      (t : x.DateTime)
      → Leads
          (key_line (codes "created_at") (x.to_rfc3339 t) ∷ [])
          h
          (record h { created_at = some t })
  unfolding is_solid is_whitespace header_key set_header
  Leads-created t =
      Leads-line (codes "created_at") (x.to_rfc3339 t) h (record h { created_at = some t })
        (is_solid-All (codes "created_at") refl)
        (IsHeaderText-solid (x.to_rfc3339 t) (laws.date_time_no_space t))
        (λ n. rw (laws.parse-print_date_time t))

  pub Leads-updated :
      (t : x.DateTime)
      → Leads
          (key_line (codes "updated_at") (x.to_rfc3339 t) ∷ [])
          h
          (record h { updated_at = some t })
  unfolding is_solid is_whitespace header_key set_header
  Leads-updated t =
      Leads-line (codes "updated_at") (x.to_rfc3339 t) h (record h { updated_at = some t })
        (is_solid-All (codes "updated_at") refl)
        (IsHeaderText-solid (x.to_rfc3339 t) (laws.date_time_no_space t))
        (λ n. rw (laws.parse-print_date_time t))

  pub Leads-source :
      (s : Option Text)
      → IsSource s
      → h.source ≡ none
      → Leads (source_lines s) h (record h { source = s })
  unfolding is_solid is_whitespace header_key set_header
  Leads-source none v e = λ n rest. (n, ap (λ o. read_headers n rest (record h { source = o })) e)
  Leads-source (some s) v e =
      Leads-line (codes "source") (escape_header_value s) h (record h { source = some s })
        (is_solid-All (codes "source") refl)
        (escape_header_value-IsHeaderText s v.value v.no_newline)
        (λ n. rw ((unescape-escape_iff s).1 v.value))

  pub Leads-tags :
      (tags : List Text)
      → IsTagList tags
      → h.tags ≡ []
      → Leads (tags_lines tags) h (record h { tags = tags })
  unfolding is_solid is_whitespace header_key set_header
  Leads-tags [] v e = λ n rest. (n, ap (λ o. read_headers n rest (record h { tags = o })) e)
  Leads-tags (t ∷ ts) v e =
      Leads-line (codes "tags") (render_tags (t ∷ ts)) h (record h { tags = t ∷ ts })
        (is_solid-All (codes "tags") refl) (IsHeaderText-tags (t ∷ ts) v)
        (λ n. rw (parse-render_tags (t ∷ ts) (v.visible refl) v.trimmed v.each))

module _ {x : Externals} where
  Leads-attr :
      (h : Header x) (k s : Text)
      → IsHeaderAttr {x = x} (k, string s)
      → All (λ f. compare_text k f.0 ≡ Ordering.gt) h.attrs
      → Leads
          (key_line k (escape_header_value s) ∷ [])
          h
          (record h { attrs = h.attrs ++ (k, string s) ∷ [] })
  unfolding set_header
  Leads-attr h k s v above =
      Leads-line k (escape_header_value s) h (record h { attrs = h.attrs ++ (k, string s) ∷ [] })
        v.0 (escape_header_value-IsHeaderText s v.2.value v.2.no_newline)
        (λ n.
          rw (v.1, set_header)
            (rw ((unescape-escape_iff s).1 v.2.value)
              (ap (λ m. ok (record h { attrs = m })) (insert_above k (string s) h.attrs above))))

  pub Leads-attrs :
      (m : JsonMap x) (h : Header x)
      → All IsHeaderAttr m
      → Ascends h.attrs m
      → Leads (attr_lines m) h (record h { attrs = h.attrs ++ m })
  unfolding render_attr_value
  Leads-attrs [] h v a = λ n rest. (n, rw append-nil)
  Leads-attrs ((k, other o) ∷ m) h v a = absurd v.0
  Leads-attrs ((k, string s) ∷ m) h v a =
      (subst
        (λ out.
          Leads (key_line k (escape_header_value s) ∷ attr_lines m) h (record h { attrs = out }))
        (append_assoc h.attrs ((k, string s) ∷ []) m)
        (Leads-append (key_line k (escape_header_value s) ∷ []) (attr_lines m) h
          (record h { attrs = h.attrs ++ (k, string s) ∷ [] })
          (record h { attrs = (h.attrs ++ (k, string s) ∷ []) ++ m }) (Leads-attr h k s v.0 a.0)
          (Leads-attrs m (record h { attrs = h.attrs ++ (k, string s) ∷ [] }) v.1 a.1)))
