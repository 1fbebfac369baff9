-- ===== src/NomaiFormat/TagList.antt =====
-- Writing a tag list and reading it back: `render_tags` and `parse_tags`.
use nomai.Base.{
  ◌≡◌, ◌≢◌, refl, sym, ap, ◌∙◌, true, false, ◌||◌, some, inl, inr, List, [], ◌∷◌, ◌++◌, map,
  append-nil, append_assoc, arith, All, Bool-cases,
}
use nomai.NomaiFormat.Values.{
  escape_quotes, render_tag, render_tags, join_tags, Mode, bare, in_quote, TagState, tag_loop,
  finish_tags, parse_tags,
}
use nomai.Text.{Text, contains, trim}

abbrev at : List Text → Text → Mode → TagState
at tags current mode = record { tags = tags; current = current; mode = mode }

tag_loop_bare :
    (tags : List Text) (current t rest : Text)
    → contains b',' t ≡ false
    → contains b'"' t ≡ false
    → tag_loop (at tags current bare) (t ++ rest) ≡ tag_loop (at tags (current ++ t) bare) rest
unfolding tag_loop contains
tag_loop_bare tags current [] rest h k = rw append-nil
tag_loop_bare tags current (c ∷ t) rest h k =
    step
    ∙ tag_loop_bare tags (current ++ c ∷ []) t rest (ground arith) (ground arith)
    ∙ rw append_assoc
  where
    step :
        tag_loop (at tags current bare) (c ∷ (t ++ rest))
        ≡ tag_loop (at tags (current ++ c ∷ []) bare) (t ++ rest)
    step = ground arith

tag_loop_in_quote :
    (tags : List Text) (current t rest : Text)
    → contains b'\\' t ≡ false
    → tag_loop (at tags current in_quote) (escape_quotes t ++ (b'"' ∷ rest))
      ≡ tag_loop (at tags (current ++ t) bare) rest
unfolding tag_loop contains escape_quotes
tag_loop_in_quote tags current [] rest h = rw append-nil
tag_loop_in_quote tags current (c ∷ t) rest h =
    step ∙ tag_loop_in_quote tags (current ++ c ∷ []) t rest (ground arith) ∙ rw append_assoc
  where
    step :
        tag_loop (at tags current in_quote) (escape_quotes (c ∷ t) ++ (b'"' ∷ rest))
        ≡ tag_loop (at tags (current ++ c ∷ []) in_quote) (escape_quotes t ++ (b'"' ∷ rest))
    step = ground arith

-- A quoted tag holds no backslash.
abbrev pub IsTag : Text → Type 0
IsTag t = (contains b',' t || contains b'"' t) ≡ true → contains b'\\' t ≡ false

tag_loop-render_tag :
    (tags : List Text) (t rest : Text)
    → IsTag t
    → tag_loop (at tags [] bare) (render_tag t ++ rest) ≡ tag_loop (at tags t bare) rest
unfolding render_tag
tag_loop-render_tag tags t rest h = elim (Bool-cases (contains b',' t || contains b'"' t)) [
  | inl q ↦ rw q (rw append_assoc (unfold tag_loop in tag_loop_in_quote tags [] t rest (h q)))
  | inr q ↦ rw q (tag_loop_bare tags [] t rest (ground arith) (ground arith))
]

tag_loop_comma :
    (tags : List Text) (t rest : Text)
    → tag_loop (at tags t bare) (b',' ∷ rest) ≡ tag_loop (at (tags ++ t ∷ []) [] bare) rest
unfolding tag_loop
tag_loop_comma tags t rest = refl

parse_tags_trimmed :
    (s : Text) {last : TagState}
    → s ≢ []
    → trim s ≡ s
    → tag_loop (at [] [] bare) s ≡ last
    → parse_tags s ≡ finish_tags last.mode last
unfolding parse_tags
parse_tags_trimmed [] ne tr e = absurd (ne refl)
parse_tags_trimmed (c ∷ s) ne tr e = rw (tr, e)

tag_loop-join_tags :
    (tags : List Text) (t : Text) (ts : List Text)
    → All IsTag (t ∷ ts)
    → (last : TagState) × (tag_loop (at tags [] bare) (join_tags (map render_tag (t ∷ ts))) ≡ last)
      × (finish_tags last.mode last ≡ some (tags ++ t ∷ ts))
unfolding finish_tags
tag_loop-join_tags tags t [] h = (
  at tags t bare,
  ap (tag_loop (at tags [] bare)) (sym (append-nil (render_tag t)))
      ∙ tag_loop-render_tag tags t [] h.0
      ∙ unfold tag_loop in refl,
  refl,
)
tag_loop-join_tags tags t (u ∷ ts) h =
    let (last, run, done) = tag_loop-join_tags (tags ++ t ∷ []) u ts h.1 in
    (
      last,
      tag_loop-render_tag tags t _ h.0 ∙ (tag_loop_comma tags t _ ∙ run),
      rw append_assoc at done,
    )

-- A tag list is read back from its written form, if that is not empty and has no white space at its
-- two ends, and if every tag that is quoted, for a comma or a quote in it, has no backslash.
pub parse-render_tags :
    (tags : List Text)
    → render_tags tags ≢ []
    → trim (render_tags tags) ≡ render_tags tags
    → All IsTag tags
    → parse_tags (render_tags tags) ≡ some tags
unfolding render_tags
parse-render_tags [] ne tr h = absurd (ne refl)
parse-render_tags (t ∷ ts) ne tr h =
    let (last, run, done) = tag_loop-join_tags [] t ts h in
    parse_tags_trimmed (render_tags (t ∷ ts)) ne tr run ∙ done
