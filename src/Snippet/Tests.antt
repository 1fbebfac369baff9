-- ===== src/Snippet/Tests.antt =====
-- A snippet of a short text.
use nomai.Base.{◌≡◌, refl}
use nomai.Snippet.{first_from, find_first, extract_snippet}
use nomai.Text.{codes, text_eq}

test_snippet : extract_snippet (codes "hello world") (codes "world") ≡ codes "hello **world**"
unfolding extract_snippet find_first first_from text_eq
test_snippet = refl
