-- ===== src/Chunking/Tests.antt =====
-- Runs of `chunk_text`.
use nomai.Base.{◌≡◌, refl, [], ◌∷◌, arith, All}
use nomai.Chunking.Bounds.{IsChunk, chunk_text_bounds}
use nomai.Chunking.Content.{visible-chunk_text}
use nomai.Chunking.Pieces.{concat, visible}
use nomai.Chunking.{chunk_text, program}
use nomai.Text.{codes}

-- `paragraph_split_when_overflows`
overflow : chunk_text (codes "a\n\nb\n\nc") 4 ≡ codes "a\n\nb" ∷ codes "c" ∷ []
unfolding program
overflow = refl

-- `long_paragraph_uses_sentence_boundary`
sentences :
    chunk_text (codes "Sentence one. Sentence two. Sentence three.") 25
    ≡ codes "Sentence one." ∷ codes "Sentence two." ∷ codes "Sentence three." ∷ []
unfolding program
sentences = refl

visible-chunk_text_example :
    visible (concat (chunk_text (codes "One two. Three.\n\nFour") 9))
    ≡ visible (codes "One two. Three.\n\nFour")
visible-chunk_text_example = visible-chunk_text (codes "One two. Three.\n\nFour") 9

chunk_text_bounds_example : All (IsChunk 9) (chunk_text (codes "One two. Three.\n\nFour") 9)
chunk_text_bounds_example =
    chunk_text_bounds 9 9 (omega arith) (omega arith) (codes "One two. Three.\n\nFour")
