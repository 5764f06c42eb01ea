-- ===== src/Dataset/Csv/Escaped.antt =====
-- A cell that src/dataset/dataset-csv.service.ts escapes is read as its text.
use mathlib.Core.List.{append_assoc}
use documents_backend.Common.{
  ℕ, false, ◌≡◌, refl, ap, ◌∙◌, [], ◌∷◌, ◌++◌, any, arith, inl, inr, Bool-cases,
}
use documents_backend.Dataset.Csv.Export.{
  Text, comma, quote_mark, newline, is_special, doubled, escape,
}
use documents_backend.Dataset.Csv.Reader.{Cut, start, plain, quoted, closing, push, cut}

-- What may follow a cell: the end of the text, or a separator.
pub data Follows : Text → Type 0 where
  at_end : Follows []
  at_comma : (rest : Text) → Follows (comma ∷ rest)
  at_newline : (rest : Text) → Follows (newline ∷ rest)

-- A separator is read alike outside quotes and after them.
pub closing-Follows : (k : Text) → Follows k → cut closing k ≡ cut plain k
unfolding cut
closing-Follows [] at_end = refl
closing-Follows (c ∷ k) (at_comma rest) = refl
closing-Follows (c ∷ k) (at_newline rest) = refl

pub start-Follows : (k : Text) → Follows k → cut start k ≡ cut plain k
unfolding cut
start-Follows [] at_end = refl
start-Follows (c ∷ k) (at_comma rest) = refl
start-Follows (c ∷ k) (at_newline rest) = refl

push-push : (c : ℕ) (s : Text) (t : Cut) → push (c ∷ []) (push s t) ≡ push (c ∷ s) t
push-push c s t = refl

-- A quoted text is read up to its closing mark.
cut-doubled : (s k : Text) → cut quoted (doubled s ++ quote_mark ∷ k) ≡ push s (cut closing k)
unfolding cut doubled
cut-doubled [] k = refl
cut-doubled (c ∷ s) k = ground (arith, cut-doubled s k)

-- A text without special characters is read as it stands.
cut-plain : (s k : Text) → any is_special s ≡ false → cut plain (s ++ k) ≡ push s (cut plain k)
unfolding cut
cut-plain [] k h = refl
cut-plain (c ∷ s) k h = ground (arith, cut-plain s k)

cut-quoted :
    (s k : Text)
    → Follows k
    → cut start (quote_mark ∷ ((doubled s ++ quote_mark ∷ []) ++ k)) ≡ push s (cut plain k)
unfolding cut
cut-quoted s k follows =
    ap (cut quoted) (append_assoc (doubled s) (quote_mark ∷ []) k)
    ∙ (cut-doubled s k ∙ ap (push s) (closing-Follows k follows))

cut-bare :
    (s k : Text) → Follows k → any is_special s ≡ false → cut start (s ++ k) ≡ push s (cut plain k)
unfolding cut
cut-bare [] k follows h = start-Follows k follows
cut-bare (c ∷ s) k follows h = ground (arith, cut-plain s k)

-- An escaped text is read as the text, whatever follows.
pub cut-escape : (s k : Text) → Follows k → cut start (escape s ++ k) ≡ push s (cut plain k)
unfolding escape
cut-escape s k follows = elim (Bool-cases (any is_special s)) [
  | inl t ↦ rw t (cut-quoted s k follows)
  | inr t ↦ rw t (cut-bare s k follows t)
]
