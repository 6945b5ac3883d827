-- ===== src/Mail/Escaped.antt =====
-- What the markup of a mail keeps of its texts: the marks of app/infrastructure/mail/template.py.
use accountant_backend.Prelude.{
  ℕ, ◌≡◌, refl, sym, ◌∙◌, ◌==◌, ◌||◌, inl, inr, Bool, if◌then◌else◌, Bool-cases, List, [], ◌∷◌,
  ◌++◌, map, Option, none, some, Text, codes, arith,
}
use accountant_backend.Mail.{MailAction, MailFigure, MailRow, MailMessage}
use accountant_backend.Mail.Markup.{paragraph_head, paragraph_tail, rows_head, rows_tail}
use accountant_backend.Mail.Page.{page_head, page_tail}
use accountant_backend.Mail.Template.{
  escape_char, escape, join, cell_head, cell_middle, cell_tail, cell, paragraph, figure_block,
  row_block, heading, rows_block, action_block, notice_block, paragraphs_cell, figure_cell,
  rows_cell, action_cell, notice_cell, footnote_cell, render_html,
}

-- the characters that open and close tags and attributes
unfoldable pub is_mark : ℕ → Bool
is_mark c = c == b'<' || c == b'>' || c == b'"' || c == b'\''

-- those of a text, in their order
unfoldable pub marks : Text → Text
unfolding is_mark
marks [] = []
marks (c ∷ s) = if is_mark c then c ∷ marks s else marks s

marks-append : (s t : Text) → marks (s ++ t) ≡ marks s ++ marks t
unfolding marks
marks-append [] t = refl
marks-append (c ∷ s) t = elim (Bool-cases (is_mark c)) [
  | inl mark ↦ rw (mark, marks-append s t)
  | inr plain ↦ rw (plain, marks-append s t)
]

marks-escape_char : (c : ℕ) → marks (escape_char c) ≡ []
unfolding marks is_mark escape_char
marks-escape_char c = ground arith

marks-escape : (s : Text) → marks (escape s) ≡ []
unfolding escape marks
marks-escape [] = refl
marks-escape (c ∷ s) =
    rw (marks-append (escape_char c) (escape s), marks-escape_char c, marks-escape s)

-- a text, or nothing where there is none
unfoldable pub redact_text : Text → Text
redact_text [] = []
redact_text (_ ∷ _) = codes "x"

unfoldable pub redact_option : Option Text → Option Text
unfolding redact_text
redact_option none = none
redact_option (some s) = some (redact_text s)

unfoldable pub redact_figure : Option MailFigure → Option MailFigure
unfolding redact_text
redact_figure none = none
redact_figure (some f) = some (record { label = redact_text f.label; value = redact_text f.value })

unfoldable pub redact_row : MailRow → MailRow
unfolding redact_text
redact_row row = record { label = redact_text row.label; value = redact_text row.value }

unfoldable pub redact_action : Option MailAction → Option MailAction
unfolding redact_text
redact_action none = none
redact_action (some a) = some (record { label = redact_text a.label; url = redact_text a.url })

-- the message with each text that is not empty replaced by the same letter
unfoldable pub redact : MailMessage → MailMessage
unfolding redact_text redact_option redact_figure redact_row redact_action
redact m = record {
  greeting = redact_text m.greeting;
  paragraphs = map redact_text m.paragraphs;
  figure = redact_figure m.figure;
  rows_title = redact_option m.rows_title;
  rows = map redact_row m.rows;
  action = redact_action m.action;
  notice = redact_option m.notice;
  footnote = redact_option m.footnote;
}

same-append :
    (s s' t t' : Text) → marks s ≡ marks s' → marks t ≡ marks t' → marks (s ++ t) ≡ marks (s' ++ t')
same-append s s' t t' e f = rw (marks-append s t, marks-append s' t', e, f)

-- a fixed text, an escaped one and what follows
same-escape :
    (h s s' t t' : Text)
    → marks t ≡ marks t'
    → marks (h ++ (escape s ++ t)) ≡ marks (h ++ (escape s' ++ t'))
same-escape h s s' t t' e =
    same-append h h (escape s ++ t) (escape s' ++ t') refl
      (same-append (escape s) (escape s') t t' (marks-escape s ∙ sym (marks-escape s')) e)

same-cell :
    (s t padding : Text) → marks s ≡ marks t → marks (cell s padding) ≡ marks (cell t padding)
unfolding cell
same-cell s t padding e = same-append cell_head cell_head _ _ refl (
    same-append padding padding _ _ refl
      (same-append cell_middle cell_middle _ _ refl (same-append s t cell_tail cell_tail e refl)))

same-paragraph : (s t : Text) → marks (paragraph s) ≡ marks (paragraph t)
unfolding paragraph
same-paragraph s t = same-escape paragraph_head s t paragraph_tail paragraph_tail refl

same-figure :
    (f g : MailFigure) → marks (figure_block f.label f.value) ≡ marks (figure_block g.label g.value)
unfolding figure_block
same-figure f g = same-escape _ f.label g.label _ _ (same-escape _ f.value g.value _ _ refl)

same-row : (r q : MailRow) → marks (row_block r) ≡ marks (row_block q)
unfolding row_block
same-row r q = same-escape _ r.label q.label _ _ (same-escape _ r.value q.value _ _ refl)

same-notice : (s t : Text) → marks (notice_block s) ≡ marks (notice_block t)
unfolding notice_block
same-notice s t = same-escape _ s t _ _ refl

same-action :
    (a b : MailAction) → marks (action_block a.label a.url) ≡ marks (action_block b.label b.url)
unfolding action_block
same-action a b =
    same-escape _ a.url b.url _ _
      (same-escape _ a.label b.label _ _ (same-escape _ a.url b.url _ _ refl))

-- the blocks of two lists, one for one
same-join {ℓ} :
    {A : Type ℓ}
    → (block : A → Text) (f : A → A) (xs : List A)
    → ((x : A) → marks (block x) ≡ marks (block (f x)))
    → marks (join (map block xs)) ≡ marks (join (map block (map f xs)))
unfolding join
same-join block f [] e = refl
same-join block f (x ∷ xs) e = same-append _ _ _ _ (e x) (same-join block f xs e)

same-heading : (title : Option Text) → marks (heading title) ≡ marks (heading (redact_option title))
unfolding heading redact_option redact_text
same-heading none = refl
same-heading (some []) = refl
same-heading (some (d ∷ s)) = same-escape _ (d ∷ s) (codes "x") _ _ refl

same-paragraphs :
    (ps : List Text) → marks (paragraphs_cell ps) ≡ marks (paragraphs_cell (map redact_text ps))
unfolding paragraphs_cell
same-paragraphs [] = refl
same-paragraphs (p ∷ ps) =
    same-cell _ _ _ (same-join paragraph redact_text (p ∷ ps) λ s. same-paragraph s (redact_text s))

same-figures :
    (f : Option MailFigure) → marks (figure_cell f) ≡ marks (figure_cell (redact_figure f))
unfolding figure_cell redact_figure
same-figures none = refl
same-figures (some f) = same-cell _ _ _ (same-figure f _)

same-rows :
    (title : Option Text) (rows : List MailRow)
    → marks (rows_cell title rows) ≡ marks (rows_cell (redact_option title) (map redact_row rows))
unfolding rows_cell rows_block
same-rows title [] = refl
same-rows title (r ∷ rs) = same-cell _ _ _ (
    same-append _ _ _ _ (same-heading title) (
      same-append rows_head rows_head _ _ refl (
        same-append _ _ rows_tail rows_tail
          (same-join row_block redact_row (r ∷ rs) λ q. same-row q (redact_row q)) refl)))

same-actions :
    (a : Option MailAction) → marks (action_cell a) ≡ marks (action_cell (redact_action a))
unfolding action_cell redact_action
same-actions none = refl
same-actions (some a) = same-cell _ _ _ (same-action a _)

same-notices : (t : Option Text) → marks (notice_cell t) ≡ marks (notice_cell (redact_option t))
unfolding notice_cell redact_option
same-notices none = refl
same-notices (some t) = same-cell _ _ _ (same-notice t _)

same-footnotes :
    (t : Option Text) → marks (footnote_cell t) ≡ marks (footnote_cell (redact_option t))
unfolding footnote_cell redact_option
same-footnotes none = refl
same-footnotes (some t) = same-cell _ _ _ (same-escape _ t _ _ _ refl)

-- The characters < > " and ' of the page of a mail are, in their order, those of the page of the
-- same mail in which every text that is not empty is the letter x: no name, note or address in a
-- mail adds markup to the page or takes markup from it.
pub render_html-marks : (m : MailMessage) → marks (render_html m) ≡ marks (render_html (redact m))
unfolding render_html redact
render_html-marks m = same-append page_head page_head _ _ refl (
    same-append _ _ _ _
      (same-cell _ _ _ (same-escape _ m.greeting (redact_text m.greeting) _ _ refl))
      (same-append _ _ _ _ (same-paragraphs m.paragraphs) (
        same-append _ _ _ _ (same-figures m.figure) (
          same-append _ _ _ _ (same-rows m.rows_title m.rows) (
            same-append _ _ _ _ (same-actions m.action) (
              same-append _ _ _ _ (same-notices m.notice)
                (same-append _ _ page_tail page_tail (same-footnotes m.footnote) refl)))))))
