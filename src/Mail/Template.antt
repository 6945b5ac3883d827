-- ===== src/Mail/Template.antt =====
-- `render_html` and `render_text` of app/infrastructure/mail/template.py, with `html.escape`.
use accountant_backend.Prelude.{
  ℕ, Option, none, some, List, [], ◌∷◌, ◌++◌, map, Text, codes, ◌==◌, if◌then◌else◌,
}
use accountant_backend.Mail.{MailAction, MailFigure, MailRow, MailMessage}
use accountant_backend.Mail.Markup.{
  paragraph_head, paragraph_tail, figure_head, figure_middle, figure_tail, action_head,
  action_style, action_hint, action_tail, notice_head, notice_tail, row_head, row_middle, row_tail,
  heading_head, heading_tail, rows_head, rows_tail, greeting_head, greeting_tail, footnote_head,
  footnote_tail,
}
use accountant_backend.Mail.Page.{page_head, page_tail}

-- `escape` of one character
unfoldable pub escape_char : ℕ → Text
escape_char c =
    if c == b'&'
    then codes "&amp;"
    else if c == b'<'
    then codes "&lt;"
    else if c == b'>'
    then codes "&gt;"
    else if c == b'"'
    then codes "&quot;"
    else if c == b'\''
    then codes "&#x27;"
    else c ∷ []

-- `html.escape`
unfoldable pub escape : Text → Text
unfolding escape_char
escape [] = []
escape (c ∷ s) = escape_char c ++ escape s

-- `"".join(parts)`
unfoldable pub join : List Text → Text
join [] = []
join (s ∷ parts) = s ++ join parts

unfoldable pub cell_head : Text
cell_head = codes "<tr><td style=\"padding:"

unfoldable pub cell_middle : Text
cell_middle = codes ";\">"

unfoldable pub cell_tail : Text
cell_tail = codes "</td></tr>"

-- the paddings of the cells
unfoldable pub flush : Text
flush = codes "0"

unfoldable pub above_figure : Text
above_figure = codes "6px 0 0"

unfoldable pub above_rows : Text
above_rows = codes "22px 0 0"

unfoldable pub above_action : Text
above_action = codes "24px 0 0"

unfoldable pub above_footnote : Text
above_footnote = codes "20px 0 0"

-- `_cell`
unfoldable pub cell : Text → Text → Text
cell content padding = cell_head ++ (padding ++ (cell_middle ++ (content ++ cell_tail)))

-- `_paragraph`
unfoldable pub paragraph : Text → Text
paragraph text = paragraph_head ++ (escape text ++ paragraph_tail)

-- `_figure`
unfoldable pub figure_block : Text → Text → Text
figure_block label value =
    figure_head ++ (escape label ++ (figure_middle ++ (escape value ++ figure_tail)))

-- an item of the body of `_rows`
unfoldable pub row_block : MailRow → Text
row_block row = row_head ++ (escape row.label ++ (row_middle ++ (escape row.value ++ row_tail)))

-- the heading of `_rows`, where the title is not empty
unfoldable pub heading : Option Text → Text
heading none = []
heading (some []) = []
heading (some (c ∷ s)) = heading_head ++ (escape (c ∷ s) ++ heading_tail)

-- `_rows`
unfoldable pub rows_block : Option Text → List MailRow → Text
unfolding heading row_block join
rows_block title rows = heading title ++ (rows_head ++ (join (map row_block rows) ++ rows_tail))

-- `_action`
unfoldable pub action_block : Text → Text → Text
action_block label url =
    action_head
    ++ (escape url
        ++ (action_style ++ (escape label ++ (action_hint ++ (escape url ++ action_tail)))))

-- `_notice`
unfoldable pub notice_block : Text → Text
notice_block text = notice_head ++ (escape text ++ notice_tail)

-- the blocks that are there
unfoldable pub paragraphs_cell : List Text → Text
unfolding cell paragraph join
paragraphs_cell [] = []
paragraphs_cell (p ∷ ps) = cell (join (map paragraph (p ∷ ps))) flush

unfoldable pub figure_cell : Option MailFigure → Text
unfolding cell figure_block
figure_cell none = []
figure_cell (some f) = cell (figure_block f.label f.value) above_figure

unfoldable pub rows_cell : Option Text → List MailRow → Text
unfolding cell rows_block
rows_cell title [] = []
rows_cell title (r ∷ rs) = cell (rows_block title (r ∷ rs)) above_rows

unfoldable pub action_cell : Option MailAction → Text
unfolding cell action_block
action_cell none = []
action_cell (some a) = cell (action_block a.label a.url) above_action

unfoldable pub notice_cell : Option Text → Text
unfolding cell notice_block
notice_cell none = []
notice_cell (some text) = cell (notice_block text) above_rows

unfoldable pub footnote_cell : Option Text → Text
unfolding cell
footnote_cell none = []
footnote_cell (some text) = cell (footnote_head ++ (escape text ++ footnote_tail)) above_footnote

-- `render_html`
unfoldable pub render_html : MailMessage → Text
unfolding cell paragraphs_cell figure_cell rows_cell action_cell notice_cell footnote_cell
render_html m =
    page_head
    ++ (cell (greeting_head ++ (escape m.greeting ++ greeting_tail)) flush
        ++ (paragraphs_cell m.paragraphs
            ++ (figure_cell m.figure
                ++ (rows_cell m.rows_title m.rows
                    ++ (action_cell m.action
                        ++ (notice_cell m.notice ++ (footnote_cell m.footnote ++ page_tail)))))))

-- what `render_text` puts into its list for each part
unfoldable pub paragraph_lines : List Text → List Text
paragraph_lines [] = []
paragraph_lines (p ∷ ps) = p ∷ [] ∷ paragraph_lines ps

unfoldable pub figure_lines : Option MailFigure → List Text
figure_lines none = []
figure_lines (some f) = (f.label ++ codes ": " ++ f.value) ∷ [] ∷ []

unfoldable pub title_lines : Option Text → List Text
title_lines none = []
title_lines (some []) = []
title_lines (some (c ∷ s)) = ((c ∷ s) ++ codes ":") ∷ []

unfoldable pub row_line : MailRow → Text
row_line row = codes "- " ++ row.label ++ codes ": " ++ row.value

unfoldable pub rows_lines : Option Text → List MailRow → List Text
unfolding title_lines row_line
rows_lines title [] = []
rows_lines title (r ∷ rs) = title_lines title ++ map row_line (r ∷ rs) ++ ([] ∷ [])

unfoldable pub action_lines : Option MailAction → List Text
action_lines none = []
action_lines (some a) = (a.label ++ codes ":") ∷ a.url ∷ [] ∷ []

unfoldable pub text_lines : Option Text → List Text
text_lines none = []
text_lines (some text) = text ∷ [] ∷ []

-- `"\n".join(parts)`
unfoldable pub join_lines : List Text → Text
join_lines [] = []
join_lines (s ∷ []) = s
join_lines (s ∷ t ∷ parts) = s ++ b'\n' ∷ join_lines (t ∷ parts)

-- `render_text`
unfoldable pub render_text : MailMessage → Text
unfolding paragraph_lines figure_lines rows_lines action_lines text_lines join_lines
render_text m = join_lines (
    m.greeting
    ∷ []
    ∷ (paragraph_lines m.paragraphs
        ++ figure_lines m.figure
        ++ rows_lines m.rows_title m.rows
        ++ action_lines m.action
        ++ text_lines m.notice
        ++ text_lines m.footnote
        ++ (codes "Accountant" ∷ [])))
