-- ===== src/Mail/Markup.antt =====
-- The fixed markup around the texts of a mail: the parts of app/infrastructure/mail/template.py
-- without the page around them.
use accountant_backend.Prelude.{Text, codes, ◌++◌}
use accountant_backend.Mail.Colours.{
  ink, brand, brand_ink, muted, faint, panel, rule, warn_bg, warn_ink, font,
}

-- `_paragraph` before its text
unfoldable pub paragraph_head : Text
unfolding ink
paragraph_head =
    codes "<p style=\"margin:0 0 14px;color:" ++ ink ++ codes ";font-size:15px;line-height:1.65;\">"

-- `_paragraph` after its text
unfoldable pub paragraph_tail : Text
paragraph_tail = codes "</p>"

-- `_figure`, before the label
unfoldable pub figure_head : Text
unfolding panel muted
figure_head =
    codes "<table role=\"presentation\" width=\"100%\" cellpadding=\"0\" cellspacing=\""
    ++ codes "0\" border=\"0\"><tr><td style=\"background:"
    ++ panel
    ++ codes ";border-radius:14px;padding:18px 20px;\"><div style=\"color:"
    ++ muted
    ++ codes ";font-size:11px;font-weight:700;letter-spacing:0.06em;text-transform:upperca"
    ++ codes "se;\">"

-- `_figure`, up to the value
unfoldable pub figure_middle : Text
unfolding brand
figure_middle =
    codes "</div><div style=\"color:"
    ++ brand
    ++ codes ";font-size:30px;font-weight:700;padding-top:6px;letter-spacing:-0.02em;\">"

-- `_figure`, after the value
unfoldable pub figure_tail : Text
figure_tail = codes "</div></td></tr></table>"

-- `_action`, before the address of the link
unfoldable pub action_head : Text
unfolding brand
action_head =
    codes "<table role=\"presentation\" cellpadding=\"0\" cellspacing=\"0\" border=\"0"
    ++ codes "\"><tr><td align=\"center\" bgcolor=\""
    ++ brand
    ++ codes "\" style=\"border-radius:12px;\"><a href=\""

-- `_action`, up to the label
unfoldable pub action_style : Text
unfolding brand_ink font
action_style =
    codes "\" style=\"display:inline-block;padding:14px 28px;color:"
    ++ brand_ink
    ++ codes ";font-family:"
    ++ font
    ++ codes ";font-size:15px;font-weight:700;text-decoration:none;border-radius:12px;\">"

-- `_action`, up to the address that is shown
unfoldable pub action_hint : Text
unfolding faint
action_hint =
    codes "</a></td></tr></table><p style=\"margin:14px 0 0;color:"
    ++ faint
    ++ codes ";font-size:12px;line-height:1.6;word-break:break-all;\">Bağlantı çalışmazsa "
    ++ codes "bu adresi tarayıcına yapıştır:<br>"

-- `_action`, after it
unfoldable pub action_tail : Text
action_tail = codes "</p>"

-- `_notice` before its text
unfoldable pub notice_head : Text
unfolding warn_bg warn_ink
notice_head =
    codes "<table role=\"presentation\" width=\"100%\" cellpadding=\"0\" cellspacing=\""
    ++ codes "0\" border=\"0\"><tr><td style=\"background:"
    ++ warn_bg
    ++ codes ";border-radius:12px;padding:14px 16px;color:"
    ++ warn_ink
    ++ codes ";font-size:13px;line-height:1.6;\">"

-- `_notice` after its text
unfoldable pub notice_tail : Text
notice_tail = codes "</td></tr></table>"

-- a row of `_rows`, before the label
unfoldable pub row_head : Text
unfolding rule ink
row_head =
    codes "<tr><td style=\"padding:11px 0;border-bottom:1px solid "
    ++ rule
    ++ codes ";color:"
    ++ ink
    ++ codes ";font-size:14px;\">"

-- a row of `_rows`, up to the value
unfoldable pub row_middle : Text
unfolding rule ink
row_middle =
    codes "</td><td align=\"right\" style=\"padding:11px 0;border-bottom:1px solid "
    ++ rule
    ++ codes ";color:"
    ++ ink
    ++ codes ";font-size:14px;font-weight:700;white-space:nowrap;\">"

-- a row of `_rows`, after the value
unfoldable pub row_tail : Text
row_tail = codes "</td></tr>"

-- the heading of `_rows` before the title
unfoldable pub heading_head : Text
unfolding muted
heading_head =
    codes "<div style=\"color:"
    ++ muted
    ++ codes ";font-size:11px;font-weight:700;letter-spacing:0.06em;text-transform:upperca"
    ++ codes "se;padding-bottom:6px;\">"

-- the heading of `_rows` after the title
unfoldable pub heading_tail : Text
heading_tail = codes "</div>"

-- `_rows` before the rows
unfoldable pub rows_head : Text
rows_head =
    codes "<table role=\"presentation\" width=\"100%\" cellpadding=\"0\" cellspacing=\""
    ++ codes "0\" border=\"0\">"

-- `_rows` after the rows
unfoldable pub rows_tail : Text
rows_tail = codes "</table>"

-- the greeting before its text
unfoldable pub greeting_head : Text
unfolding ink
greeting_head =
    codes "<p style=\"margin:0 0 16px;color:" ++ ink ++ codes ";font-size:17px;font-weight:700;\">"

-- the greeting after its text
unfoldable pub greeting_tail : Text
greeting_tail = codes "</p>"

-- the footnote before its text
unfoldable pub footnote_head : Text
unfolding muted
footnote_head =
    codes "<p style=\"margin:0;color:" ++ muted ++ codes ";font-size:13px;line-height:1.6;\">"

-- the footnote after its text
unfoldable pub footnote_tail : Text
footnote_tail = codes "</p>"
