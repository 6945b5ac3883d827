-- ===== src/Examples/Letters.antt =====
-- The theorem on the markup of a mail at a message with markup in its texts.
use accountant_backend.Prelude.{◌≡◌, none, some, [], ◌∷◌, codes}
use accountant_backend.Mail.{MailMessage}
use accountant_backend.Mail.Template.{render_html}
use accountant_backend.Mail.Escaped.{marks, redact, render_html-marks}

abbrev letter : MailMessage
letter = record {
  greeting = codes "Merhaba <b>Ada</b>,";
  paragraphs = codes "\"Kira\" & <i>aidat</i>" ∷ [];
  figure = some (record { label = codes "<Gider>"; value = codes "45,00 TL" });
  rows_title = some (codes "Kategoriler");
  rows = record { label = codes "M'ü'zik"; value = codes "45,00 TL" } ∷ [];
  action = some (record { label = codes "Ac"; url = codes "https://a.org/?x=1&y=\"2\"" });
  notice = none;
  footnote = some (codes "<br>");
}

render_html-marks_example : marks (render_html letter) ≡ marks (render_html (redact letter))
render_html-marks_example = render_html-marks letter
