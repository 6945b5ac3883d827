-- ===== src/Mail/Colours.antt =====
-- The colours and the font of app/infrastructure/mail/template.py.
use accountant_backend.Prelude.{Text, codes}

unfoldable pub ink : Text
ink = codes "#1a2825"

unfoldable pub brand : Text
brand = codes "#173f38"

unfoldable pub brand_ink : Text
brand_ink = codes "#f9f4e8"

unfoldable pub page : Text
page = codes "#f4f1e9"

unfoldable pub card : Text
card = codes "#ffffff"

unfoldable pub border : Text
border = codes "#e4ded1"

unfoldable pub muted : Text
muted = codes "#66726d"

unfoldable pub faint : Text
faint = codes "#8b938d"

unfoldable pub panel : Text
panel = codes "#eef2ec"

unfoldable pub rule : Text
rule = codes "#efe9dc"

unfoldable pub warn_bg : Text
warn_bg = codes "#f8e5df"

unfoldable pub warn_ink : Text
warn_ink = codes "#94432f"

unfoldable pub font : Text
font = codes "'Avenir Next','Segoe UI',Helvetica,Arial,sans-serif"
