-- ===== src/Mail/Page.antt =====
-- The page around a mail: the last string of `render_html` in app/infrastructure/mail/template.py.
use accountant_backend.Prelude.{Text, codes, ◌++◌}
use accountant_backend.Mail.Colours.{ink, brand, brand_ink, page, card, border, faint, font}

-- the page before the blocks
unfoldable pub page_head : Text
unfolding page font brand brand_ink ink card border
page_head =
    codes "<!DOCTYPE html>\n<html lang=\"tr\">\n<head>\n<meta charset=\"utf-8\">\n<meta"
    ++ codes " name=\"viewport\" content=\"width=device-width,initial-scale=1\">\n<meta na"
    ++ codes "me=\"color-scheme\" content=\"light\">\n<meta name=\"supported-color-schemes"
    ++ codes "\" content=\"light\">\n</head>\n<body style=\"margin:0;padding:0;background:"
    ++ page
    ++ codes ";\">\n<table role=\"presentation\" width=\"100%\" cellpadding=\"0\" cellspac"
    ++ codes "ing=\"0\" border=\"0\"\n style=\"background:"
    ++ page
    ++ codes ";font-family:"
    ++ font
    ++ codes ";\">\n<tr><td align=\"center\" style=\"padding:30px 12px;\">\n<table role=\""
    ++ codes "presentation\" cellpadding=\"0\" cellspacing=\"0\" border=\"0\"\n style=\"wi"
    ++ codes "dth:100%;max-width:600px;\">\n<tr><td style=\"padding:0 0 16px 2px;\">\n<tab"
    ++ codes "le role=\"presentation\" cellpadding=\"0\" cellspacing=\"0\" border=\"0\"><t"
    ++ codes "r>\n<td width=\"40\" height=\"40\" align=\"center\" valign=\"middle\"\n styl"
    ++ codes "e=\"width:40px;height:40px;background:"
    ++ brand
    ++ codes ";border-radius:12px;\n color:"
    ++ brand_ink
    ++ codes ";font-family:"
    ++ font
    ++ codes ";font-size:18px;font-weight:700;\">A</td>\n<td style=\"padding-left:12px;col"
    ++ codes "or:"
    ++ ink
    ++ codes ";font-size:16px;font-weight:700;\">Accountant</td>\n</tr></table>\n</td></tr"
    ++ codes ">\n<tr><td style=\"background:"
    ++ card
    ++ codes ";border:1px solid "
    ++ border
    ++ codes ";border-radius:18px;padding:30px;\">\n<table role=\"presentation\" width=\"1"
    ++ codes "00%\" cellpadding=\"0\" cellspacing=\"0\" border=\"0\">\n"

-- the page after the blocks
unfoldable pub page_tail : Text
unfolding faint
page_tail =
    codes "\n</table>\n</td></tr>\n<tr><td style=\"padding:16px 2px 0;color:"
    ++ faint
    ++ codes ";font-size:12px;line-height:1.6;\">\nBu mesaj Accountant hesabın için gönder"
    ++ codes "ildi. Bildirim tercihlerini uygulamanın\nayarlar bölümünden değiştirebilirsi"
    ++ codes "n.\n</td></tr>\n</table>\n</td></tr>\n</table>\n</body>\n</html>"
