-- ===== src/Http/Messages.antt =====
-- The sentences that the handlers of app/presentation/http reply with.
use accountant_backend.Prelude.{Text, codes}

unfoldable pub too_many_logins : Text
too_many_logins = codes "Çok fazla başarısız giriş denemesi."

unfoldable pub too_many_registrations : Text
too_many_registrations = codes "Çok fazla kayıt denemesi."

unfoldable pub too_many_password_attempts : Text
too_many_password_attempts = codes "Çok fazla başarısız şifre denemesi."

unfoldable pub too_many_reset_requests : Text
too_many_reset_requests = codes "Çok fazla şifre sıfırlama isteği."

unfoldable pub too_many_email_changes : Text
too_many_email_changes = codes "Çok fazla e-posta değiştirme isteği."

unfoldable pub already_registered : Text
already_registered = codes "Bu e-posta adresi zaten kayıtlı."

unfoldable pub wrong_credentials : Text
wrong_credentials = codes "E-posta veya şifre hatalı."

unfoldable pub disabled_account : Text
disabled_account = codes "Kullanıcı hesabı devre dışı."

unfoldable pub not_refreshed : Text
not_refreshed = codes "Oturum yenilenemedi."

unfoldable pub log_in_again : Text
log_in_again = codes "Oturum yenilenemedi. Lütfen tekrar giriş yapın."

unfoldable pub stale_reset_link : Text
stale_reset_link =
    codes "Bağlantı geçersiz ya da süresi dolmuş. Lütfen yeniden şifre sıfırlama isteği gönder."

unfoldable pub wrong_password : Text
wrong_password = codes "Mevcut şifren hatalı."

unfoldable pub same_password : Text
same_password = codes "Yeni şifren mevcut şifrenden farklı olmalı."

unfoldable pub no_mail : Text
no_mail = codes "E-posta gönderimi yapılandırılmadığı için adres değiştirilemiyor."

unfoldable pub same_address : Text
same_address = codes "Bu zaten mevcut e-posta adresin."

unfoldable pub unreachable_domain : Text
unreachable_domain = codes "Bu alan adına e-posta gönderilemiyor."

unfoldable pub stale_change_link : Text
stale_change_link =
    codes "Bağlantı geçersiz ya da süresi dolmuş. Lütfen ayarlardan yeniden istek gönder."

unfoldable pub taken_meanwhile : Text
taken_meanwhile = codes "Bu e-posta adresi sen onaylamadan önce başka bir hesaba kaydedildi."

unfoldable pub not_logged_in : Text
not_logged_in = codes "Oturum açmanız gerekiyor."

unfoldable pub not_allowed : Text
not_allowed = codes "Bu işlem için yetkiniz yok."

unfoldable pub reset_requested : Text
reset_requested = codes "E-posta adresi kayıtlıysa şifre sıfırlama bağlantısı gönderildi."

unfoldable pub reset_completed : Text
reset_completed = codes "Şifren güncellendi. Yeni şifrenle giriş yapabilirsin."

unfoldable pub change_requested : Text
change_requested =
    codes
      "Doğrulama bağlantısı yeni adresine gönderildi. Onaylayana kadar mevcut adresin geçerli kalır."

unfoldable pub no_category : Text
no_category = codes "Kategori bulunamadı."

unfoldable pub expense_only : Text
expense_only = codes "Yalnızca gider kategorilerine bütçe limiti eklenebilir."

unfoldable pub no_budget_or_category : Text
no_budget_or_category = codes "Bütçe limiti veya kategori bulunamadı."

unfoldable pub second_budget : Text
second_budget = codes "Bu kategorinin zaten bir bütçe limiti var."

unfoldable pub no_budget : Text
no_budget = codes "Bütçe limiti bulunamadı."

unfoldable pub second_category : Text
second_category = codes "Bu kategori zaten mevcut."

unfoldable pub bad_range : Text
bad_range = codes "Geçerli, saat dilimli bir tarih aralığı girin."

unfoldable pub kind_mismatch : Text
kind_mismatch = codes "Kategori ile hareket türü uyuşmuyor."

unfoldable pub no_transaction : Text
no_transaction = codes "Hareket bulunamadı."

unfoldable pub no_subscription : Text
no_subscription = codes "Abonelik bulunamadı."

unfoldable pub no_user : Text
no_user = codes "Kullanıcı bulunamadı."

unfoldable pub not_yourself : Text
not_yourself = codes "Kendi hesabını pasife alamazsın."
