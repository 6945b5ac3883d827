-- ===== src/Settings/Proxies.antt =====
-- Whom `client_address` charges a request to.
use accountant_backend.Prelude.{
  ◌≡◌, refl, ap, ◌∙◌, true, false, some, List, [], ◌∷◌, ◌++◌, reverse, Text, strip, strip_all,
  split, split_first, contains_char, arith, ℕ,
}
use mathlib.Core.List.{reverse-append}
use accountant_backend.Settings.{
  Settings, Addresses, Network, is_filled, is_trusted, first_untrusted, trusted_proxies,
  client_address,
}

split_first-alone : (c : ℕ) (h : Text) → contains_char c h ≡ false → split_first c h ≡ (h, [])
unfolding split_first contains_char
split_first-alone c [] free = refl
split_first-alone c (a ∷ h) free = ground (arith, split_first-alone c h)

split_first-last :
    (c : ℕ) (p h : Text)
    → contains_char c h ≡ false
    → split_first c (p ++ c ∷ h) ≡ ((split_first c p).0, (split_first c p).1 ++ h ∷ [])
unfolding split_first
split_first-last c [] h free = ground (arith, split_first-alone c h)
split_first-last c (a ∷ p) h free = ground (arith, split_first-last c p h)

split-last :
    (c : ℕ) (p h : Text) → contains_char c h ≡ false → split c (p ++ c ∷ h) ≡ split c p ++ h ∷ []
unfolding split
split-last c p h free = rw (split_first-last c p h free) refl

strip_all-last :
    (parts : List Text) (h : Text) → strip_all (parts ++ h ∷ []) ≡ strip_all parts ++ strip h ∷ []
unfolding strip_all
strip_all-last [] h = refl
strip_all-last (s ∷ parts) h = ap (λ rest. strip s ∷ rest) (strip_all-last parts h)

client_address_lem :
    (addresses : Addresses) (s : Settings) (peer header : Text)
    → is_trusted addresses peer (trusted_proxies addresses s) ≡ true
    → client_address addresses s (record { client_host = some peer; forwarded_for = header })
      ≡ first_untrusted addresses peer
          (trusted_proxies addresses s)
          (reverse (strip_all (split b',' header)))
unfolding client_address
client_address_lem addresses s peer header proxy = rw proxy refl

appended_first :
    (p h : Text)
    → contains_char b',' h ≡ false
    → reverse (strip_all (split b',' (p ++ b',' ∷ h)))
      ≡ strip h ∷ reverse (strip_all (split b',' p))
appended_first p h free =
    ap (λ parts. reverse (strip_all parts)) (split-last b',' p h free)
    ∙ ap reverse (strip_all-last (split b',' p) h)
    ∙ reverse-append (strip_all (split b',' p)) (strip h ∷ [])

takes_first :
    (addresses : Addresses) (peer hop : Text) (proxies : List Network) (hops : List Text)
    → is_filled hop ≡ true
    → is_trusted addresses hop proxies ≡ false
    → first_untrusted addresses peer proxies (hop ∷ hops) ≡ hop
unfolding first_untrusted
takes_first addresses peer hop proxies hops filled unknown = ground arith

-- Behind a trusted proxy, what the proxy appended to the header is, where it is not empty and not itself
-- trusted, the address that the request is charged to, whatever the caller wrote before it.
pub client_address-appended :
    (addresses : Addresses) (s : Settings) (peer p h : Text)
    → is_trusted addresses peer (trusted_proxies addresses s) ≡ true
    → contains_char b',' h ≡ false
    → is_filled (strip h) ≡ true
    → is_trusted addresses (strip h) (trusted_proxies addresses s) ≡ false
    → client_address addresses s (record { client_host = some peer; forwarded_for = p ++ b',' ∷ h })
      ≡ strip h
client_address-appended addresses s peer p h proxy free filled unknown =
    client_address_lem addresses s peer (p ++ b',' ∷ h) proxy
    ∙ ap (first_untrusted addresses peer (trusted_proxies addresses s)) (appended_first p h free)
    ∙ takes_first addresses peer (strip h) (trusted_proxies addresses s) _ filled unknown

-- A request whose connection does not come from a trusted proxy is charged to the address of the
-- connection, whatever its header says.
pub client_address-direct :
    (addresses : Addresses) (s : Settings) (peer header : Text)
    → is_trusted addresses peer (trusted_proxies addresses s) ≡ false
    → client_address addresses s (record { client_host = some peer; forwarded_for = header }) ≡ peer
unfolding client_address
client_address-direct addresses s peer header direct = rw direct refl
