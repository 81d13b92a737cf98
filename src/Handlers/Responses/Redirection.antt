-- ===== src/Handlers/Responses/Redirection.antt =====
-- Which addresses `IsRedirectionSafe` takes to be those of the protected domain.
use ldap_totp_nginx_auth.Prelude.{Text, ◌++◌, ==_iff, lit, true, has_suffix_iff, ◌≡◌, ◌↔◌, arith}
use ldap_totp_nginx_auth.Authorization.{Url}
use ldap_totp_nginx_auth.Handlers.Responses.{is_redirection_safe}

-- A redirection counts as safe exactly if it is https and the host ends in the letters of the
-- protected domain, whatever stands before them, which need not be a dot.
pub is_redirection_safe_iff :
    (url : Url) (domain : Text)
    → (is_redirection_safe url domain ≡ true)
      ↔ ((url.scheme ≡ lit "https") × (before : Text) × (url.hostname ≡ before ++ domain))
unfolding is_redirection_safe
is_redirection_safe_iff url domain =
    ground (arith, ==_iff url.scheme (lit "https"), has_suffix_iff url.hostname domain)
