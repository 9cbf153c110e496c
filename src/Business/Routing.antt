-- ===== src/Business/Routing.antt =====
-- libs/business/src/business.middleware.ts and business.guard.ts: the slug of the business that a
-- request is about, from its header or its host name.
use mathlib.Core.List.{reverse}
use madinaty_ai_core_mesh.Base.{
  ℕ, ◌-◌, Bool, false, not, ◌&&◌, ◌||◌, [], ◌∷◌, ◌++◌, Option, none, some, leb, ◌==◌, if◌then◌else◌,
  is_some, or_else, length, take, all,
}
use madinaty_ai_core_mesh.Base.Text.{Text, codes, same_text, starts_with, truthy}

pub record TenantContext : Type 0 where
  pub subdomain : Text
  pub business_slug : Option Text

abbrev pub is_business_enabled : Text → Bool
is_business_enabled subdomain =
    same_text subdomain (codes "kitchen") || same_text subdomain (codes "tutor")

-- `[a-z0-9]`, and with the hyphen.
abbrev is_slug_start : ℕ → Bool
is_slug_start c = (leb b'a' c && leb c b'z') || (leb b'0' c && leb c b'9')

-- `/^[a-z0-9][a-z0-9-]*$/`
abbrev pub is_slug : Text → Bool
is_slug [] = false
is_slug (c ∷ s) = is_slug_start c && all (λ d. is_slug_start d || d == b'-') s

unfoldable pub ends_with : Text → Text → Bool
ends_with suffix s = starts_with (reverse suffix) (reverse s)

-- The part of the host before `.subdomain.rootDomain`, if it is a slug.
unfoldable pub slug_of_host : Text → Text → Text → Option Text
slug_of_host host subdomain root_domain =
    let own = subdomain ++ codes "." ++ root_domain in
    let suffix = b'.' ∷ own in
    let slug = take (length host - length suffix) host in
    if ends_with suffix host && not (same_text host own) && is_slug slug then some slug else none

abbrev with_slug : Option Text → TenantContext → TenantContext
with_slug none ctx = ctx
with_slug (some slug) ctx = record ctx { business_slug = some slug }

-- `use`: the context after it, where there is one. The root domain is `ROOT_DOMAIN`.
unfoldable pub resolve_business :
    Option Text → Option Text → Text → Option TenantContext → Option TenantContext
resolve_business root_domain header host none = none
resolve_business root_domain header host (some ctx) =
    if not (is_business_enabled ctx.subdomain) then some ctx else elim (truthy header) [
      | some slug ↦ some (with_slug (some slug) ctx)
      | none ↦ some (
          with_slug (slug_of_host host ctx.subdomain (or_else root_domain (codes "madinatyai.com")))
            ctx)
    ]

-- `BusinessGuard.canActivate`
unfoldable pub has_business : Option TenantContext → Bool
has_business none = false
has_business (some ctx) =
    is_some (elim ctx.business_slug [ none ↦ none | some s ↦ truthy (some s) ])
