-- ===== src/Auth.antt =====
-- src/security: the authenticators, and the resolver that makes one from the configuration.
use mosaic_core.Base.{String, ◌≡◌, Bool, false, Option, none, some, [], ◌==◌, if◌then◌else◌, arith}
use mosaic_core.Base.Dict.{Dict, lookup, insert}
use mosaic_core.Config.{AuthConfig}

-- The two classes derived from `AMosaicAuthenticator`.
pub data AuthKind : Type 0 where
  no_auth simple_token : AuthKind

-- `GetAuthType`, with the texts of `AuthTypeConst`.
abbrev pub get_auth_type : AuthKind → String
get_auth_type no_auth = "no-authorization"
get_auth_type simple_token = "simple-token"

pub record Authenticator : Type 0 where
  pub kind : AuthKind
  pub config : AuthConfig
  pub authenticated : Bool

-- An `IAuthenticatorFactory`; `AuthenticatorFactory<T>` constructs the class.
abbrev AuthenticatorFactory : Type 0
AuthenticatorFactory = AuthConfig → Authenticator

abbrev authenticator_factory : AuthKind → AuthenticatorFactory
authenticator_factory kind c = record { kind = kind; config = c; authenticated = false }

-- The constructor of `AuthenticatorResolver`.
unfoldable authenticator_resolver : Dict AuthenticatorFactory
unfolding insert
authenticator_resolver =
    insert (get_auth_type simple_token) (authenticator_factory simple_token)
      (insert (get_auth_type no_auth) (authenticator_factory no_auth) [])

abbrev made : AuthConfig → Option AuthenticatorFactory → Option Authenticator
made c none = none
made c (some f) = some (f c)

unfoldable pub create_authenticator : AuthConfig → Option Authenticator
unfolding authenticator_resolver lookup
create_authenticator c = made c (lookup c.type authenticator_resolver)

-- Exactly the two types of the library give an authenticator, which is not authenticated yet and has
-- the configuration that it was made from.
pub create_authenticator_lem :
    (c : AuthConfig)
    → create_authenticator c ≡ (
        if get_auth_type no_auth == c.type
        then some (authenticator_factory no_auth c)
        else if get_auth_type simple_token == c.type
        then some (authenticator_factory simple_token c)
        else none)
unfolding create_authenticator
create_authenticator_lem c = ground arith
