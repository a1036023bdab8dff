-- ===== src/Auth/Entities.antt =====
-- The rows of users, links, sessions and linked accounts (database/entities/user.entity.ts,
-- magic-link-token.entity.ts, refresh-token.entity.ts, oauth-provider.entity.ts) and the profiles
-- of the OAuth providers (modules/auth/interfaces). Dates are milliseconds.
use common_api.Base.{ℕ, String, Bool, List, Option}

-- `UserStatus`
pub data UserStatus : Type 0 where
  active suspended deleted : UserStatus

-- `UserRole`
pub data UserRole : Type 0 where
  user app_operator app_admin platform_super_admin : UserRole

-- `KakaoProperties`
pub record KakaoProperties : Type 0 where
  pub nickname : String
  pub profile_image : String
  pub thumbnail_image : String

-- `KakaoAccountProfile`
pub record KakaoAccountProfile : Type 0 where
  pub nickname : String
  pub thumbnail_image_url : String
  pub profile_image_url : String
  pub is_default_image : Option Bool
  pub is_default_nickname : Option Bool

-- `KakaoAccount`
pub record KakaoAccount : Type 0 where
  pub profile_nickname_needs_agreement : Bool
  pub profile_image_needs_agreement : Bool
  pub profile : Option KakaoAccountProfile
  pub email : Option String

-- `KakaoUserInfo`
pub record KakaoUserInfo : Type 0 where
  pub id : ℕ
  pub connected_at : String
  pub properties : Option KakaoProperties
  pub kakao_account : KakaoAccount

-- `KakaoOAuthProfile`
pub record KakaoOauthProfile : Type 0 where
  pub id : ℕ
  pub username : String
  pub display_name : String
  pub json : KakaoUserInfo

-- `GoogleEmail`
pub record GoogleEmail : Type 0 where
  pub value : String
  pub verified : Option Bool
  pub type : Option String

-- `GooglePhoto`
pub record GooglePhoto : Type 0 where
  pub value : String
  pub type : Option String

-- `GoogleName`
pub record GoogleName : Type 0 where
  pub family_name : Option String
  pub given_name : Option String

-- `GoogleUserInfo`
pub record GoogleUserInfo : Type 0 where
  pub sub : String
  pub name : Option String
  pub given_name : Option String
  pub family_name : Option String
  pub picture : Option String
  pub email : Option String
  pub email_verified : Option Bool
  pub locale : Option String
  pub hd : Option String

-- `GoogleOAuthProfile`
pub record GoogleOauthProfile : Type 0 where
  pub id : String
  pub display_name : String
  pub name : Option GoogleName
  pub emails : List GoogleEmail
  pub photos : List GooglePhoto
  pub json : GoogleUserInfo

-- `OAuthProfile`
pub data OauthProfile : Type 0 where
  kakao : KakaoOauthProfile → OauthProfile
  google : GoogleOauthProfile → OauthProfile

-- What `buildKakaoUserProfile` gives, but for the address.
pub record KakaoUserProfile : Type 0 where
  pub display_name : String
  pub photo : Option String
  pub thumbnail : Option String
  pub is_default_image : Bool
  pub is_default_nickname : Bool

-- What `buildGoogleUserProfile` gives, but for the address.
pub record GoogleUserProfile : Type 0 where
  pub display_name : String
  pub photo : Option String
  pub email_verified : Bool
  pub given_name : Option String
  pub family_name : Option String
  pub locale : Option String

-- `UserEntity.profile`: made of an OAuth profile, or the text of the JSON that a user sends.
pub data UserProfile : Type 0 where
  from_kakao : KakaoUserProfile → UserProfile
  from_google : GoogleUserProfile → UserProfile
  from_json : String → UserProfile

-- `OAuthProviderEntity.profile`
pub data ProviderProfile : Type 0 where
  kakao_info : KakaoUserInfo → ProviderProfile
  google_info : GoogleUserInfo → ProviderProfile

-- `UserEntity`
pub record User : Type 0 where
  pub id : ℕ
  pub app_id : String
  pub email : String
  pub status : UserStatus
  pub profile : Option UserProfile
  pub role : UserRole
  pub created_at : ℕ

-- `MagicLinkTokenEntity`
pub record MagicLinkToken : Type 0 where
  pub id : ℕ
  pub app_id : String
  pub email : String
  pub token_hash : String
  pub verification_code : String
  pub redirect_url : Option String
  pub expires_at : ℕ
  pub is_used : Bool
  pub used_at : Option ℕ
  pub provider : Option String
  pub user_id : Option ℕ
  pub created_at : ℕ

-- `RefreshTokenEntity`
pub record RefreshToken : Type 0 where
  pub id : ℕ
  pub user_id : ℕ
  pub token_hash : String
  pub expires_at : ℕ
  pub revoked_at : Option ℕ

-- `OAuthProviderEntity`
pub record OauthProvider : Type 0 where
  pub id : ℕ
  pub app_id : String
  pub user_id : ℕ
  pub provider : String
  pub provider_user_id : String
  pub email : String
  pub profile : ProviderProfile

-- The tables, the next identifier of each row and the clock.
pub record Accounts : Type 0 where
  pub users : List User
  pub links : List MagicLinkToken
  pub sessions : List RefreshToken
  pub providers : List OauthProvider
  pub next_id : ℕ
  pub now : ℕ
