-- ===== src/Auth/Profiles.antt =====
-- What is read of the profiles of Kakao and Google (modules/auth/interfaces, and the parts of
-- modules/auth/auth.service.ts that read them). `trim` is the method of texts, and `number_text`
-- the text of a number.
use Prim.Native.String.{◌++◌ as append}
use common_api.Base.{
  ℕ, String, false, List, [], ◌∷◌, Option, some, none, truthy, or_default, then_get, then_map,
  text_or,
}
use common_api.Auth.Entities.{
  KakaoOauthProfile, GoogleOauthProfile, OauthProfile, kakao, google, KakaoUserProfile,
  GoogleUserProfile, UserProfile, from_kakao, from_google, ProviderProfile, kakao_info, google_info,
}

abbrev pub first_of : {A : Type 0} → List A → Option A
first_of [] = none
first_of (a ∷ _) = some a

-- extractKakaoEmail
unfoldable pub extract_kakao_email : KakaoOauthProfile → Option String
extract_kakao_email p = p.json.kakao_account.email

-- extractKakaoProfileImage
unfoldable pub extract_kakao_profile_image : KakaoOauthProfile → Option String
extract_kakao_profile_image p =
    text_or (then_map (λ a. a.profile_image_url) p.json.kakao_account.profile)
      (then_map (λ a. a.profile_image) p.json.properties)

-- extractKakaoThumbnail
unfoldable pub extract_kakao_thumbnail : KakaoOauthProfile → Option String
extract_kakao_thumbnail p =
    text_or (then_map (λ a. a.thumbnail_image_url) p.json.kakao_account.profile)
      (then_map (λ a. a.thumbnail_image) p.json.properties)

-- extractKakaoNickname
unfoldable pub extract_kakao_nickname : KakaoOauthProfile → String
extract_kakao_nickname p =
    or_default (truthy (then_map (λ a. a.nickname) p.json.kakao_account.profile))
      (or_default (truthy (then_map (λ a. a.nickname) p.json.properties)) p.display_name)

-- buildKakaoUserProfile
unfoldable pub build_kakao_user_profile : KakaoOauthProfile → KakaoUserProfile
unfolding extract_kakao_nickname extract_kakao_profile_image extract_kakao_thumbnail
build_kakao_user_profile p = record {
  display_name = extract_kakao_nickname p;
  photo = extract_kakao_profile_image p;
  thumbnail = extract_kakao_thumbnail p;
  is_default_image =
      or_default (then_get (λ a. a.is_default_image) p.json.kakao_account.profile) false;
  is_default_nickname =
      or_default (then_get (λ a. a.is_default_nickname) p.json.kakao_account.profile) false;
}

-- extractGoogleEmail
unfoldable pub extract_google_email : GoogleOauthProfile → Option String
extract_google_email p = text_or (then_map (λ e. e.value) (first_of p.emails)) (truthy p.json.email)

-- extractGooglePhoto
unfoldable pub extract_google_photo : GoogleOauthProfile → Option String
extract_google_photo p = text_or (then_map (λ a. a.value) (first_of p.photos)) p.json.picture

-- extractGoogleDisplayName
unfoldable pub extract_google_display_name : (String → String) → GoogleOauthProfile → String
extract_google_display_name trim p = or_default (truthy (some p.display_name)) (
    or_default (truthy p.json.name) (
      or_default
        (truthy (
          some (
            trim (
              append (or_default p.json.given_name "")
                (append " " (or_default p.json.family_name ""))))))
        (or_default (truthy p.json.email) "Unknown")))

-- buildGoogleUserProfile
unfoldable pub build_google_user_profile :
    (String → String) → GoogleOauthProfile → GoogleUserProfile
unfolding extract_google_display_name extract_google_photo
build_google_user_profile trim p = record {
  display_name = extract_google_display_name trim p;
  photo = extract_google_photo p;
  email_verified = or_default p.json.email_verified false;
  given_name = text_or p.json.given_name (then_get (λ n. n.given_name) p.name);
  family_name = text_or p.json.family_name (then_get (λ n. n.family_name) p.name);
  locale = p.json.locale;
}

-- extractOAuthUserId
unfoldable pub extract_oauth_user_id : (ℕ → String) → OauthProfile → String
extract_oauth_user_id number_text (kakao p) = number_text p.id
extract_oauth_user_id number_text (google p) = p.id

-- buildProfileFromOAuth
unfoldable pub build_profile_from_oauth : (String → String) → OauthProfile → UserProfile
unfolding build_kakao_user_profile build_google_user_profile
build_profile_from_oauth trim (kakao p) = from_kakao (build_kakao_user_profile p)
build_profile_from_oauth trim (google p) = from_google (build_google_user_profile trim p)

-- buildProviderProfile, which leaves out `hd`.
unfoldable pub build_provider_profile : OauthProfile → ProviderProfile
build_provider_profile (kakao p) = kakao_info p.json
build_provider_profile (google p) = google_info (record p.json { hd = none })
