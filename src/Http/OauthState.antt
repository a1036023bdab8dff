-- ===== src/Http/OauthState.antt =====
-- FastifyPassportGuard.getAuthenticateOptions (common/guards/fastify-passport.guard.ts): the state
-- that is sent to an OAuth provider and what the callback reads of it. Base64 and JSON are
-- arguments.
use common_api.Base.{String, Option, some, none, or_default, truthy}

-- The object in the state; either part may be missing.
pub record StateData : Type 0 where
  pub app_id : Option String
  pub redirect_uri : Option String

-- The parameters of the query that are texts.
pub record OauthQuery : Type 0 where
  pub app_id : Option String
  pub redirect_uri : Option String
  pub code : Option String
  pub state : Option String

-- What is set on the request, and the state that goes to the provider, if one does.
pub record OauthRequest : Type 0 where
  pub app_id : String
  pub redirect_uri : Option String
  pub state : Option String

-- `encode` is base64 of `JSON.stringify`, and `decode` is `JSON.parse` of what base64 decodes, or
-- an exception.
pub record StateCodec : Type 0 where
  pub encode : StateData → String
  pub decode : String → Option StateData

abbrev pub oauth_default_app_id : String
oauth_default_app_id = "eb3fcbb2-7bb3-4ac7-aa38-1cb4bf00e405"

module _ (c : StateCodec) where
  -- The branch of a callback, for the fields that the request had.
  unfoldable pub read_state : String → Option String → OauthRequest
  read_state state before = elim (c.decode state) [
    | some d ↦ record {
      app_id = or_default d.app_id oauth_default_app_id;
      redirect_uri = d.redirect_uri;
      state = none;
    }
    | none ↦ record { app_id = state; redirect_uri = before; state = none }
  ]

  -- The branch of a start.
  unfoldable pub write_state : Option String → Option String → Option String → OauthRequest
  write_state query_app query_uri before =
      let app = or_default query_app oauth_default_app_id in
      elim (truthy query_uri) [
        | some uri ↦ record {
          app_id = app;
          redirect_uri = some uri;
          state = some (c.encode (record { app_id = some app; redirect_uri = some uri }));
        }
        | none ↦ record { app_id = app; redirect_uri = before; state = some app }
      ]

  -- getAuthenticateOptions, where the request has no redirect address yet.
  unfoldable pub get_authenticate_options : OauthQuery → OauthRequest
  get_authenticate_options q = elim q.code [
    | none ↦ write_state q.app_id q.redirect_uri none
    | some _ ↦ elim q.state [
      | none ↦ write_state q.app_id q.redirect_uri none
      | some state ↦ read_state state none
    ]
  ]
