-- ===== src/Middlewares/Context.antt =====
-- authelia_context.go: sessions, replies, and where a request comes from and goes to.
use ldap_totp_nginx_auth.Prelude.{
  Text, List, [], ◌++◌, lit, Bool, ℕ, Option, none, some, trim, split, Result, ok, err,
}
use ldap_totp_nginx_auth.Authorization.{Url}
use ldap_totp_nginx_auth.Session.{UserSession, new_default_user_session}
use ldap_totp_nginx_auth.Middlewares.{
  Request, Message, Body, okay, status_text, error, blank, Call, Env, Handler, perform, respond,
}

-- `Error` (and `ReplyError`): the body tells of the failure, the status stays.
unfoldable pub error_reply : Message → Handler (Unit {0})
error_reply message = respond (λ r. record r { body = error message })

-- `RequestCtx.Error` resets the response.
unfoldable pub reply_unauthorized : Handler (Unit {0})
reply_unauthorized = respond (λ r. record blank { status = 401; body = status_text 401 })

unfoldable pub reply_forbidden : Handler (Unit {0})
reply_forbidden = respond (λ r. record blank { status = 403; body = status_text 403 })

unfoldable pub reply_ok : Handler (Unit {0})
reply_ok = respond (λ r. record r { body = okay })

-- `SetJSONBody`, for values that marshal.
unfoldable pub set_json_body : Body → Handler (Unit {0})
set_json_body body = respond (λ r. record r { body = body })

abbrev pub session_or_default : Option UserSession → UserSession
session_or_default none = new_default_user_session
session_or_default (some s) = s

pub data HeaderError : Type 0 where
  missing_x_forwarded_proto missing_x_forwarded_host cannot_parse : HeaderError

-- `ForwardedProtoHost`.
unfoldable pub forwarded_proto_host : Request → Result HeaderError Text
forwarded_proto_host request = elim request.x_forwarded_proto [
  | none ↦ err missing_x_forwarded_proto
  | some proto ↦ elim request.x_forwarded_host [
    | none ↦ err missing_x_forwarded_host
    | some host ↦ ok (proto ++ (lit "://" ++ host))
  ]
]

abbrev pub text_or_empty : Option Text → Text
text_or_empty none = []
text_or_empty (some t) = t

abbrev parsed : Option Url → Result HeaderError Url
parsed none = err cannot_parse
parsed (some url) = ok url

module _ (env : Env) where
  -- `GetSession`: a session that cannot be read counts as a new one.
  unfoldable pub get_session : Handler UserSession
  get_session = perform Call.get_session (λ t. session_or_default (env.get_session t))

  unfoldable pub save_session : UserSession → Handler Bool
  save_session s = perform (Call.save_session s) (env.save_session s)

  unfoldable pub regenerate_session : Handler Bool
  regenerate_session = perform Call.regenerate_session env.regenerate_session

  unfoldable pub destroy_session : Handler Bool
  destroy_session = perform Call.destroy_session env.destroy_session

  -- `RemoteIP`: the first address of X-Forwarded-For, where that header is set.
  unfoldable pub remote_ip : Request → List ℕ
  remote_ip request = elim request.x_forwarded_for [
    | none ↦ request.peer_ip
    | some addresses ↦ env.parse_ip (trim (split b',' addresses).0)
  ]

  -- The URL that the X-Forwarded-* headers make up.
  unfoldable pub forwarded_url : Request → Result HeaderError Url
  forwarded_url request = elim request.x_forwarded_proto [
    | none ↦ err missing_x_forwarded_proto
    | some proto ↦ elim request.x_forwarded_host [
      | none ↦ err missing_x_forwarded_host
      | some host ↦ parsed (
          env.parse_request_uri
            (proto ++ (lit "://" ++ (host ++ text_or_empty request.x_forwarded_uri))))
    ]
  ]

  -- `GetOriginalURL`.
  unfoldable pub get_original_url : Request → Result HeaderError Url
  get_original_url request = elim request.x_original_url [
    | some original ↦ parsed (env.parse_request_uri original)
    | none ↦ forwarded_url request
  ]
