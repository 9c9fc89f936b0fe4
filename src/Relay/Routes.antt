-- ===== src/Relay/Routes.antt =====
-- relay.go: RegisterRoutes. A pattern of net/http with {id} takes one segment that is not empty, a
-- literal segment comes first, and a method that no pattern of the path has gets 405.
pub mod Served
pub mod Delivered
use atproto_push_gateway.Base.{
  ◌==◌, Text, Bytes, not, [], Option, none, some, lit, drop, length, has_prefix, cut, if◌then◌else◌,
}
use atproto_push_gateway.Relay.{EndpointStore, Handler, Outside}
use atproto_push_gateway.Relay.Register.{
  RegisterRequest, UnregisterRequest, Response, answer, handle_register, handle_unregister,
}
use atproto_push_gateway.Relay.Delivery.{PushRequest, handle_push}

-- A request, with what reading its body gives, raw (none if that fails) and as the JSON decoder
-- makes of it.
pub record Request : Type 0 where
  pub method : Text
  pub path : Text
  pub authorization : Text
  pub content_encoding : Text
  pub body : Option Bytes
  pub register : Option RegisterRequest
  pub unregister : Option UnregisterRequest

abbrev pub relay_path : Text
relay_path = lit "/relay/"

-- The segment of a path under /relay/, if it is the last one and not empty.
unfoldable pub segment_of : (path : Text) → Option Text
segment_of path =
    let segment = drop (length relay_path) path in
    if not (has_prefix path relay_path)
    then none
    else if segment == []
    then none
    else elim (cut b'/' segment) [ none ↦ some segment | some _ ↦ none ]

module _ {S : Type 0} (store : EndpointStore S) (o : Outside) where
  unfoldable pub push_to : (id : Text) → Request → Handler S → Handler S × Response
  push_to id r h =
      let req : PushRequest = record {
        id = id;
        authorization = r.authorization;
        content_encoding = r.content_encoding;
        body = r.body;
      } in
      let (h', status) = handle_push store o req h in (h', answer status)

  unfoldable pub serve : Request → Handler S → Handler S × Response
  unfolding push_to
  serve r h = elim (segment_of r.path) [
    | none ↦ (h, answer 404)
    | some segment ↦
        if not (r.method == lit "POST")
        then (h, answer 405)
        else if segment == lit "register"
        then handle_register store r.register h
        else if segment == lit "unregister"
        then (let (h', status) = handle_unregister store r.unregister h in (h', answer status))
        else push_to segment r h
  ]
