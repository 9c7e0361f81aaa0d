-- ===== src/Client/Request.antt =====
-- OlpClient::CreateRequest() of olp-cpp-sdk-core/src/client/OlpClient.cpp, with the constants of
-- include/olp/core/http/NetworkConstants.h and the headers of network/NetworkRequest.cpp. A multimap is
-- the list of its pairs, in its order; a request has the default priority and modified time.
pub mod Agents
pub mod Headers
pub mod Tests
use here_olp_edge_sdk_cpp.Prelude.{
  ℕ, ◌+◌, Bool, true, false, not, ◌&&◌, ◌||◌, Option, none, some, List, [], ◌∷◌, ◌++◌, length, leb,
  ◌==◌, if◌then◌else◌,
}
use here_olp_edge_sdk_cpp.Prelude.Text.{Text, codes, is_empty, str_eq}

abbrev pub Pairs : Type 0
Pairs = List (Text × Text)

pub data HttpVerb : Type 0 where
  get : HttpVerb
  post : HttpVerb
  head : HttpVerb
  put : HttpVerb
  del : HttpVerb
  patch : HttpVerb

pub record NetworkRequest : Type 0 where
  pub url : Text
  pub verb : HttpVerb
  pub extra_headers : Pairs
  pub content : Option (List ℕ)

-- `provider` is what the provider of the authentication settings returns, if there are such settings.
pub record OlpClient : Type 0 where
  pub base_url : Text
  pub default_headers : Pairs
  pub provider : Option Text

abbrev pub k_authorization_header : Text
k_authorization_header = codes "Authorization"

abbrev pub k_content_type_header : Text
k_content_type_header = codes "Content-Type"

abbrev pub k_user_agent_header : Text
k_user_agent_header = codes "User-Agent"

abbrev pub k_bearer : Text
k_bearer = codes "Bearer"

-- `std::tolower` of the default locale
unfoldable pub to_lower : ℕ → ℕ
to_lower c = if leb b'A' c && leb c b'Z' then c + 32 else c

abbrev pub all_equal : Text → Text → Bool
all_equal [] t = true
all_equal (c ∷ s) [] = true
all_equal (c ∷ s) (d ∷ t) = (c == d || to_lower c == to_lower d) && all_equal s t

unfoldable pub case_insensitive_compare : Text → Text → Bool
case_insensitive_compare str1 str2 = length str1 == length str2 && all_equal str1 str2

unfoldable pub verb_of : Text → HttpVerb
verb_of method =
    if str_eq method (codes "GET")
    then HttpVerb.get
    else if str_eq method (codes "PUT")
    then HttpVerb.put
    else if str_eq method (codes "POST")
    then HttpVerb.post
    else if str_eq method (codes "DELETE")
    then HttpVerb.del
    else HttpVerb.get

-- The loop over the query parameters.
unfoldable pub append_params : Bool → Text → Pairs → Text
append_params first text [] = text
append_params first text (q ∷ qs) =
    append_params false ((if first then text else text ++ b'&' ∷ []) ++ (q.0 ++ b'=' ∷ q.1)) qs

abbrev pub uri_of : Text → Pairs → Text
uri_of uri [] = uri
uri_of uri (q ∷ qs) = uri ++ append_params true (b'?' ∷ []) (q ∷ qs)

abbrev pub add_header : Pairs → Text → Text → Pairs
add_header headers name value = headers ++ (name, value) ∷ []

unfoldable pub add_headers : Pairs → Pairs → Pairs
add_headers headers [] = headers
add_headers headers (h ∷ hs) = add_headers (add_header headers h.0 h.1) hs

-- The loop over the header parameters: the headers, and `custom_user_agent`.
unfoldable pub add_params : Pairs → Text → Pairs → Pairs × Text
add_params headers agent [] = (headers, agent)
add_params headers agent (h ∷ hs) =
    let merged = add_params headers (agent ++ (h.1 ++ b' ' ∷ [])) hs in
    let added = add_params (add_header headers h.0 h.1) agent hs in
    if case_insensitive_compare h.0 k_user_agent_header then merged else added

abbrev pub add_bearer : Option Text → Pairs
add_bearer none = []
add_bearer (some token) = (k_authorization_header, k_bearer ++ b' ' ∷ token) ∷ []

abbrev pub add_content_type : Pairs → Text → Pairs
add_content_type headers content_type =
    if not (is_empty content_type)
    then add_header headers k_content_type_header content_type
    else headers

-- `sdk_user_agent` is kOlpSdkUserAgent, which the build makes of the version and the platform.
unfoldable pub create_request :
    OlpClient → Text → Text → Text → Pairs → Pairs → Option (List ℕ) → Text → NetworkRequest
create_request client sdk_user_agent path method query_params header_params post_body content_type =
    let (headers, agent) =
      add_params (add_headers (add_bearer client.provider) client.default_headers) []
        header_params in
    record {
      url = uri_of (client.base_url ++ path) query_params;
      verb = verb_of method;
      extra_headers =
          add_content_type (add_header headers k_user_agent_header (agent ++ sdk_user_agent))
            content_type;
      content = post_body;
    }
