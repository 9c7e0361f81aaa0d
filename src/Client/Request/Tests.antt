-- ===== src/Client/Request/Tests.antt =====
-- A request with two user agents.
use here_olp_edge_sdk_cpp.Prelude.{none, some, [], ◌∷◌, ◌++◌, ◌≡◌, refl}
use here_olp_edge_sdk_cpp.Prelude.Text.{Text, codes, is_empty, str_eq}
use here_olp_edge_sdk_cpp.Client.Request.{
  Pairs, HttpVerb, OlpClient, verb_of, to_lower, case_insensitive_compare, append_params,
  add_headers, add_params, create_request,
}
use here_olp_edge_sdk_cpp.Client.Request.Headers.{
  bearer_of, others_in, merged_agents, content_type_of, create_request-headers,
}

abbrev client : OlpClient
client = record {
  base_url = codes "https://h";
  default_headers = (codes "user-agent", codes "app") ∷ [];
  provider = some (codes "t");
}

abbrev params : Pairs
params = (codes "USER-AGENT", codes "x") ∷ (codes "Accept", codes "json") ∷ []

abbrev query : Pairs
query = (codes "a", codes "1") ∷ (codes "b", codes "2") ∷ []

abbrev sdk : Text
sdk = codes "OLP"

whole_request :
    create_request client sdk (codes "/p") (codes "DELETE") query params none [] ≡ record {
      url = codes "https://h/p?a=1&b=2";
      verb = HttpVerb.del;
      extra_headers =
          (codes "Authorization", codes "Bearer t")
          ∷ (codes "user-agent", codes "app")
          ∷ (codes "Accept", codes "json")
          ∷ (codes "User-Agent", codes "x OLP")
          ∷ [];
      content = none;
    }
unfolding create_request verb_of to_lower case_insensitive_compare append_params add_headers
    add_params is_empty str_eq
whole_request = refl

create_request-headers_example :
    (create_request client sdk (codes "/p") (codes "GET") query params none []).extra_headers
    ≡ bearer_of client.provider
      ++ (client.default_headers
          ++ (others_in params
              ++ ((codes "User-Agent", merged_agents params ++ sdk) ∷ content_type_of [])))
create_request-headers_example =
    create_request-headers client sdk (codes "/p") (codes "GET") query params none []
