-- ===== src/Client/Request/Headers.antt =====
-- The headers and the URL of a request, against their plain description.
use here_olp_edge_sdk_cpp.Prelude.{
  ℕ, false, inl, inr, Bool-cases, Option, none, some, List, [], ◌∷◌, ◌++◌, if◌then◌else◌, ◌≡◌, refl,
  sym, ap, ◌∙◌,
}
use here_olp_edge_sdk_cpp.Prelude.Text.{Text, codes, is_empty}
use here_olp_edge_sdk_cpp.Client.Request.{
  Pairs, OlpClient, k_user_agent_header, append_params, add_headers, add_params, add_bearer,
  add_content_type, create_request,
}
use mathlib.Core.List.{append_assoc, append-nil}
use here_olp_edge_sdk_cpp.Client.Request.Agents.{is_agent, case_insensitive_compare-is_agent}

-- The headers that name a user agent, and the others.
abbrev pub agents_in : Pairs → Pairs
agents_in [] = []
agents_in (h ∷ hs) = let rest = agents_in hs in if is_agent h.0 then h ∷ rest else rest

abbrev pub others_in : Pairs → Pairs
others_in [] = []
others_in (h ∷ hs) = let rest = others_in hs in if is_agent h.0 then rest else h ∷ rest

-- The values of the user agents, a space behind each.
abbrev pub merged_agents : Pairs → Text
merged_agents [] = []
merged_agents (h ∷ hs) =
    let rest = merged_agents hs in if is_agent h.0 then h.1 ++ b' ' ∷ rest else rest

abbrev pub content_type_of : Text → Pairs
content_type_of [] = []
content_type_of (c ∷ s) = (codes "Content-Type", c ∷ s) ∷ []

abbrev pub bearer_of : Option Text → Pairs
bearer_of none = []
bearer_of (some token) = (codes "Authorization", codes "Bearer " ++ token) ∷ []

add_bearer-bearer_of : (provider : Option Text) → add_bearer provider ≡ bearer_of provider
add_bearer-bearer_of none = refl
add_bearer-bearer_of (some token) = refl

add_headers-append : (headers hs : Pairs) → add_headers headers hs ≡ headers ++ hs
unfolding add_headers
add_headers-append headers [] = sym (append-nil headers)
add_headers-append headers (h ∷ hs) =
    add_headers-append (headers ++ (h.0, h.1) ∷ []) hs ∙ append_assoc headers ((h.0, h.1) ∷ []) hs

add_params-append :
    (headers : Pairs) (agent : Text) (hs : Pairs)
    → add_params headers agent hs ≡ (headers ++ others_in hs, agent ++ merged_agents hs)
unfolding add_params
add_params-append headers agent [] = rw (append-nil headers, append-nil agent)
add_params-append headers agent (h ∷ hs) = elim (Bool-cases (is_agent h.0)) [
  | inl e ↦
      rw
        (
          case_insensitive_compare-is_agent h.0,
          e,
          add_params-append headers (agent ++ (h.1 ++ b' ' ∷ [])) hs,
        )
        (simp append_assoc)
  | inr e ↦
      rw
        (
          case_insensitive_compare-is_agent h.0,
          e,
          add_params-append (headers ++ (h.0, h.1) ∷ []) agent hs,
        )
        (simp append_assoc)
]

add_content_type-append :
    (headers : Pairs) (content_type : Text)
    → add_content_type headers content_type ≡ headers ++ content_type_of content_type
unfolding is_empty
add_content_type-append headers [] = sym (append-nil headers)
add_content_type-append headers (c ∷ s) = refl

-- The headers of a request are, in this order: the bearer token if there is one, the default headers,
-- those of the call that do not name a user agent, one user agent that is put together from all those
-- of the call and the one of the SDK, and the content type unless it is empty. So every request names
-- a user agent. A name is that of a user agent if it is `user-agent` in any mixture of cases.
pub create_request-headers :
    (client : OlpClient) (sdk path method : Text) (query params : Pairs) (body : Option (List ℕ))
    (content_type : Text)
    → (create_request client sdk path method query params body content_type).extra_headers
      ≡ bearer_of client.provider
        ++ (client.default_headers
            ++ (others_in params
                ++ ((codes "User-Agent", merged_agents params ++ sdk)
                    ∷ content_type_of content_type)))
unfolding create_request
create_request-headers client sdk path method query params body content_type =
    rw
      (
        add_bearer-bearer_of client.provider,
        add_params-append (add_headers (bearer_of client.provider) client.default_headers) []
            params,
        add_headers-append (bearer_of client.provider) client.default_headers,
        add_content_type-append
            (((bearer_of client.provider ++ client.default_headers) ++ others_in params)
              ++ (k_user_agent_header, merged_agents params ++ sdk) ∷ [])
            content_type,
      )
      (simp append_assoc)

agents_in-append : (hs ks : Pairs) → agents_in (hs ++ ks) ≡ agents_in hs ++ agents_in ks
agents_in-append [] ks = refl
agents_in-append (h ∷ hs) ks = elim (Bool-cases (is_agent h.0)) [
  | inl e ↦ rw (e, agents_in-append hs ks)
  | inr e ↦ rw (e, agents_in-append hs ks)
]

agents_in-others_in : (hs : Pairs) → agents_in (others_in hs) ≡ []
agents_in-others_in [] = refl
agents_in-others_in (h ∷ hs) = elim (Bool-cases (is_agent h.0)) [
  | inl e ↦ rw e (agents_in-others_in hs)
  | inr e ↦ rw (e, e) (agents_in-others_in hs)
]

agents_in-bearer_of : (provider : Option Text) → agents_in (bearer_of provider) ≡ []
agents_in-bearer_of none = refl
agents_in-bearer_of (some token) = refl

agents_in-content_type_of :
    (agent content_type : Text)
    → agents_in ((k_user_agent_header, agent) ∷ content_type_of content_type)
      ≡ (k_user_agent_header, agent) ∷ []
agents_in-content_type_of agent [] = refl
agents_in-content_type_of agent (c ∷ s) = refl

-- The user agents of a request, whatever the case of their names, are those of the default headers as
-- they stand, and behind them the one that the call's are merged into.
create_request-agents :
    (client : OlpClient) (sdk path method : Text) (query params : Pairs) (body : Option (List ℕ))
    (content_type : Text)
    → agents_in (create_request client sdk path method query params body content_type).extra_headers
      ≡ agents_in client.default_headers ++ (k_user_agent_header, merged_agents params ++ sdk) ∷ []
create_request-agents client sdk path method query params body content_type =
    ap agents_in (create_request-headers client sdk path method query params body content_type)
    ∙ rw (
      agents_in-append,
      agents_in-append,
      agents_in-append,
      agents_in-bearer_of client.provider,
      agents_in-others_in params,
      agents_in-content_type_of (merged_agents params ++ sdk) content_type,
    )

abbrev pub pair_text : Text × Text → Text
pair_text q = q.0 ++ b'=' ∷ q.1

abbrev pub more_params : Pairs → Text
more_params [] = []
more_params (q ∷ qs) = b'&' ∷ (pair_text q ++ more_params qs)

abbrev pub query_text : Pairs → Text
query_text [] = []
query_text (q ∷ qs) = b'?' ∷ (pair_text q ++ more_params qs)

append_params-more :
    (text : Text) (qs : Pairs) → append_params false text qs ≡ text ++ more_params qs
unfolding append_params
append_params-more text [] = sym (append-nil text)
append_params-more text (q ∷ qs) =
    append_params-more ((text ++ b'&' ∷ []) ++ pair_text q) qs ∙ simp append_assoc

-- The URL is the base URL and the path, and if there are query parameters, a question mark and each of
-- them as name=value, with an ampersand between two.
create_request-url :
    (client : OlpClient) (sdk path method : Text) (query params : Pairs) (body : Option (List ℕ))
    (content_type : Text)
    → (create_request client sdk path method query params body content_type).url
      ≡ (client.base_url ++ path) ++ query_text query
unfolding create_request append_params
create_request-url client sdk path method [] params body content_type =
    sym (append-nil (client.base_url ++ path))
create_request-url client sdk path method (q ∷ qs) params body content_type =
    ap (λ t. (client.base_url ++ path) ++ t) (append_params-more (b'?' ∷ pair_text q) qs)
