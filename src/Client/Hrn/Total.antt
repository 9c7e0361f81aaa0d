-- ===== src/Client/Hrn/Total.antt =====
-- The constructor of HRN on any text, with assertions and without.
use here_olp_edge_sdk_cpp.Prelude.{
  true, false, inl, inr, ◌||◌, ◌⊎◌, Option, none, some, ◌>>=◌, [], ◌≡◌, refl, ◌∙◌, Bool-cases,
}
use here_olp_edge_sdk_cpp.Prelude.Text.{Text, codes, str_eq}
use here_olp_edge_sdk_cpp.Client.Tokenizer.{Tokenizer, tokenizer, has_next, next, next_if, tail_if}
use here_olp_edge_sdk_cpp.Client.Tokenizer.Bounds.{
  IsWithin, Reads, tokenizer-IsWithin, next-Reads, next_if-Reads, tail_if-Reads,
}
use here_olp_edge_sdk_cpp.Client.Hrn.{
  Hrn, ServiceType, null_hrn, colon, service_of, read_specific, read_service, read_fields,
  read_protocol, from_string,
}

-- An HRN of the service was made.
abbrev Made : ServiceType → Option Hrn → Type 0
Made s o = (h : Hrn) × (o ≡ some h) × (h.service ≡ s)

-- What the build without assertions makes, and what the one with them makes: the same, or a failed
-- assertion, and then the service of the first is unknown.
abbrev Agree : Option Hrn → Option Hrn → Type 0
Agree release debug =
    (h : Hrn) × (release ≡ some h)
    × ((debug ≡ some h) ⊎ ((debug ≡ none) × (h.service ≡ ServiceType.unknown)))

same-Agree :
    {release debug : Option Hrn}
    → (h : Hrn) → release ≡ some h
    → debug ≡ some h
    → Agree release debug
same-Agree h e f = (h, e, inl f)

bind-Made :
    (s : ServiceType) (m : Option (Text × Tokenizer)) (k : Text × Tokenizer → Option Hrn)
    → Reads m
    → ((x : Text) (t : Tokenizer) → IsWithin t → Made s (k (x, t)))
    → Made s (m >>= k)
bind-Made s none k h f = absurd h
bind-Made s (some (x, t)) k h f = f x t h

bind-Agree :
    (m : Option (Text × Tokenizer)) (k k' : Text × Tokenizer → Option Hrn)
    → Reads m
    → ((x : Text) (t : Tokenizer) → IsWithin t → Agree (k (x, t)) (k' (x, t)))
    → Agree (m >>= k) (m >>= k')
bind-Agree none k k' h f = absurd h
bind-Agree (some (x, t)) k k' h f = f x t h

read_specific-Made :
    (s : ServiceType) (t : Tokenizer) (h : Hrn) → IsWithin t → Made h.service (read_specific s t h)
read_specific-Made ServiceType.data_service t h w =
    bind-Made h.service (next_if t h.catalog_id) _ (next_if-Reads t h.catalog_id w) (λ x t1 w1.
      bind-Made h.service (tail_if t1 h.layer_id) _ (tail_if-Reads t1 h.layer_id w1)
        (λ y t2 w2. (_, refl, refl)))
read_specific-Made ServiceType.schema t h w =
    bind-Made h.service (next_if t h.group_id) _ (next_if-Reads t h.group_id w) (λ x t1 w1.
      bind-Made h.service (next_if t1 h.schema_name) _ (next_if-Reads t1 h.schema_name w1)
        (λ y t2 w2.
          bind-Made h.service (tail_if t2 h.version) _ (tail_if-Reads t2 h.version w2)
            (λ z t3 w3. (_, refl, refl))))
read_specific-Made ServiceType.pipeline t h w =
    bind-Made h.service (tail_if t h.pipeline_id) _ (tail_if-Reads t h.pipeline_id w)
      (λ x t1 w1. (_, refl, refl))
read_specific-Made ServiceType.unknown t h w = (h, refl, refl)

-- The service that is read in a build without assertions and in one with them.
AgreeService : Option (ServiceType × Tokenizer) → Option (ServiceType × Tokenizer) → Type 0
AgreeService release debug =
    (s : ServiceType) × (t : Tokenizer) × IsWithin t
    × (release ≡ some (s, t))
    × ((debug ≡ some (s, t)) ⊎ ((debug ≡ none) × (s ≡ ServiceType.unknown)))

service_of_cases :
    (x : Text)
    → (s : ServiceType) × (service_of true x ≡ some s)
      × ((service_of false x ≡ some s) ⊎ ((service_of false x ≡ none) × (s ≡ ServiceType.unknown)))
service_of_cases x = elim (Bool-cases (str_eq x (codes "data"))) [
  | inl e ↦ (ServiceType.data_service, rw e refl, inl (rw e refl))
  | inr e ↦ elim (Bool-cases (str_eq x (codes "schema"))) [
    | inl f ↦ (ServiceType.schema, rw (e, f) refl, inl (rw (e, f) refl))
    | inr f ↦ elim (Bool-cases (str_eq x (codes "pipeline"))) [
      | inl g ↦ (ServiceType.pipeline, rw (e, f, g) refl, inl (rw (e, f, g) refl))
      | inr g ↦ (ServiceType.unknown, rw (e, f, g) refl, inr (rw (e, f, g) refl, refl))
    ]
  ]
]

taken-AgreeService :
    (m : Option (Text × Tokenizer))
    → Reads m
    → AgreeService
        (m >>= λ r. service_of true r.0 >>= λ service. some (service, r.1))
        (m >>= λ r. service_of false r.0 >>= λ service. some (service, r.1))
unfolding AgreeService
taken-AgreeService none h = absurd h
taken-AgreeService (some (x, t)) h =
    let (s, e, f) = service_of_cases x in
    (s, t, h, rw e refl, elim f [ inl g ↦ inl (rw g refl) | inr g ↦ inr (rw g.0 refl, g.1) ])

read_service-AgreeService :
    (t : Tokenizer) → IsWithin t → AgreeService (read_service true t) (read_service false t)
unfolding read_service AgreeService
read_service-AgreeService t w = elim (Bool-cases (has_next t)) [
  | inl e ↦ rw e (taken-AgreeService (next t) (next-Reads t w))
  | inr e ↦ rw e (ServiceType.unknown, t, w, refl, inl refl)
]

bind_service-Agree :
    (m m' : Option (ServiceType × Tokenizer)) (k : ServiceType × Tokenizer → Option Hrn)
    → AgreeService m m'
    → ((s : ServiceType) (t : Tokenizer) → IsWithin t → Made s (k (s, t)))
    → Agree (m >>= k) (m' >>= k)
unfolding AgreeService
bind_service-Agree m m' k (s, t, w, e, f) made =
    let (h, g, service) = made s t w in
    (h, rw e g, elim f [ inl d ↦ inl (rw d g) | inr d ↦ inr (rw d.0 refl, service ∙ d.1) ])

read_fields-Agree : (t : Tokenizer) → IsWithin t → Agree (read_fields true t) (read_fields false t)
unfolding read_fields
read_fields-Agree t w = bind-Agree (next_if t []) _ _ (next_if-Reads t [] w) (λ p t1 w1.
    bind_service-Agree (read_service true t1) (read_service false t1) _
      (read_service-AgreeService t1 w1)
      (λ s t2 w2. bind-Made s (next_if t2 []) _ (next_if-Reads t2 [] w2) (λ r t3 w3.
        bind-Made s (next_if t3 []) _ (next_if-Reads t3 [] w3)
          (λ a t4 w4. read_specific-Made s t4 _ w4))))

read_protocol-Agree :
    (input protocol : Text) (t : Tokenizer)
    → IsWithin t
    → Agree (read_protocol true input protocol t) (read_protocol false input protocol t)
read_protocol-Agree input protocol t w =
    elim (Bool-cases (str_eq protocol (codes "http") || str_eq protocol (codes "https"))) [
      | inl e ↦
          same-Agree (record null_hrn { catalog_id = input; partition = codes "catalog-url" })
            (rw e refl) (rw e refl)
      | inr e ↦ elim (Bool-cases (str_eq protocol (codes "hrn"))) [
        | inl f ↦ rw (e, f) (read_fields-Agree t w)
        | inr f ↦ same-Agree null_hrn (rw (e, f) refl) (rw (e, f) refl)
      ]
    ]

-- Without assertions the constructor makes an HRN of any text: no position of its tokenizer leaves
-- the text, so `substr` does not throw. With assertions it makes the same HRN, or an assertion fails,
-- and then the service of that HRN is the unknown one.
pub from_string_total :
    (input : Text)
    → (h : Hrn) × (from_string true input ≡ some h)
      × ((from_string false input ≡ some h)
          ⊎ ((from_string false input ≡ none) × (h.service ≡ ServiceType.unknown)))
unfolding from_string
from_string_total input = elim (Bool-cases (has_next (tokenizer input colon))) [
  | inl e ↦ rw e (
      bind-Agree (next (tokenizer input colon)) _ _
        (next-Reads (tokenizer input colon) (tokenizer-IsWithin input colon))
        (λ x t1 w1. read_protocol-Agree input x t1 w1))
  | inr e ↦ rw e (null_hrn, refl, inl refl)
]
