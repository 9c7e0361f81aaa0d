-- ===== src/Client/Hrn/Equality.antt =====
-- operator== of HRN, and what the constructor makes of any text.
use here_olp_edge_sdk_cpp.Prelude.{Bool, true, some, ◌>>=◌, ◌∷◌, ◌++◌, ◌≡◌, ◌↔◌, refl, sym, arith}
use here_olp_edge_sdk_cpp.Prelude.Text.{Text, codes, is_empty, str_eq, str_eq_iff, str_eq_refl}
use here_olp_edge_sdk_cpp.Client.Tokenizer.{tokenizer}
use here_olp_edge_sdk_cpp.Client.Tokenizer.Unread.{tokenizer-Unread, has_next-Unread, next-Unread}
use here_olp_edge_sdk_cpp.Client.Hrn.{
  Hrn, ServiceType, null_hrn, colon, from_string, service_eq, specific_eq, hrn_eq,
}
use here_olp_edge_sdk_cpp.Client.Hrn.RoundTrip.{Fits, IsCanonical}
use mathlib.Core.Path.{subst}

service_eq_iff : (s t : ServiceType) → (service_eq s t ≡ true) ↔ (s ≡ t)
service_eq_iff ServiceType.unknown t = ground arith
service_eq_iff ServiceType.data_service t = ground arith
service_eq_iff ServiceType.schema t = ground arith
service_eq_iff ServiceType.pipeline t = ground arith

abbrev SameParts : Hrn → Hrn → Type 0
SameParts a b =
    (a.catalog_id ≡ b.catalog_id)
    × (a.layer_id ≡ b.layer_id)
    × (a.group_id ≡ b.group_id)
    × (a.schema_name ≡ b.schema_name)
    × (a.version ≡ b.version)
    × (a.pipeline_id ≡ b.pipeline_id)

specific_eq-SameParts :
    (s : ServiceType) (a b : Hrn) → Fits s a → Fits s b → specific_eq s a b ≡ true → SameParts a b
specific_eq-SameParts ServiceType.data_service a b p q e =
    ground (arith, str_eq_iff a.catalog_id b.catalog_id, str_eq_iff a.layer_id b.layer_id)
specific_eq-SameParts ServiceType.schema a b p q e = ground (
  arith,
  str_eq_iff a.group_id b.group_id,
  str_eq_iff a.schema_name b.schema_name,
  str_eq_iff a.version b.version,
)
specific_eq-SameParts ServiceType.pipeline a b p q e =
    ground (arith, str_eq_iff a.pipeline_id b.pipeline_id)
specific_eq-SameParts ServiceType.unknown a b p q e = ground arith

specific_eq_refl : (s : ServiceType) (a : Hrn) → specific_eq s a a ≡ true
specific_eq_refl ServiceType.data_service a = rw (str_eq_refl a.catalog_id, str_eq_refl a.layer_id)
specific_eq_refl ServiceType.schema a =
    rw (str_eq_refl a.group_id, str_eq_refl a.schema_name, str_eq_refl a.version)
specific_eq_refl ServiceType.pipeline a = rw (str_eq_refl a.pipeline_id)
specific_eq_refl ServiceType.unknown a = refl

hrn_eq_refl : (a : Hrn) → hrn_eq a a ≡ true
unfolding hrn_eq
hrn_eq_refl a =
    rw
      (
        str_eq_refl a.partition,
        (service_eq_iff a.service a.service).1 refl,
        str_eq_refl a.region,
        str_eq_refl a.account,
      )
      (specific_eq_refl a.service a)

hrn_eq_parts :
    (a b : Hrn)
    → hrn_eq a b ≡ true
    → (a.partition ≡ b.partition)
      × (a.service ≡ b.service)
      × (a.region ≡ b.region)
      × (a.account ≡ b.account)
      × (specific_eq a.service a b ≡ true)
unfolding hrn_eq
hrn_eq_parts a b e = ground (
  arith,
  str_eq_iff a.partition b.partition,
  service_eq_iff a.service b.service,
  str_eq_iff a.region b.region,
  str_eq_iff a.account b.account,
)

hrn_eq-eq : (a b : Hrn) → IsCanonical a → IsCanonical b → hrn_eq a b ≡ true → a ≡ b
hrn_eq-eq a b p q e =
    let (partition, service, region, account, specific) = hrn_eq_parts a b e in
    let fits : Fits a.service b = subst (λ (s : ServiceType). Fits s b) (sym service) q.specific in
    let parts : SameParts a b = specific_eq-SameParts a.service a b p.specific fits specific in
    ground arith

-- operator== gives true for two HRNs that are the same in all fields, and for no others, provided
-- that in both of them the fields that the service does not use are empty and no part but the last
-- holds a colon.
pub hrn_eq_iff : (a b : Hrn) → IsCanonical a → IsCanonical b → (hrn_eq a b ≡ true) ↔ (a ≡ b)
hrn_eq_iff a b p q =
    (λ e. hrn_eq-eq a b p q e, λ e. subst (λ h. hrn_eq a h ≡ true) e (hrn_eq_refl a))

url_hrn : Text → Hrn
url_hrn input = record null_hrn { catalog_id = input; partition = codes "catalog-url" }

from_string-url :
    (ndebug : Bool) (url : Text)
    → from_string ndebug (codes "http:" ++ url) ≡ some (url_hrn (codes "http:" ++ url))
unfolding from_string is_empty str_eq url_hrn
from_string-url ndebug url =
    let u = tokenizer-Unread colon (codes "http" ++ colon ∷ url) refl in
    let (t1, step, u1) =
      next-Unread colon (tokenizer (codes "http" ++ colon ∷ url) colon) (codes "http") url u
        (omega arith) in
    rw (has_next-Unread u, step)

-- The HRNs of any two http URLs are equal by operator==, whatever the URLs are, in a build with
-- assertions and in one without.
pub hrn_eq-url :
    (ndebug : Bool) (x y : Text)
    → (from_string ndebug (codes "http:" ++ x) >>= λ a.
        from_string ndebug (codes "http:" ++ y) >>= λ b. some (hrn_eq a b))
      ≡ some true
unfolding hrn_eq url_hrn str_eq
hrn_eq-url ndebug x y = rw (from_string-url ndebug x, from_string-url ndebug y)
