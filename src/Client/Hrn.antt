-- ===== src/Client/Hrn.antt =====
-- The class HRN of olp-cpp-sdk-core/include/olp/core/client/HRN.h and src/client/HRN.cpp: the name of
-- a HERE resource, its text and the reading of the text. `ndebug` is whether the build defines NDEBUG,
-- which compiles `assert` out; `none` is a failed assertion or an exception of `substr`.
pub mod RoundTrip
pub mod Equality
pub mod Total
pub mod Tests
use here_olp_edge_sdk_cpp.Prelude.{
  ℕ, Bool, true, false, not, ◌&&◌, ◌||◌, Option, none, some, ◌>>=◌, [], ◌∷◌, ◌++◌, if◌then◌else◌,
}
use here_olp_edge_sdk_cpp.Prelude.Text.{Text, codes, is_empty, str_eq}
use here_olp_edge_sdk_cpp.Client.Tokenizer.{Tokenizer, tokenizer, has_next, next, next_if, tail_if}

pub data ServiceType : Type 0 where
  unknown : ServiceType
  data_service : ServiceType
  schema : ServiceType
  pipeline : ServiceType

pub record Hrn : Type 0 where
  pub partition : Text
  pub service : ServiceType
  pub region : Text
  pub account : Text
  pub catalog_id : Text
  pub layer_id : Text
  pub group_id : Text
  pub schema_name : Text
  pub version : Text
  pub pipeline_id : Text

-- The default constructor.
abbrev pub null_hrn : Hrn
null_hrn = record {
  partition = [];
  service = ServiceType.unknown;
  region = [];
  account = [];
  catalog_id = [];
  layer_id = [];
  group_id = [];
  schema_name = [];
  version = [];
  pipeline_id = [];
}

abbrev pub colon : ℕ
colon = b':'

abbrev pub generic_part : Hrn → Text
generic_part h = colon ∷ (h.region ++ colon ∷ (h.account ++ colon ∷ []))

-- The `switch` of ToString()
abbrev pub specific_part : ServiceType → Hrn → Text
specific_part ServiceType.data_service h =
    codes "data"
    ++ (generic_part h
        ++ (h.catalog_id ++ (if is_empty h.layer_id then [] else colon ∷ h.layer_id)))
specific_part ServiceType.schema h =
    codes "schema"
    ++ (generic_part h ++ (h.group_id ++ colon ∷ (h.schema_name ++ colon ∷ h.version)))
specific_part ServiceType.pipeline h = codes "pipeline" ++ (generic_part h ++ h.pipeline_id)
specific_part ServiceType.unknown h = generic_part h

unfoldable pub to_string : Hrn → Text
to_string h = codes "hrn:" ++ (h.partition ++ colon ∷ specific_part h.service h)

abbrev pub catalog_part : ServiceType → Hrn → Text
catalog_part ServiceType.data_service h =
    codes "hrn:"
    ++ (h.partition
        ++ (codes ":data:" ++ (h.region ++ colon ∷ (h.account ++ colon ∷ h.catalog_id))))
catalog_part ServiceType.schema h = []
catalog_part ServiceType.pipeline h = []
catalog_part ServiceType.unknown h = []

unfoldable pub to_catalog_hrn_string : Hrn → Text
to_catalog_hrn_string h = catalog_part h.service h

-- `assert(false)`, and the statement behind it.
abbrev pub unknown_service : Bool → Option ServiceType
unknown_service true = some ServiceType.unknown
unknown_service false = none

abbrev pub service_of : Bool → Text → Option ServiceType
service_of ndebug service_str =
    if str_eq service_str (codes "data")
    then some ServiceType.data_service
    else if str_eq service_str (codes "schema")
    then some ServiceType.schema
    else if str_eq service_str (codes "pipeline")
    then some ServiceType.pipeline
    else unknown_service ndebug

-- The `switch` at the end of the constructor.
abbrev pub read_specific : ServiceType → Tokenizer → Hrn → Option Hrn
read_specific ServiceType.data_service t h = do
  (catalog_id, t1) ← next_if t h.catalog_id
  (layer_id, _) ← tail_if t1 h.layer_id
  some (record h { catalog_id = catalog_id; layer_id = layer_id })
read_specific ServiceType.schema t h = do
  (group_id, t1) ← next_if t h.group_id
  (schema_name, t2) ← next_if t1 h.schema_name
  (version, _) ← tail_if t2 h.version
  some (record h { group_id = group_id; schema_name = schema_name; version = version })
read_specific ServiceType.pipeline t h = do
  (pipeline_id, _) ← tail_if t h.pipeline_id
  some (record h { pipeline_id = pipeline_id })
read_specific ServiceType.unknown t h = some h

-- `if (tokenizer.hasNext()) { auto serviceStr = ... }`
unfoldable pub read_service : Bool → Tokenizer → Option (ServiceType × Tokenizer)
read_service ndebug t =
    let taken = next t >>= λ r. service_of ndebug r.0 >>= λ service. some (service, r.1) in
    if has_next t then taken else some (ServiceType.unknown, t)

-- What follows "hrn:"
unfoldable pub read_fields : Bool → Tokenizer → Option Hrn
read_fields ndebug t = do
  (partition, t1) ← next_if t []
  (service, t2) ← read_service ndebug t1
  (region, t3) ← next_if t2 []
  (account, t4) ← next_if t3 []
  let h = record null_hrn {
    partition = partition;
    service = service;
    region = region;
    account = account;
  }
  read_specific service t4 h

abbrev pub read_protocol : Bool → Text → Text → Tokenizer → Option Hrn
read_protocol ndebug input protocol t =
    if str_eq protocol (codes "http") || str_eq protocol (codes "https")
    then some (record null_hrn { catalog_id = input; partition = codes "catalog-url" })
    else if not (str_eq protocol (codes "hrn"))
    then some null_hrn
    else read_fields ndebug t

-- HRN(input), FromString() and UniqueFromString()
unfoldable pub from_string : Bool → Text → Option Hrn
from_string ndebug input =
    let t = tokenizer input colon in
    let read = next t >>= λ r. read_protocol ndebug input r.0 r.1 in
    if has_next t then read else some null_hrn

abbrev pub service_eq : ServiceType → ServiceType → Bool
service_eq ServiceType.unknown ServiceType.unknown = true
service_eq ServiceType.data_service ServiceType.data_service = true
service_eq ServiceType.schema ServiceType.schema = true
service_eq ServiceType.pipeline ServiceType.pipeline = true
service_eq s t = false

abbrev pub specific_eq : ServiceType → Hrn → Hrn → Bool
specific_eq ServiceType.data_service h other =
    str_eq h.catalog_id other.catalog_id && str_eq h.layer_id other.layer_id
specific_eq ServiceType.schema h other =
    str_eq h.group_id other.group_id
    && (str_eq h.schema_name other.schema_name && str_eq h.version other.version)
specific_eq ServiceType.pipeline h other = str_eq h.pipeline_id other.pipeline_id
specific_eq ServiceType.unknown h other = true

-- operator==
unfoldable pub hrn_eq : Hrn → Hrn → Bool
hrn_eq h other =
    if str_eq h.partition other.partition
      && (service_eq h.service other.service
          && (str_eq h.region other.region && str_eq h.account other.account))
    then specific_eq h.service h other
    else false

abbrev pub specific_null : ServiceType → Hrn → Bool
specific_null ServiceType.data_service h = is_empty h.catalog_id && is_empty h.layer_id
specific_null ServiceType.schema h =
    is_empty h.group_id && (is_empty h.schema_name && is_empty h.version)
specific_null ServiceType.pipeline h = is_empty h.pipeline_id
specific_null ServiceType.unknown h = true

unfoldable pub is_null : Hrn → Bool
is_null h =
    if is_empty h.partition && (is_empty h.region && is_empty h.account)
    then specific_null h.service h
    else false
