-- ===== src/Client/Hrn/RoundTrip.antt =====
-- Reading back the text of an HRN.
use here_olp_edge_sdk_cpp.Prelude.{
  Bool, false, ◌⊎◌, ◌≢◌, true, inl, inr, some, [], ◌∷◌, ◌++◌, if◌then◌else◌, ◌≡◌, refl, ap, ◌∙◌,
  arith, Bool-cases,
}
use here_olp_edge_sdk_cpp.Prelude.Text.{Text, Lacks, codes, is_empty, str_eq}
use here_olp_edge_sdk_cpp.Client.Tokenizer.{Tokenizer, tokenizer}
use here_olp_edge_sdk_cpp.Client.Tokenizer.Unread.{
  Unread, tokenizer-Unread, has_next-Unread, next-Unread, next_if-Unread, next_if_last,
  tail_if-Unread, tail_if_ended,
}
use here_olp_edge_sdk_cpp.Client.Hrn.{
  Hrn, ServiceType, null_hrn, colon, specific_part, to_string, service_of, read_specific,
  read_service, read_fields, from_string,
}
use mathlib.Core.List.{append_assoc, append-nil}
use mathlib.Core.Path.{subst}

-- The fields that the service does not use are empty, and the separator stands in the last one only.
abbrev pub Fits : ServiceType → Hrn → Type 0
Fits ServiceType.data_service h =
    Lacks colon h.catalog_id
    × (h.group_id ≡ [])
    × (h.schema_name ≡ [])
    × (h.version ≡ [])
    × (h.pipeline_id ≡ [])
Fits ServiceType.schema h =
    Lacks colon h.group_id
    × Lacks colon h.schema_name
    × (h.catalog_id ≡ [])
    × (h.layer_id ≡ [])
    × (h.pipeline_id ≡ [])
Fits ServiceType.pipeline h =
    (h.catalog_id ≡ [])
    × (h.layer_id ≡ [])
    × (h.group_id ≡ [])
    × (h.schema_name ≡ [])
    × (h.version ≡ [])
Fits ServiceType.unknown h =
    (h.catalog_id ≡ [])
    × (h.layer_id ≡ [])
    × (h.group_id ≡ [])
    × (h.schema_name ≡ [])
    × (h.version ≡ [])
    × (h.pipeline_id ≡ [])

pub record IsCanonical (h : Hrn) : Type 0 where
  pub partition : Lacks colon h.partition
  pub region : Lacks colon h.region
  pub account : Lacks colon h.account
  pub specific : Fits h.service h

abbrev name_of : ServiceType → Text
name_of ServiceType.data_service = codes "data"
name_of ServiceType.schema = codes "schema"
name_of ServiceType.pipeline = codes "pipeline"
name_of ServiceType.unknown = []

name_of-Lacks : (s : ServiceType) → Lacks colon (name_of s)
name_of-Lacks ServiceType.data_service = omega arith
name_of-Lacks ServiceType.schema = omega arith
name_of-Lacks ServiceType.pipeline = omega arith
name_of-Lacks ServiceType.unknown = tt

-- No assertion fails: the service is a known one, or assertions are compiled out.
abbrev pub Passes : Bool → ServiceType → Type 0
Passes ndebug s = (s ≢ ServiceType.unknown) ⊎ (ndebug ≡ true)

service_of-name_of :
    (ndebug : Bool) (s : ServiceType) → Passes ndebug s → service_of ndebug (name_of s) ≡ some s
unfolding str_eq
service_of-name_of ndebug ServiceType.data_service passes = refl
service_of-name_of ndebug ServiceType.schema passes = refl
service_of-name_of ndebug ServiceType.pipeline passes = refl
service_of-name_of true ServiceType.unknown passes = refl
service_of-name_of false ServiceType.unknown (inl known) = absurd (known refl)
service_of-name_of false ServiceType.unknown (inr h) = cc

-- The text behind the account.
abbrev own_part : ServiceType → Hrn → Text
own_part ServiceType.data_service h =
    h.catalog_id ++ (if is_empty h.layer_id then [] else colon ∷ h.layer_id)
own_part ServiceType.schema h = h.group_id ++ colon ∷ (h.schema_name ++ colon ∷ h.version)
own_part ServiceType.pipeline h = h.pipeline_id
own_part ServiceType.unknown h = []

abbrev fields_part : ServiceType → Hrn → Text
fields_part s h = name_of s ++ colon ∷ (h.region ++ colon ∷ (h.account ++ colon ∷ own_part s h))

specific_part-fields_part : (s : ServiceType) (h : Hrn) → specific_part s h ≡ fields_part s h
specific_part-fields_part ServiceType.data_service h = simp append_assoc
specific_part-fields_part ServiceType.schema h = simp append_assoc
specific_part-fields_part ServiceType.pipeline h = simp append_assoc
specific_part-fields_part ServiceType.unknown h = refl

-- What the constructor has read before the `switch`.
abbrev common : ServiceType → Hrn → Hrn
common s h = record null_hrn {
  partition = h.partition;
  service = s;
  region = h.region;
  account = h.account;
}

is_empty-eq : (s : Text) → is_empty s ≡ true → s ≡ []
unfolding is_empty
is_empty-eq [] h = refl
is_empty-eq (c ∷ s) h = cc

read_data-Fits :
    (h : Hrn) (t : Tokenizer)
    → Fits ServiceType.data_service h
    → Unread colon t (own_part ServiceType.data_service h)
    → read_specific ServiceType.data_service t (common ServiceType.data_service h)
      ≡ some (record h { service = ServiceType.data_service })
read_data-Fits h t (catalog, group, name, ver, pipe) u = elim (Bool-cases (is_empty h.layer_id)) [
  | inl e ↦
      let whole : h.catalog_id ++ (if is_empty h.layer_id then [] else colon ∷ h.layer_id)
          ≡ h.catalog_id =
        rw e (append-nil h.catalog_id) in
      let (t1, step, ended) =
        next_if_last colon t [] h.catalog_id (subst (λ (x : Text). Unread colon t x) whole u)
          catalog in
      rw (step, tail_if_ended t1 [] ended) (ground (arith, is_empty-eq h.layer_id e))
  | inr e ↦
      let whole : h.catalog_id ++ (if is_empty h.layer_id then [] else colon ∷ h.layer_id)
          ≡ h.catalog_id ++ colon ∷ h.layer_id =
        rw e in
      let (t1, step, u1) =
        next_if-Unread colon t [] h.catalog_id h.layer_id
          (subst (λ (x : Text). Unread colon t x) whole u) catalog in
      let (t2, step2, ended) = tail_if-Unread colon t1 [] h.layer_id u1 in
      rw (step, step2) (ground arith)
]

read_specific-Fits :
    (s : ServiceType) (h : Hrn) (t : Tokenizer)
    → Fits s h
    → Unread colon t (own_part s h)
    → read_specific s t (common s h) ≡ some (record h { service = s })
read_specific-Fits ServiceType.data_service h t fit u = read_data-Fits h t fit u
read_specific-Fits ServiceType.schema h t (group, name, cat, layer, pipe) u =
    let (t1, step, u1) =
      next_if-Unread colon t [] h.group_id (h.schema_name ++ colon ∷ h.version) u group in
    let (t2, step2, u2) = next_if-Unread colon t1 [] h.schema_name h.version u1 name in
    let (t3, step3, ended) = tail_if-Unread colon t2 [] h.version u2 in
    rw (step, step2, step3) (ground arith)
read_specific-Fits ServiceType.pipeline h t (cat, layer, group, name, ver) u =
    let (t1, step, ended) = tail_if-Unread colon t [] h.pipeline_id u in rw step (ground arith)
read_specific-Fits ServiceType.unknown h t (cat, layer, group, name, ver, pipe) u = ground arith

read_service-name_of :
    (ndebug : Bool) (s : ServiceType) (t : Tokenizer) (rest : Text)
    → Passes ndebug s
    → Unread colon t (name_of s ++ colon ∷ rest)
    → (t' : Tokenizer) × (read_service ndebug t ≡ some (s, t')) × Unread colon t' rest
unfolding read_service
read_service-name_of ndebug s t rest passes u =
    let (t', step, u') = next-Unread colon t (name_of s) rest u (name_of-Lacks s) in
    (t', rw (has_next-Unread u, step, service_of-name_of ndebug s passes), u')

read_fields-Fits :
    (ndebug : Bool) (s : ServiceType) (h : Hrn) (t : Tokenizer)
    → Passes ndebug s
    → Lacks colon h.partition
    → Lacks colon h.region
    → Lacks colon h.account
    → Fits s h
    → Unread colon t (h.partition ++ colon ∷ fields_part s h)
    → read_fields ndebug t ≡ some (record h { service = s })
unfolding read_fields
read_fields-Fits ndebug s h t passes p r a fit u =
    let (t1, step1, u1) = next_if-Unread colon t [] h.partition (fields_part s h) u p in
    let (t2, step2, u2) =
      read_service-name_of ndebug s t1 (h.region ++ colon ∷ (h.account ++ colon ∷ own_part s h))
        passes u1 in
    let (t3, step3, u3) =
      next_if-Unread colon t2 [] h.region (h.account ++ colon ∷ own_part s h) u2 r in
    let (t4, step4, u4) = next_if-Unread colon t3 [] h.account (own_part s h) u3 a in
    rw (step1, step2, step3, step4) (read_specific-Fits s h t4 fit u4)

-- The text of an HRN is read back as the same HRN, without an exception or a failed
-- assertion, if neither the parts in
-- common nor a part of the service but the last hold a colon, and the fields that the service does
-- not use are empty; and, in a build with assertions, the service is not the unknown one.
pub from_string-to_string :
    (ndebug : Bool) (h : Hrn)
    → IsCanonical h
    → Passes ndebug h.service
    → from_string ndebug (to_string h) ≡ some h
unfolding from_string to_string is_empty str_eq
from_string-to_string ndebug h c passes =
    let rest : Text = h.partition ++ colon ∷ fields_part h.service h in
    let text : to_string h ≡ codes "hrn" ++ colon ∷ rest =
      rw (specific_part-fields_part h.service h) in
    let u : Unread colon (tokenizer (codes "hrn" ++ colon ∷ rest) colon)
        (codes "hrn" ++ colon ∷ rest) =
      tokenizer-Unread colon (codes "hrn" ++ colon ∷ rest) refl in
    let (t1, step, u1) =
      next-Unread colon (tokenizer (codes "hrn" ++ colon ∷ rest) colon) (codes "hrn") rest u
        (omega arith) in
    ap (from_string ndebug) text
    ∙ rw (has_next-Unread u, step)
        (read_fields-Fits ndebug h.service h t1 passes c.partition c.region c.account c.specific u1)
