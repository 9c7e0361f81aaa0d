-- ===== src/Client/Hrn/Tests.antt =====
-- HRN on concrete texts.
use here_olp_edge_sdk_cpp.Prelude.{
  true, false, inl, none, some, ◌⊎◌, ◌≢◌, ◌>>=◌, ◌++◌, ◌≡◌, ◌↔◌, refl, arith,
}
use here_olp_edge_sdk_cpp.Prelude.Text.{codes, str_eq, is_empty, substr, substr_count, index_of}
use here_olp_edge_sdk_cpp.Client.Tokenizer.{
  tokenizer, has_next, find_first_of, next_until, next, tail, next_if, tail_if,
}
use here_olp_edge_sdk_cpp.Client.Hrn.{
  Hrn, ServiceType, null_hrn, to_string, to_catalog_hrn_string, read_service, read_fields,
  from_string, hrn_eq,
}
use here_olp_edge_sdk_cpp.Client.Hrn.RoundTrip.{IsCanonical, from_string-to_string}
use here_olp_edge_sdk_cpp.Client.Hrn.Equality.{hrn_eq_iff, hrn_eq-url}
use here_olp_edge_sdk_cpp.Client.Hrn.Total.{from_string_total}

abbrev traffic : Hrn
traffic = record null_hrn {
  partition = codes "here";
  service = ServiceType.data_service;
  account = codes "olp";
  catalog_id = codes "cat";
  layer_id = codes "a:b";
}

traffic-IsCanonical : IsCanonical traffic
traffic-IsCanonical = record {
  partition = omega arith;
  region = tt;
  account = omega arith;
  specific = (omega arith, refl, refl, refl, refl);
}

traffic_known : traffic.service ≢ ServiceType.unknown
traffic_known e = cc

text_of_traffic : to_string traffic ≡ codes "hrn:here:data::olp:cat:a:b"
unfolding to_string is_empty
text_of_traffic = refl

catalog_of_traffic : to_catalog_hrn_string traffic ≡ codes "hrn:here:data::olp:cat"
unfolding to_catalog_hrn_string
catalog_of_traffic = refl

schema_read :
    from_string false (codes "hrn:p:schema:r:a:g:n:1:2")
    ≡ some (record null_hrn {
      partition = codes "p";
      service = ServiceType.schema;
      region = codes "r";
      account = codes "a";
      group_id = codes "g";
      schema_name = codes "n";
      version = codes "1:2";
    })
unfolding from_string tokenizer has_next find_first_of next_until next tail next_if tail_if str_eq
    is_empty substr substr_count index_of read_service read_fields
schema_read = refl

-- A service of another name: an assertion of a build that has them.
other_service : from_string false (codes "hrn:p:map:r:a") ≡ none
unfolding from_string tokenizer has_next find_first_of next_until next tail next_if tail_if str_eq
    is_empty substr substr_count index_of read_service read_fields
other_service = refl

from_string-to_string_example : from_string false (to_string traffic) ≡ some traffic
from_string-to_string_example =
    from_string-to_string false traffic traffic-IsCanonical (inl traffic_known)

hrn_eq_iff_example : (hrn_eq traffic traffic ≡ true) ↔ (traffic ≡ traffic)
hrn_eq_iff_example = hrn_eq_iff traffic traffic traffic-IsCanonical traffic-IsCanonical

hrn_eq-url_example :
    (from_string false (codes "http:" ++ codes "//a") >>= λ a.
    from_string false (codes "http:" ++ codes "//b") >>= λ b. some (hrn_eq a b))
    ≡ some true
hrn_eq-url_example = hrn_eq-url false (codes "//a") (codes "//b")

from_string_total_example :
    (h : Hrn) × (from_string true (codes "hrn:x:y") ≡ some h)
    × ((from_string false (codes "hrn:x:y") ≡ some h)
        ⊎ ((from_string false (codes "hrn:x:y") ≡ none) × (h.service ≡ ServiceType.unknown)))
from_string_total_example = from_string_total (codes "hrn:x:y")
