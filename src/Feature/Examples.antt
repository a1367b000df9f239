-- ===== src/Feature/Examples.antt =====
-- A negotiation that enables one optional feature and omits another.
use kiteframe.Base.{[], ◌∷◌, ok, refl, ◌≡◌, Char-discrete, Chars-discrete, ℕ_discrete}
use kiteframe.Feature.{
  FeatureSet, FeatureNegotiation, negotiate_features, compatible, difference_compatible,
  intersection_compatible, feature_name, feature_major, rsplit_at, digits_value,
}
use kiteframe.Feature.Negotiated.{IsNegotiated, negotiate_features-IsNegotiated}

abbrev required : FeatureSet
required = "audit@1" ∷ []

abbrev optional : FeatureSet
optional = "memory@2" ∷ "stream@1" ∷ []

abbrev supported : FeatureSet
supported = "audit@1" ∷ "memory@1" ∷ "stream@1" ∷ []

abbrev outcome : FeatureNegotiation
outcome = record { enabled_optional = "stream@1" ∷ []; omitted_optional = "memory@2" ∷ [] }

negotiation_test : negotiate_features required optional supported ≡ ok outcome
unfolding negotiate_features compatible difference_compatible intersection_compatible feature_name
    feature_major rsplit_at digits_value Char-discrete Chars-discrete ℕ_discrete
negotiation_test = refl

negotiate_features-IsNegotiated_example :
    IsNegotiated required optional supported (negotiate_features required optional supported)
negotiate_features-IsNegotiated_example =
    negotiate_features-IsNegotiated required optional supported
