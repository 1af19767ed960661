-- ===== src/Ports/Vocabulary.antt =====
-- The closed vocabularies of protocol/ports.py: each `StrEnum` as an enumeration, with the wire
-- value of each member, by which Python compares them.
use Prim.Native.String.{String}
use defined_quant_components.Common.{
  Bool, true, false, ◌||◌, Option, none, some, List, [], ◌∷◌, ◌≡◌, refl, map, if◌then◌else◌,
}
use text.Mathlib.Text.{◌==◌ as str_eq}

-- `PortDirection`
pub data PortDirection : Type 0 where
  input output : PortDirection

unfoldable pub direction_value : PortDirection → String
direction_value PortDirection.input = "input"
direction_value PortDirection.output = "output"

-- `PortConcept`
pub data PortConcept : Type 0 where
  price_series price_adjustment_kind periodic_return_series return_convention annualization_factor
        periodic_volatility annualized_volatility rebased_price_index_series drawdown_series
        maximum_drawdown :
      PortConcept

unfoldable pub concept_value : PortConcept → String
concept_value PortConcept.price_series = "price_series"
concept_value PortConcept.price_adjustment_kind = "price_adjustment_kind"
concept_value PortConcept.periodic_return_series = "periodic_return_series"
concept_value PortConcept.return_convention = "return_convention"
concept_value PortConcept.annualization_factor = "annualization_factor"
concept_value PortConcept.periodic_volatility = "periodic_volatility"
concept_value PortConcept.annualized_volatility = "annualized_volatility"
concept_value PortConcept.rebased_price_index_series = "rebased_price_index_series"
concept_value PortConcept.drawdown_series = "drawdown_series"
concept_value PortConcept.maximum_drawdown = "maximum_drawdown"

-- `PortUnit`
pub data PortUnit : Type 0 where
  price decimal unitless volatility : PortUnit

unfoldable pub unit_value : PortUnit → String
unit_value PortUnit.price = "price"
unit_value PortUnit.decimal = "decimal"
unit_value PortUnit.unitless = "unitless"
unit_value PortUnit.volatility = "volatility"

-- `PortShape`
pub data PortShape : Type 0 where
  scalar ordered_series : PortShape

unfoldable pub shape_value : PortShape → String
shape_value PortShape.scalar = "scalar"
shape_value PortShape.ordered_series = "ordered_series"

-- `PortCardinality`
pub data PortCardinality : Type 0 where
  exactly_one one_or_more : PortCardinality

unfoldable pub cardinality_value : PortCardinality → String
cardinality_value PortCardinality.exactly_one = "exactly_one"
cardinality_value PortCardinality.one_or_more = "one_or_more"

-- `PortConvention`
pub data PortConvention : Type 0 where
  ordered_positive_prices adjusted_or_unadjusted_price_kind simple_periodic_return
        log_periodic_return explicit_periods_per_year_factor sample_standard_deviation_n_minus_1
        sample_standard_deviation_n_minus_1_square_root_annualization
        explicit_base_observation_rebasing running_peak_drawdown
        rolling_sample_standard_deviation_n_minus_1
        rolling_sample_standard_deviation_n_minus_1_square_root_annualization :
      PortConvention

unfoldable pub convention_value : PortConvention → String
convention_value PortConvention.ordered_positive_prices = "ordered_positive_prices"
convention_value PortConvention.adjusted_or_unadjusted_price_kind =
    "adjusted_or_unadjusted_price_kind"
convention_value PortConvention.simple_periodic_return = "simple_periodic_return"
convention_value PortConvention.log_periodic_return = "log_periodic_return"
convention_value PortConvention.explicit_periods_per_year_factor =
    "explicit_periods_per_year_factor"
convention_value PortConvention.sample_standard_deviation_n_minus_1 =
    "sample_standard_deviation_n_minus_1"
convention_value PortConvention.sample_standard_deviation_n_minus_1_square_root_annualization =
    "sample_standard_deviation_n_minus_1_square_root_annualization"
convention_value PortConvention.explicit_base_observation_rebasing =
    "explicit_base_observation_rebasing"
convention_value PortConvention.running_peak_drawdown = "running_peak_drawdown"
convention_value PortConvention.rolling_sample_standard_deviation_n_minus_1 =
    "rolling_sample_standard_deviation_n_minus_1"
convention_value
      PortConvention.rolling_sample_standard_deviation_n_minus_1_square_root_annualization =
    "rolling_sample_standard_deviation_n_minus_1_square_root_annualization"

-- `PortOrdering`
pub data PortOrdering : Type 0 where
  not_applicable preserve_source_order : PortOrdering

unfoldable pub ordering_value : PortOrdering → String
ordering_value PortOrdering.not_applicable = "not_applicable"
ordering_value PortOrdering.preserve_source_order = "preserve_source_order"

-- `PortFrequency`
pub data PortFrequency : Type 0 where
  not_applicable inherited monthly annual : PortFrequency

unfoldable pub frequency_value : PortFrequency → String
frequency_value PortFrequency.not_applicable = "not_applicable"
frequency_value PortFrequency.inherited = "inherited"
frequency_value PortFrequency.monthly = "monthly"
frequency_value PortFrequency.annual = "annual"

-- `PortProvenanceRequirement`
pub data PortProvenanceRequirement : Type 0 where
  not_required source_bound component_bound source_or_component_bound : PortProvenanceRequirement

unfoldable pub provenance_value : PortProvenanceRequirement → String
provenance_value PortProvenanceRequirement.not_required = "not_required"
provenance_value PortProvenanceRequirement.source_bound = "source_bound"
provenance_value PortProvenanceRequirement.component_bound = "component_bound"
provenance_value PortProvenanceRequirement.source_or_component_bound = "source_or_component_bound"

-- `PortDimension`
pub data PortDimension : Type 0 where
  concept unit shape cardinality convention ordering frequency provenance_requirement :
      PortDimension

unfoldable pub dimension_value : PortDimension → String
dimension_value PortDimension.concept = "concept"
dimension_value PortDimension.unit = "unit"
dimension_value PortDimension.shape = "shape"
dimension_value PortDimension.cardinality = "cardinality"
dimension_value PortDimension.convention = "convention"
dimension_value PortDimension.ordering = "ordering"
dimension_value PortDimension.frequency = "frequency"
dimension_value PortDimension.provenance_requirement = "provenance_requirement"

-- `PortValue`
pub data PortValue : Type 0 where
  concept : PortConcept → PortValue
  unit : PortUnit → PortValue
  shape : PortShape → PortValue
  cardinality : PortCardinality → PortValue
  convention : PortConvention → PortValue
  ordering : PortOrdering → PortValue
  frequency : PortFrequency → PortValue
  provenance_requirement : PortProvenanceRequirement → PortValue

-- `value.value`
unfoldable pub wire : PortValue → String
unfolding concept_value unit_value shape_value cardinality_value convention_value ordering_value
    frequency_value provenance_value
wire (PortValue.concept x) = concept_value x
wire (PortValue.unit x) = unit_value x
wire (PortValue.shape x) = shape_value x
wire (PortValue.cardinality x) = cardinality_value x
wire (PortValue.convention x) = convention_value x
wire (PortValue.ordering x) = ordering_value x
wire (PortValue.frequency x) = frequency_value x
wire (PortValue.provenance_requirement x) = provenance_value x

-- The members of each dimension's enumeration, `_VALUE_TYPE_BY_DIMENSION`.
unfoldable pub members : PortDimension → List PortValue
members PortDimension.concept =
    PortValue.concept PortConcept.price_series
    ∷ PortValue.concept PortConcept.price_adjustment_kind
    ∷ PortValue.concept PortConcept.periodic_return_series
    ∷ PortValue.concept PortConcept.return_convention
    ∷ PortValue.concept PortConcept.annualization_factor
    ∷ PortValue.concept PortConcept.periodic_volatility
    ∷ PortValue.concept PortConcept.annualized_volatility
    ∷ PortValue.concept PortConcept.rebased_price_index_series
    ∷ PortValue.concept PortConcept.drawdown_series
    ∷ PortValue.concept PortConcept.maximum_drawdown
    ∷ []
members PortDimension.unit =
    PortValue.unit PortUnit.price
    ∷ PortValue.unit PortUnit.decimal
    ∷ PortValue.unit PortUnit.unitless
    ∷ PortValue.unit PortUnit.volatility
    ∷ []
members PortDimension.shape =
    PortValue.shape PortShape.scalar ∷ PortValue.shape PortShape.ordered_series ∷ []
members PortDimension.cardinality =
    PortValue.cardinality PortCardinality.exactly_one
    ∷ PortValue.cardinality PortCardinality.one_or_more
    ∷ []
members PortDimension.convention =
    PortValue.convention PortConvention.ordered_positive_prices
    ∷ PortValue.convention PortConvention.adjusted_or_unadjusted_price_kind
    ∷ PortValue.convention PortConvention.simple_periodic_return
    ∷ PortValue.convention PortConvention.log_periodic_return
    ∷ PortValue.convention PortConvention.explicit_periods_per_year_factor
    ∷ PortValue.convention PortConvention.sample_standard_deviation_n_minus_1
    ∷ PortValue.convention
        PortConvention.sample_standard_deviation_n_minus_1_square_root_annualization
    ∷ PortValue.convention PortConvention.explicit_base_observation_rebasing
    ∷ PortValue.convention PortConvention.running_peak_drawdown
    ∷ PortValue.convention PortConvention.rolling_sample_standard_deviation_n_minus_1
    ∷ PortValue.convention
        PortConvention.rolling_sample_standard_deviation_n_minus_1_square_root_annualization
    ∷ []
members PortDimension.ordering =
    PortValue.ordering PortOrdering.not_applicable
    ∷ PortValue.ordering PortOrdering.preserve_source_order
    ∷ []
members PortDimension.frequency =
    PortValue.frequency PortFrequency.not_applicable
    ∷ PortValue.frequency PortFrequency.inherited
    ∷ PortValue.frequency PortFrequency.monthly
    ∷ PortValue.frequency PortFrequency.annual
    ∷ []
members PortDimension.provenance_requirement =
    PortValue.provenance_requirement PortProvenanceRequirement.not_required
    ∷ PortValue.provenance_requirement PortProvenanceRequirement.source_bound
    ∷ PortValue.provenance_requirement PortProvenanceRequirement.component_bound
    ∷ PortValue.provenance_requirement PortProvenanceRequirement.source_or_component_bound
    ∷ []

-- `_VALUES_BY_DIMENSION`
unfoldable pub values_by_dimension : PortDimension → List String
unfolding members wire
values_by_dimension d = map wire (members d)

-- `value_type(text)`: the member with that wire value; `none` is the ValueError.
unfoldable pub find_value : List PortValue → String → Option PortValue
unfolding wire
find_value [] s = none
find_value (v ∷ vs) s = if str_eq (wire v) s then some v else find_value vs s

unfoldable pub contains : List String → String → Bool
contains [] s = false
contains (x ∷ xs) s = str_eq x s || contains xs s

-- The dimension whose enumeration a value belongs to.
unfoldable pub dimension_of : PortValue → PortDimension
dimension_of (PortValue.concept x) = PortDimension.concept
dimension_of (PortValue.unit x) = PortDimension.unit
dimension_of (PortValue.shape x) = PortDimension.shape
dimension_of (PortValue.cardinality x) = PortDimension.cardinality
dimension_of (PortValue.convention x) = PortDimension.convention
dimension_of (PortValue.ordering x) = PortDimension.ordering
dimension_of (PortValue.frequency x) = PortDimension.frequency
dimension_of (PortValue.provenance_requirement x) = PortDimension.provenance_requirement

-- A value of a dimension's enumeration is one of the dimension's wire values.
pub contains-wire :
    (v : PortValue) → contains (values_by_dimension (dimension_of v)) (wire v) ≡ true
unfolding contains values_by_dimension dimension_of wire
contains-wire (PortValue.concept PortConcept.price_series) = refl
contains-wire (PortValue.concept PortConcept.price_adjustment_kind) = refl
contains-wire (PortValue.concept PortConcept.periodic_return_series) = refl
contains-wire (PortValue.concept PortConcept.return_convention) = refl
contains-wire (PortValue.concept PortConcept.annualization_factor) = refl
contains-wire (PortValue.concept PortConcept.periodic_volatility) = refl
contains-wire (PortValue.concept PortConcept.annualized_volatility) = refl
contains-wire (PortValue.concept PortConcept.rebased_price_index_series) = refl
contains-wire (PortValue.concept PortConcept.drawdown_series) = refl
contains-wire (PortValue.concept PortConcept.maximum_drawdown) = refl
contains-wire (PortValue.unit PortUnit.price) = refl
contains-wire (PortValue.unit PortUnit.decimal) = refl
contains-wire (PortValue.unit PortUnit.unitless) = refl
contains-wire (PortValue.unit PortUnit.volatility) = refl
contains-wire (PortValue.shape PortShape.scalar) = refl
contains-wire (PortValue.shape PortShape.ordered_series) = refl
contains-wire (PortValue.cardinality PortCardinality.exactly_one) = refl
contains-wire (PortValue.cardinality PortCardinality.one_or_more) = refl
contains-wire (PortValue.convention PortConvention.ordered_positive_prices) = refl
contains-wire (PortValue.convention PortConvention.adjusted_or_unadjusted_price_kind) = refl
contains-wire (PortValue.convention PortConvention.simple_periodic_return) = refl
contains-wire (PortValue.convention PortConvention.log_periodic_return) = refl
contains-wire (PortValue.convention PortConvention.explicit_periods_per_year_factor) = refl
contains-wire (PortValue.convention PortConvention.sample_standard_deviation_n_minus_1) = refl
contains-wire
      (PortValue.convention
        PortConvention.sample_standard_deviation_n_minus_1_square_root_annualization) =
    refl
contains-wire (PortValue.convention PortConvention.explicit_base_observation_rebasing) = refl
contains-wire (PortValue.convention PortConvention.running_peak_drawdown) = refl
contains-wire (PortValue.convention PortConvention.rolling_sample_standard_deviation_n_minus_1) =
    refl
contains-wire
      (PortValue.convention
        PortConvention.rolling_sample_standard_deviation_n_minus_1_square_root_annualization) =
    refl
contains-wire (PortValue.ordering PortOrdering.not_applicable) = refl
contains-wire (PortValue.ordering PortOrdering.preserve_source_order) = refl
contains-wire (PortValue.frequency PortFrequency.not_applicable) = refl
contains-wire (PortValue.frequency PortFrequency.inherited) = refl
contains-wire (PortValue.frequency PortFrequency.monthly) = refl
contains-wire (PortValue.frequency PortFrequency.annual) = refl
contains-wire (PortValue.provenance_requirement PortProvenanceRequirement.not_required) = refl
contains-wire (PortValue.provenance_requirement PortProvenanceRequirement.source_bound) = refl
contains-wire (PortValue.provenance_requirement PortProvenanceRequirement.component_bound) = refl
contains-wire
      (PortValue.provenance_requirement PortProvenanceRequirement.source_or_component_bound) =
    refl

-- A wire value names one member of its dimension.
pub find_value-wire : (v : PortValue) → find_value (members (dimension_of v)) (wire v) ≡ some v
unfolding find_value members dimension_of
find_value-wire (PortValue.concept PortConcept.price_series) = refl
find_value-wire (PortValue.concept PortConcept.price_adjustment_kind) = refl
find_value-wire (PortValue.concept PortConcept.periodic_return_series) = refl
find_value-wire (PortValue.concept PortConcept.return_convention) = refl
find_value-wire (PortValue.concept PortConcept.annualization_factor) = refl
find_value-wire (PortValue.concept PortConcept.periodic_volatility) = refl
find_value-wire (PortValue.concept PortConcept.annualized_volatility) = refl
find_value-wire (PortValue.concept PortConcept.rebased_price_index_series) = refl
find_value-wire (PortValue.concept PortConcept.drawdown_series) = refl
find_value-wire (PortValue.concept PortConcept.maximum_drawdown) = refl
find_value-wire (PortValue.unit PortUnit.price) = refl
find_value-wire (PortValue.unit PortUnit.decimal) = refl
find_value-wire (PortValue.unit PortUnit.unitless) = refl
find_value-wire (PortValue.unit PortUnit.volatility) = refl
find_value-wire (PortValue.shape PortShape.scalar) = refl
find_value-wire (PortValue.shape PortShape.ordered_series) = refl
find_value-wire (PortValue.cardinality PortCardinality.exactly_one) = refl
find_value-wire (PortValue.cardinality PortCardinality.one_or_more) = refl
find_value-wire (PortValue.convention PortConvention.ordered_positive_prices) = refl
find_value-wire (PortValue.convention PortConvention.adjusted_or_unadjusted_price_kind) = refl
find_value-wire (PortValue.convention PortConvention.simple_periodic_return) = refl
find_value-wire (PortValue.convention PortConvention.log_periodic_return) = refl
find_value-wire (PortValue.convention PortConvention.explicit_periods_per_year_factor) = refl
find_value-wire (PortValue.convention PortConvention.sample_standard_deviation_n_minus_1) = refl
find_value-wire
      (PortValue.convention
        PortConvention.sample_standard_deviation_n_minus_1_square_root_annualization) =
    refl
find_value-wire (PortValue.convention PortConvention.explicit_base_observation_rebasing) = refl
find_value-wire (PortValue.convention PortConvention.running_peak_drawdown) = refl
find_value-wire (PortValue.convention PortConvention.rolling_sample_standard_deviation_n_minus_1) =
    refl
find_value-wire
      (PortValue.convention
        PortConvention.rolling_sample_standard_deviation_n_minus_1_square_root_annualization) =
    refl
find_value-wire (PortValue.ordering PortOrdering.not_applicable) = refl
find_value-wire (PortValue.ordering PortOrdering.preserve_source_order) = refl
find_value-wire (PortValue.frequency PortFrequency.not_applicable) = refl
find_value-wire (PortValue.frequency PortFrequency.inherited) = refl
find_value-wire (PortValue.frequency PortFrequency.monthly) = refl
find_value-wire (PortValue.frequency PortFrequency.annual) = refl
find_value-wire (PortValue.provenance_requirement PortProvenanceRequirement.not_required) = refl
find_value-wire (PortValue.provenance_requirement PortProvenanceRequirement.source_bound) = refl
find_value-wire (PortValue.provenance_requirement PortProvenanceRequirement.component_bound) = refl
find_value-wire
      (PortValue.provenance_requirement PortProvenanceRequirement.source_or_component_bound) =
    refl
