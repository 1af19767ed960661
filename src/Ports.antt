-- ===== src/Ports.antt =====
-- protocol/ports.py: the semantic contract of a component's field, and when an output may feed an
-- input. The extraction of a contract from a model's field is not modelled.
mod Tests
pub mod Vocabulary
pub mod Compare
pub mod Satisfies
use defined_quant_components.Common.{
  Bool, true, false, ◌&&◌, ◌||◌, not, List, [], ◌∷◌, Result, ok, err, ◌>>=◌, ◌>>◌, raise_if,
  if◌then◌else◌, none, some, Option,
}
use text.Mathlib.Text.{◌==◌ as str_eq}
use Vocabulary.{
  PortDirection, PortConcept, PortUnit, PortShape, PortCardinality, PortConvention, PortOrdering,
  PortFrequency, PortProvenanceRequirement, PortDimension, PortValue, wire, members,
  values_by_dimension, contains, find_value, direction_value, shape_value, cardinality_value,
  provenance_value, dimension_value,
}

-- The ValueErrors of the models, by their message.
pub data PortError : Type 0 where
  wrong_cardinality producer_foreign consumer_foreign values_equal : PortError
  producer_not_output consumer_not_input result_mismatch : PortError

pub record SemanticPort : Type 0 where
  pub direction : PortDirection
  pub concept : PortConcept
  pub unit : PortUnit
  pub shape : PortShape
  pub cardinality : PortCardinality
  pub convention : PortConvention
  pub ordering : PortOrdering
  pub frequency : PortFrequency
  pub provenance_requirement : PortProvenanceRequirement

abbrev expected_cardinality : PortShape → PortCardinality
expected_cardinality PortShape.scalar = PortCardinality.exactly_one
expected_cardinality PortShape.ordered_series = PortCardinality.one_or_more

-- `SemanticPort.validate_shape_cardinality`
unfoldable pub validate_shape_cardinality : SemanticPort → Result PortError SemanticPort
unfolding cardinality_value
validate_shape_cardinality p =
    if str_eq (cardinality_value p.cardinality) (cardinality_value (expected_cardinality p.shape))
    then ok p
    else err wrong_cardinality

pub record PortDifference : Type 0 where
  pub dimension : PortDimension
  pub producer_value : PortValue
  pub consumer_value : PortValue

-- `PortDifference.coerce_values_to_dimension_type`, of one of the values
unfoldable pub coerce_value : PortDimension → PortValue → PortValue
unfolding find_value members
coerce_value d v = elim (find_value (members d) (wire v)) [ some u ↦ u | none ↦ v ]

-- `PortDifference.validate_dimension_values`
unfoldable pub validate_dimension_values : PortDifference → Result PortError PortDifference
unfolding values_by_dimension contains wire
validate_dimension_values x = do
  raise_if (not (contains (values_by_dimension x.dimension) (wire x.producer_value)))
      producer_foreign
  raise_if (not (contains (values_by_dimension x.dimension) (wire x.consumer_value)))
      consumer_foreign
  raise_if (str_eq (wire x.producer_value) (wire x.consumer_value)) values_equal
  ok x

-- `PortDifference(dimension=…, producer_value=…, consumer_value=…)`
unfoldable pub new_difference :
    PortDimension → PortValue → PortValue → Result PortError PortDifference
unfolding coerce_value validate_dimension_values
new_difference d producer consumer = validate_dimension_values (record {
  dimension = d;
  producer_value = coerce_value d producer;
  consumer_value = coerce_value d consumer;
})

-- `_provenance_is_compatible(producer, consumer)`
unfoldable pub provenance_is_compatible :
    PortProvenanceRequirement → PortProvenanceRequirement → Bool
provenance_is_compatible producer PortProvenanceRequirement.not_required = true
provenance_is_compatible PortProvenanceRequirement.source_bound
      PortProvenanceRequirement.source_or_component_bound =
    true
provenance_is_compatible PortProvenanceRequirement.component_bound
      PortProvenanceRequirement.source_or_component_bound =
    true
provenance_is_compatible PortProvenanceRequirement.source_or_component_bound
      PortProvenanceRequirement.source_or_component_bound =
    true
provenance_is_compatible PortProvenanceRequirement.not_required
      PortProvenanceRequirement.source_or_component_bound =
    false
provenance_is_compatible producer consumer =
    str_eq (provenance_value producer) (provenance_value consumer)

-- `for dimension in PortDimension`
abbrev pub port_dimensions : List PortDimension
port_dimensions =
    PortDimension.concept ∷ PortDimension.unit ∷ PortDimension.shape ∷ PortDimension.cardinality
    ∷ PortDimension.convention ∷ PortDimension.ordering ∷ PortDimension.frequency
    ∷ PortDimension.provenance_requirement ∷ []

-- `getattr(port, dimension.value)`
unfoldable pub port_value : PortDimension → SemanticPort → PortValue
port_value PortDimension.concept p = PortValue.concept p.concept
port_value PortDimension.unit p = PortValue.unit p.unit
port_value PortDimension.shape p = PortValue.shape p.shape
port_value PortDimension.cardinality p = PortValue.cardinality p.cardinality
port_value PortDimension.convention p = PortValue.convention p.convention
port_value PortDimension.ordering p = PortValue.ordering p.ordering
port_value PortDimension.frequency p = PortValue.frequency p.frequency
port_value PortDimension.provenance_requirement p =
    PortValue.provenance_requirement p.provenance_requirement

-- The `compatible` of one round of `_differences`.
unfoldable pub dimension_compatible : PortDimension → SemanticPort → SemanticPort → Bool
unfolding port_value wire provenance_is_compatible
dimension_compatible PortDimension.provenance_requirement producer consumer =
    provenance_is_compatible producer.provenance_requirement consumer.provenance_requirement
dimension_compatible d producer consumer =
    str_eq (wire (port_value d producer)) (wire (port_value d consumer))

module _ (producer consumer : SemanticPort) where
  unfoldable pub differences_over : List PortDimension → Result PortError (List PortDifference)
  unfolding dimension_compatible port_value new_difference
  differences_over [] = ok []
  differences_over (d ∷ ds) =
      let rest = differences_over ds in
      if dimension_compatible d producer consumer then rest else (do
        x ← new_difference d (port_value d producer) (port_value d consumer)
        xs ← rest
        ok (x ∷ xs))

-- `_differences`
unfoldable pub differences : SemanticPort → SemanticPort → Result PortError (List PortDifference)
unfolding differences_over
differences producer consumer = differences_over producer consumer port_dimensions

-- `==` of two differences, field by field
unfoldable pub same_difference : PortDifference → PortDifference → Bool
unfolding dimension_value wire
same_difference x y =
    str_eq (dimension_value x.dimension) (dimension_value y.dimension)
    && str_eq (wire x.producer_value) (wire y.producer_value)
    && str_eq (wire x.consumer_value) (wire y.consumer_value)

unfoldable pub same_differences : List PortDifference → List PortDifference → Bool
unfolding same_difference
same_differences [] [] = true
same_differences (x ∷ xs) (y ∷ ys) = same_difference x y && same_differences xs ys
same_differences _ _ = false

pub record PortCompatibility : Type 0 where
  pub producer : SemanticPort
  pub consumer : SemanticPort
  pub compatible : Bool
  pub differences : List PortDifference

abbrev pub is_empty {ℓ} : {A : Type ℓ} → List A → Bool
is_empty [] = true
is_empty (x ∷ xs) = false

abbrev pub same_bool : Bool → Bool → Bool
same_bool true b = b
same_bool false b = not b

-- `PortCompatibility.validate_result`
unfoldable pub validate_result : PortCompatibility → Result PortError PortCompatibility
unfolding differences same_differences direction_value
validate_result r = do
  raise_if (not (str_eq (direction_value r.producer.direction) "output")) producer_not_output
  raise_if (not (str_eq (direction_value r.consumer.direction) "input")) consumer_not_input
  expected ← differences r.producer r.consumer
  raise_if
      (not (same_differences r.differences expected)
        || not (same_bool r.compatible (is_empty expected)))
      result_mismatch
  ok r

-- What `compare_semantic_ports` does with the two contracts that it has extracted.
unfoldable pub compare_ports : SemanticPort → SemanticPort → Result PortError PortCompatibility
unfolding differences validate_result
compare_ports producer consumer = do
  found ← differences producer consumer
  validate_result (record {
    producer = producer;
    consumer = consumer;
    compatible = is_empty found;
    differences = found;
  })
