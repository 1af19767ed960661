-- ===== src/Ports/Tests.antt =====
-- An output whose values are bound to a component, and an input that asks for some source.
use defined_quant_components.Common.{◌≡◌, ◌↔◌, refl, true, ok}
use defined_quant_components.Ports.Vocabulary.{
  PortDirection, PortConcept, PortUnit, PortShape, PortCardinality, PortConvention, PortOrdering,
  PortFrequency, PortProvenanceRequirement,
}
use defined_quant_components.Ports.{SemanticPort, PortCompatibility, port_dimensions, compare_ports}
use defined_quant_components.Ports.Compare.{mismatches}
use defined_quant_components.Ports.Satisfies.{Satisfies, compare_ports-Satisfies}

abbrev close_prices : SemanticPort
close_prices = record {
  direction = PortDirection.output;
  concept = PortConcept.price_series;
  unit = PortUnit.price;
  shape = PortShape.ordered_series;
  cardinality = PortCardinality.one_or_more;
  convention = PortConvention.ordered_positive_prices;
  ordering = PortOrdering.preserve_source_order;
  frequency = PortFrequency.inherited;
  provenance_requirement = PortProvenanceRequirement.component_bound;
}

abbrev wanted : SemanticPort
wanted = record close_prices {
  direction = PortDirection.input;
  provenance_requirement = PortProvenanceRequirement.source_or_component_bound;
}

compare_ports-Satisfies_example :
    (r : PortCompatibility) × (compare_ports close_prices wanted ≡ ok r)
    × (r.differences ≡ mismatches close_prices wanted port_dimensions)
    × ((r.compatible ≡ true) ↔ Satisfies close_prices wanted)
compare_ports-Satisfies_example = compare_ports-Satisfies close_prices wanted refl refl
